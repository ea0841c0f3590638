-- ===== src/Executor/Attempt.antt =====
-- When an attempt to submit a transfer is the last one.
use tx_xrpl_token_migrator.Base.{
  ◌≡◌, refl, ◌⊎◌, inl, inr, ◌↔◌, true, none, some, List, [], ◌∷◌, ◌++◌, All, ltb→lt, lt→ltb,
  if◌then◌else◌, Bool-cases,
}
use tx_xrpl_token_migrator.Base.Int.{◌<ℤ◌, ltb_ℤ}
use tx_xrpl_token_migrator.Base.Go.{Go, ok, err, panics, Go-cases, Error}
use tx_xrpl_token_migrator.Sdk.{Sdk, Address}
use tx_xrpl_token_migrator.Finder.Build.{Pending}
use tx_xrpl_token_migrator.Tx.Contract.Types.{Config}
use tx_xrpl_token_migrator.Tx.Contract.Errors.{is_evidence_provided_error, is_transfer_sent_error}
use tx_xrpl_token_migrator.Xrpl.Scanner.{Ending}
use tx_xrpl_token_migrator.Executor.{
  ContractClient, Submitted, Round, request_of, after_send, attempt, retry_transaction,
}

module _ (S : Sdk) (sender_address : Address) where
  -- There is nothing left to do for a transfer.
  pub data IsSettled (client : ContractClient) (txn : Pending) : Type 0 where
    is_low :
        (contract_cfg : Config)
        → client.contract_config ≡ ok contract_cfg
        → txn.tx_amount.amount <ℤ contract_cfg.min_amount
        → IsSettled client txn
    is_sent :
        (contract_cfg : Config)
        → client.contract_config ≡ ok contract_cfg
        → client.send sender_address (request_of S txn ∷ []) ≡ ok tt
        → IsSettled client txn
    is_known :
        (contract_cfg : Config) (e : Error)
        → client.contract_config ≡ ok contract_cfg
        → client.send sender_address (request_of S txn ∷ []) ≡ err e
        → (is_evidence_provided_error (some e) ≡ true) ⊎ (is_transfer_sent_error (some e) ≡ true)
        → IsSettled client txn

  after_send-IsSettled :
      (client : ContractClient) (txn : Pending) (contract_cfg : Config)
      → client.contract_config ≡ ok contract_cfg
      → after_send (client.send sender_address (request_of S txn ∷ [])) ≡ ok tt
      → IsSettled client txn
  unfolding after_send
  after_send-IsSettled client txn c e h =
      elim (Go-cases (client.send sender_address (request_of S txn ∷ []))) [
        | inl (u, s) ↦ IsSettled.is_sent c e s
        | inr (inl (x, s)) ↦ IsSettled.is_known c x e s (known x (rw (s, after_send) at h))
        | inr (inr s) ↦ absurd (no_panic (rw (s, after_send) at h))
      ]
    where
      known :
          (x : Error)
          → ◌≡◌ {A = Go (Unit {0})}
              (if is_evidence_provided_error (some x)
                then ok tt
                else if is_transfer_sent_error (some x)
                then ok tt
                else err x)
              (ok tt)
          → (is_evidence_provided_error (some x) ≡ true) ⊎ (is_transfer_sent_error (some x) ≡ true)
      known x k = elim (Bool-cases (is_evidence_provided_error (some x))) [
        | inl y ↦ inl y
        | inr n ↦ elim (Bool-cases (is_transfer_sent_error (some x))) [
          | inl y ↦ inr y
          | inr n' ↦ absurd (no_error (rw (n, n') at k))
        ]
      ]
        where
          no_error : ◌≡◌ {A = Go (Unit {0})} (err x) (ok tt) → ⊥
          no_error k' = cc

      no_panic : ◌≡◌ {A = Go (Unit {0})} panics (ok tt) → ⊥
      no_panic k = cc

  sound :
      (client : ContractClient) (txn : Pending)
      → (attempt S sender_address client txn).1 ≡ ok tt
      → IsSettled client txn
  unfolding attempt
  sound client txn h = elim (Go-cases client.contract_config) [
    | inl (c, e) ↦ elim (Bool-cases (ltb_ℤ txn.tx_amount.amount c.min_amount)) [
      | inl low ↦ IsSettled.is_low c e (ltb→lt _ _ low)
      | inr high ↦ after_send-IsSettled client txn c e (rw (e, high, attempt) at h)
    ]
    | inr (inl (x, e)) ↦ absurd (no_error x (rw (e, attempt) at h))
    | inr (inr e) ↦ absurd (no_panic (rw (e, attempt) at h))
  ]
    where
      no_error : (x : Error) → ◌≡◌ {A = Go (Unit {0})} (err x) (ok tt) → ⊥
      no_error x k = cc

      no_panic : ◌≡◌ {A = Go (Unit {0})} panics (ok tt) → ⊥
      no_panic k = cc

  by_send :
      (client : ContractClient) (txn : Pending) (c : Config)
      → client.contract_config ≡ ok c
      → after_send (client.send sender_address (request_of S txn ∷ [])) ≡ ok tt
      → (attempt S sender_address client txn).1 ≡ ok tt
  unfolding attempt
  by_send client txn c e h = elim (Bool-cases (ltb_ℤ txn.tx_amount.amount c.min_amount)) [
    | inl low ↦ rw (e, low, attempt) refl
    | inr high ↦ rw (e, high, attempt) h
  ]

  complete :
      (client : ContractClient) (txn : Pending)
      → IsSettled client txn
      → (attempt S sender_address client txn).1 ≡ ok tt
  unfolding attempt after_send
  complete client txn (IsSettled.is_low c e low) = rw (e, lt→ltb _ _ low, attempt) refl
  complete client txn (IsSettled.is_sent c e s) = by_send client txn c e (rw (s, after_send) refl)
  complete client txn (IsSettled.is_known c x e s (inl y)) =
      by_send client txn c e (rw (s, y, after_send) refl)
  complete client txn (IsSettled.is_known c x e s (inr y)) =
      by_send client txn c e (elim (Bool-cases (is_evidence_provided_error (some x))) [
        | inl z ↦ rw (s, z, after_send) refl
        | inr n ↦ rw (s, n, y, after_send) refl
      ])

  -- The retry of a transfer stops by an attempt exactly if the contract's configuration was read
  -- and the amount is below its least amount, or the evidence was sent, or the send was refused
  -- because the evidence had been provided before, or the transfer sent before.
  pub attempt_ends :
      (client : ContractClient) (txn : Pending)
      → ((attempt S sender_address client txn).1 ≡ ok tt) ↔ IsSettled client txn
  attempt_ends client txn = (sound client txn, complete client txn)

  -- The attempts that are repeated.
  abbrev pub IsRepeated : Pending → Round → Type 0
  IsRepeated txn round =
      ((e : Error) × ((attempt S sender_address round.client txn).1 ≡ err e)) × (round.done ≡ none)

  -- Whatever number of rounds fail, as long as the context is not done, the retry goes on, and it
  -- finishes with the first round in which the transfer is settled.
  pub retry_finishes :
      (txn : Pending) (failed : List Round) (last : Round) (later : List Round)
      (trace : List Submitted)
      → All (IsRepeated txn) failed
      → IsSettled last.client txn
      → (retry_transaction S sender_address txn (failed ++ last ∷ later) trace).1 ≡ Ending.finished
  unfolding retry_transaction
  retry_finishes txn [] last later trace rep settled =
      rw (complete last.client txn settled, retry_transaction) refl
  retry_finishes txn (round ∷ failed) last later trace rep settled =
      rw (rep.0.0.1, rep.0.1, retry_transaction)
        (retry_finishes txn failed last later _ rep.1 settled)
