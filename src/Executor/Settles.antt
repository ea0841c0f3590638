-- ===== src/Executor/Settles.antt =====
-- Each transfer that the executor receives is settled, where its retry gets to its end.
use tx_xrpl_token_migrator.Base.{
  ◌≡◌, refl, sym, ap, subst, ◌⊎◌, inl, inr, List, [], ◌∷◌, ◌++◌, All, Memᴰ, mem-append_left,
  mem-append_right, mem_cons-cases, not_mem_nil, ltb→lt, Bool-cases, Option-cases,
}
use tx_xrpl_token_migrator.Base.Int.{◌<ℤ◌, ltb_ℤ}
use tx_xrpl_token_migrator.Base.Go.{ok, Go-cases}
use tx_xrpl_token_migrator.Sdk.{Sdk, Address}
use tx_xrpl_token_migrator.Finder.Build.{Pending}
use tx_xrpl_token_migrator.Tx.Contract.Types.{Config}
use tx_xrpl_token_migrator.Xrpl.Scanner.{Ending}
use tx_xrpl_token_migrator.Executor.{
  ContractClient, Submitted, Round, Event, request_of, attempt, retry_transaction, start,
}
use tx_xrpl_token_migrator.Executor.Attempt.{IsSettled, IsRepeated, attempt_ends, retry_finishes}
use tx_xrpl_token_migrator.Executor.Sends.{received, Ending-cases}

module _ (S : Sdk) (sender_address : Address) where
  -- After rounds that are repeated, one settles the transfer.
  abbrev pub IsFinishing : Event → Type 0
  IsFinishing Event.stop = ⊥
  IsFinishing (Event.receive txn rounds) =
      (failed : List Round) × (last : Round) × (later : List Round) × (rounds
        ≡ failed ++ last ∷ later)
      × All (IsRepeated S sender_address txn) failed
      × IsSettled S sender_address last.client txn

  -- The request of the transfer has been sent, or in one of the rounds its amount was below the
  -- least amount of the contract's configuration.
  abbrev pub IsHandled : List Submitted → Pending → List Round → Type 0
  IsHandled trace txn rounds =
      ((round : Round) × (contract_cfg : Config) × (Memᴰ round rounds)
        × (round.client.contract_config ≡ ok contract_cfg)
        × (txn.tx_amount.amount <ℤ contract_cfg.min_amount))
      ⊎ ((sub : Submitted) × (Memᴰ sub trace) × (sub.request ≡ request_of S txn))

  -- What an attempt with a configuration leaves, whatever is answered to its send.
  attempt_handles :
      (client : ContractClient) (txn : Pending) (c : Config)
      → client.contract_config ≡ ok c
      → ((contract_cfg : Config) × (client.contract_config ≡ ok contract_cfg)
          × (txn.tx_amount.amount <ℤ contract_cfg.min_amount))
        ⊎ ((sub : Submitted) × (Memᴰ sub (attempt S sender_address client txn).0)
            × (sub.request ≡ request_of S txn))
  unfolding attempt
  attempt_handles client txn c e = elim (Bool-cases (ltb_ℤ txn.tx_amount.amount c.min_amount)) [
    | inl low ↦ inl (c, e, ltb→lt _ _ low)
    | inr high ↦ inr (
      record { min_amount = c.min_amount; request = request_of S txn },
      rw (e, high, attempt) (Memᴰ.head refl),
      refl,
    )
  ]

  settled_config :
      (client : ContractClient) (txn : Pending)
      → IsSettled S sender_address client txn
      → (c : Config) × (client.contract_config ≡ ok c)
  settled_config client txn (IsSettled.is_low c e low) = (c, e)
  settled_config client txn (IsSettled.is_sent c e s) = (c, e)
  settled_config client txn (IsSettled.is_known c x e s k) = (c, e)

  module _ (txn : Pending) where
    retry-extends :
        (sub : Submitted) (rounds : List Round) (trace : List Submitted)
        → Memᴰ sub trace
        → Memᴰ sub (retry_transaction S sender_address txn rounds trace).0
    unfolding retry_transaction
    retry-extends sub [] trace m = m
    retry-extends sub (round ∷ rounds) trace m =
        let grown = mem-append_left (attempt S sender_address round.client txn).0 m in
        elim (Go-cases (attempt S sender_address round.client txn).1) [
          | inl (u, e) ↦ rw (e, retry_transaction) grown
          | inr (inr e) ↦ rw (e, retry_transaction) grown
          | inr (inl (x, e)) ↦ elim (Option-cases round.done) [
            | inl n ↦ rw (e, n, retry_transaction) (retry-extends sub rounds _ grown)
            | inr (c, y) ↦ rw (e, y, retry_transaction) grown
          ]
        ]

    retry-last :
        (sub : Submitted) (last : Round) (later : List Round) (trace : List Submitted)
        → IsSettled S sender_address last.client txn
        → Memᴰ sub (attempt S sender_address last.client txn).0
        → Memᴰ sub (retry_transaction S sender_address txn (last ∷ later) trace).0
    unfolding retry_transaction
    retry-last sub last later trace settled m =
        rw ((attempt_ends S sender_address last.client txn).1 settled, retry_transaction)
          (mem-append_right trace m)

    retry-failed :
        (sub : Submitted) (failed rest : List Round)
        → All (IsRepeated S sender_address txn) failed
        → ((trace : List Submitted)
            → Memᴰ sub (retry_transaction S sender_address txn rest trace).0)
        → (trace : List Submitted)
        → Memᴰ sub (retry_transaction S sender_address txn (failed ++ rest) trace).0
    unfolding retry_transaction
    retry-failed sub [] rest all m trace = m trace
    retry-failed sub (round ∷ failed) rest all m trace =
        rw (all.0.0.1, all.0.1, retry_transaction) (retry-failed sub failed rest all.1 m _)

  retry_handles :
      (txn : Pending) (rounds : List Round) (trace : List Submitted)
      → IsFinishing (Event.receive txn rounds)
      → IsHandled (retry_transaction S sender_address txn rounds trace).0 txn rounds
  retry_handles txn rounds trace (failed, last, later, e, all, settled) =
      let (c, read) = settled_config last.client txn settled in
      elim (attempt_handles last.client txn c read) [
        | inl (low, r, l) ↦
            inl (
              last,
              low,
              subst (Memᴰ last) (sym e) (mem-append_right failed (Memᴰ.head refl)),
              r,
              l,
            )
        | inr (sub, m, same) ↦ inr (
          sub,
          subst (λ rs. Memᴰ sub (retry_transaction S sender_address txn rs trace).0) (sym e)
              (retry-failed txn sub failed (last ∷ later) all
                (λ t. retry-last txn sub last later t settled m) trace),
          same,
        )
      ]

  finishes :
      (txn : Pending) (rounds : List Round) (trace : List Submitted)
      → IsFinishing (Event.receive txn rounds)
      → (retry_transaction S sender_address txn rounds trace).1 ≡ Ending.finished
  finishes txn rounds trace (failed, last, later, e, all, settled) =
      subst (λ rs. (retry_transaction S sender_address txn rs trace).1 ≡ Ending.finished) (sym e)
        (retry_finishes S sender_address txn failed last later trace all settled)

  start-extends :
      (sub : Submitted) (events : List Event) (trace : List Submitted)
      → Memᴰ sub trace
      → Memᴰ sub (start S sender_address events trace).0
  unfolding start
  start-extends sub [] trace m = m
  start-extends sub (Event.stop ∷ events) trace m = m
  start-extends sub (Event.receive txn rounds ∷ events) trace m =
      let kept = retry-extends txn sub rounds trace m in
      elim (Ending-cases (retry_transaction S sender_address txn rounds trace).1) [
        | inl (inl e) ↦ rw (e, start) kept
        | inl (inr e) ↦ rw (e, start) kept
        | inr (inl e) ↦ rw (e, start) (start-extends sub events _ kept)
        | inr (inr e) ↦ rw (e, start) (start-extends sub events _ kept)
      ]

  IsHandled-mono :
      (trace trace' : List Submitted) (txn : Pending) (rounds : List Round)
      → ((sub : Submitted) → Memᴰ sub trace → Memᴰ sub trace')
      → IsHandled trace txn rounds
      → IsHandled trace' txn rounds
  IsHandled-mono trace trace' txn rounds grow (inl low) = inl low
  IsHandled-mono trace trace' txn rounds grow (inr (sub, m, same)) = inr (sub, grow sub m, same)

  start-cons :
      (txn : Pending) (rounds : List Round) (events : List Event) (trace : List Submitted)
      → IsFinishing (Event.receive txn rounds)
      → start S sender_address (Event.receive txn rounds ∷ events) trace
        ≡ start S sender_address events (retry_transaction S sender_address txn rounds trace).0
  unfolding start
  start-cons txn rounds events trace f = rw (finishes txn rounds trace f, start) refl

  -- Where the retry of each transfer gets to a round that settles it, each of the transfers that
  -- are received is handled.
  pub start_handles :
      (events : List Event) (trace : List Submitted) (txn : Pending)
      → All IsFinishing events
      → Memᴰ txn (received events)
      → (rounds : List Round) × (Memᴰ (Event.receive txn rounds) events)
        × IsHandled (start S sender_address events trace).0 txn rounds
  start_handles [] trace txn all m = absurd (not_mem_nil m)
  start_handles (Event.stop ∷ events) trace txn all m = absurd all.0
  start_handles (Event.receive first rounds ∷ events) trace txn (f, all) m =
      let after = (retry_transaction S sender_address first rounds trace).0 in
      let same = start-cons first rounds events trace f in
      elim (mem_cons-cases m) [
        | inl e ↦ (
          rounds,
          Memᴰ.head (ap (λ t. Event.receive t rounds) e),
          subst (λ r. IsHandled r.0 txn rounds) (sym same)
              (IsHandled-mono after _ txn rounds (λ sub k. start-extends sub events after k)
                (subst (λ t. IsHandled after t rounds) (sym e)
                  (retry_handles first rounds trace f))),
        )
        | inr k ↦
            let (rs, there, handled) = start_handles events after txn all k in
            (rs, Memᴰ.tail there, subst (λ r. IsHandled r.0 txn rs) (sym same) handled)
      ]
