-- ===== src/Executor/Sends.antt =====
-- What the executor submits to the contract.
use tx_xrpl_token_migrator.Base.{
  ◌≡◌, refl, ◌⊎◌, inl, inr, List, [], ◌∷◌, ◌++◌, All, All-append, arith, Memᴰ, Bool-cases,
  Option-cases,
}
use tx_xrpl_token_migrator.Base.Int.{◌≤ℤ◌, ltb_ℤ}
use tx_xrpl_token_migrator.Base.Go.{Go-cases}
use tx_xrpl_token_migrator.Sdk.{Sdk, Address}
use tx_xrpl_token_migrator.Finder.Build.{Pending}
use tx_xrpl_token_migrator.Xrpl.Scanner.{Ending}
use tx_xrpl_token_migrator.Executor.{
  ContractClient, Submitted, Round, Event, request_of, attempt, retry_transaction, start,
}

-- The transfers that a list of events brings.
abbrev pub received : List Event → List Pending
received [] = []
received (Event.stop ∷ events) = received events
received (Event.receive txn rounds ∷ events) = txn ∷ received events

pub Ending-cases :
    (e : Ending)
    → ((e ≡ Ending.waiting) ⊎ (e ≡ Ending.crashed))
      ⊎ ((e ≡ Ending.finished) ⊎ (e ≡ Ending.canceled))
Ending-cases Ending.waiting = inl (inl refl)
Ending-cases Ending.crashed = inl (inr refl)
Ending-cases Ending.finished = inr (inl refl)
Ending-cases Ending.canceled = inr (inr refl)

module _ (S : Sdk) (sender_address : Address) where
  -- A request of one of these transfers, for at least the least amount.
  abbrev pub IsRequest : List Pending → Submitted → Type 0
  IsRequest txns sub =
      (txn : Pending) × (Memᴰ txn txns)
      × (sub.request ≡ request_of S txn)
      × (sub.min_amount ≤ℤ sub.request.amount.amount)

  attempt-IsRequest :
      (txns : List Pending) (client : ContractClient) (txn : Pending)
      → Memᴰ txn txns
      → All (IsRequest txns) (attempt S sender_address client txn).0
  unfolding attempt request_of
  attempt-IsRequest txns client txn m = elim (Go-cases client.contract_config) [
    | inl (c, e) ↦ elim (Bool-cases (ltb_ℤ txn.tx_amount.amount c.min_amount)) [
      | inl low ↦ rw (e, low, attempt) tt
      | inr high ↦ rw (e, high, attempt) ((txn, m, refl, ground arith), tt)
    ]
    | inr (inl (x, e)) ↦ rw (e, attempt) tt
    | inr (inr e) ↦ rw (e, attempt) tt
  ]

  module _ (txns : List Pending) (txn : Pending) (m : Memᴰ txn txns) where
    grown :
        (round : Round) (trace : List Submitted)
        → All (IsRequest txns) trace
        → All (IsRequest txns) (trace ++ (attempt S sender_address round.client txn).0)
    grown round trace h =
        All-append (IsRequest txns) trace _ h (attempt-IsRequest txns round.client txn m)

    retry-IsRequest :
        (rounds : List Round) (trace : List Submitted)
        → All (IsRequest txns) trace
        → All (IsRequest txns) (retry_transaction S sender_address txn rounds trace).0
    unfolding retry_transaction
    retry-IsRequest [] trace h = h
    retry-IsRequest (round ∷ rounds) trace h =
        elim (Go-cases (attempt S sender_address round.client txn).1) [
          | inl (u, e) ↦ rw (e, retry_transaction) (grown round trace h)
          | inr (inl (x, e)) ↦ elim (Option-cases round.done) [
            | inl n ↦ rw (e, n, retry_transaction) (retry-IsRequest rounds _ (grown round trace h))
            | inr (c, y) ↦ rw (e, y, retry_transaction) (grown round trace h)
          ]
          | inr (inr e) ↦ rw (e, retry_transaction) (grown round trace h)
        ]

  start-IsRequest :
      (txns : List Pending) (events : List Event) (trace : List Submitted)
      → ((txn : Pending) → Memᴰ txn (received events) → Memᴰ txn txns)
      → All (IsRequest txns) trace
      → All (IsRequest txns) (start S sender_address events trace).0
  unfolding start
  start-IsRequest txns [] trace sub h = h
  start-IsRequest txns (Event.stop ∷ events) trace sub h = h
  start-IsRequest txns (Event.receive txn rounds ∷ events) trace sub h =
      elim (Ending-cases (retry_transaction S sender_address txn rounds trace).1) [
        | inl (inl e) ↦ rw (e, start) now
        | inl (inr e) ↦ rw (e, start) now
        | inr (inl e) ↦
            rw (e, start) (start-IsRequest txns events _ (λ t k. sub t (Memᴰ.tail k)) now)
        | inr (inr e) ↦
            rw (e, start) (start-IsRequest txns events _ (λ t k. sub t (Memᴰ.tail k)) now)
      ]
    where
      now : All (IsRequest txns) (retry_transaction S sender_address txn rounds trace).0
      now = retry-IsRequest txns txn (sub txn (Memᴰ.head refl)) rounds trace h

  -- Whatever happens in the rounds, the executor sends requests of received transfers alone, each
  -- with the hash, the amount and the recipient of its transfer, and with at least the least amount
  -- of the configuration that it read before.
  pub start_sends :
      (events : List Event) → All (IsRequest (received events)) (start S sender_address events []).0
  start_sends events = start-IsRequest (received events) events [] (λ txn m. m) tt
