-- ===== src/Metric/Collector.antt =====
-- relayer/metric/tx.go and the loop of relayer/metric/pusher.go: metrics that are collected, and
-- pushed, again and again until the context ends.
pub mod Counts
use tx_xrpl_token_migrator.Base.{
  ℕ, suc, true, false, ◌^◌, Bool, ◌&&◌, Option, none, some, List, [], ◌∷◌, length, leb, ltb,
  if◌then◌else◌,
}
use tx_xrpl_token_migrator.Base.Int.{ℤ, pos, pos_part, neg_part}
use tx_xrpl_token_migrator.Base.Go.{Go, ok, err, panics, Cause}
use tx_xrpl_token_migrator.Sdk.{Sdk}
use tx_xrpl_token_migrator.Tx.Contract.Types.{ContractClientConfig}
use tx_xrpl_token_migrator.Tx.Contract.Cosmos.{Chain}
use tx_xrpl_token_migrator.Tx.Contract.Pending.{Split, get_all_pending_transactions}
use tx_xrpl_token_migrator.Metric.Recorder.{
  Recorder, set_tx_sender_balance, set_tx_contract_balance,
  set_tx_pending_unapproved_transactions_count, set_tx_pending_approved_transactions_count,
}
use tx_xrpl_token_migrator.Xrpl.Scanner.{Ending}

-- `retry.Do` of coreum-tools over a function that always asks to be repeated, and what the source
-- makes of its error: it returns the one of a cancelled context and panics on any other. A round
-- has its own outside, and the error of the context if it is done in the wait after it. The result
-- of a round is none if it has not ended, and false if it panics.
module _ {ℓ} {E : Type ℓ} {S : Type 0} (round : E → S → Option (S × Bool)) where
  unfoldable pub repeat_rounds : List (E × Option Cause) → S → S × Ending
  repeat_rounds [] s = (s, Ending.waiting)
  repeat_rounds ((e, context) ∷ rounds) s =
      let rest = λ (s' : S). repeat_rounds rounds s' in
      elim (round e s) [
        | none ↦ (s, Ending.waiting)
        | some (s', alive) ↦
            if alive
            then elim context [
              | none ↦ rest s'
              | some Cause.canceled ↦ (s', Ending.canceled)
              | some _ ↦ (s', Ending.crashed)
            ]
            else (s', Ending.crashed)
      ]

-- `Int64`, which panics on a number that is none.
abbrev is_int64 : ℤ → Bool
is_int64 a = ltb (pos_part a) (2 ^ 63) && leb (neg_part a) (2 ^ 63)

-- The function of `collectBalance`, with the answer of the bank.
unfoldable pub balance_round :
    (ℤ → Recorder → Recorder) → Go ℤ → Recorder → Option (Recorder × Bool)
balance_round setter answer r = elim answer [
  | err _ ↦ some (r, true)
  | panics ↦ some (r, false)
  | ok amount ↦ if is_int64 amount then some (setter amount r, true) else some (r, false)
]

-- `CollectSenderBalance`
unfoldable pub collect_sender_balance : List (Go ℤ × Option Cause) → Recorder → Recorder × Ending
unfolding repeat_rounds balance_round
collect_sender_balance = repeat_rounds (balance_round set_tx_sender_balance)

-- `CollectContractBalance`
unfoldable pub collect_contract_balance : List (Go ℤ × Option Cause) → Recorder → Recorder × Ending
unfolding repeat_rounds balance_round
collect_contract_balance = repeat_rounds (balance_round set_tx_contract_balance)

-- The outside of a round of `collectPendingTransactions`: the chain, and the number of rounds that
-- its loop over the pages is given.
pub record PendingRound : Type 1 where
  pub chain : Chain
  pub fuel : ℕ

module _ (S : Sdk) (cfg : ContractClientConfig) where
  -- The function of `collectPendingTransactions`.
  unfoldable pub pending_round : PendingRound → Recorder → Option (Recorder × Bool)
  pending_round round r = elim (get_all_pending_transactions S round.chain cfg round.fuel) [
    | none ↦ none
    | some (err _) ↦ some (r, true)
    | some panics ↦ some (r, false)
    | some (ok s) ↦ some (
      set_tx_pending_approved_transactions_count (pos (length s.approved))
          (set_tx_pending_unapproved_transactions_count (pos (length s.unapproved)) r),
      true,
    )
  ]

  -- `CollectPendingTransactions`
  unfoldable pub collect_pending_transactions :
      List (PendingRound × Option Cause) → Recorder → Recorder × Ending
  unfolding repeat_rounds pending_round
  collect_pending_transactions = repeat_rounds pending_round

-- `PushMetrics`: a push that fails is repeated like one that succeeds. The state is how many
-- pushes have succeeded.
unfoldable pub push_metrics : List (Go (Unit {0}) × Option Cause) → ℕ → ℕ × Ending
unfolding repeat_rounds
push_metrics = repeat_rounds (λ answer n. elim answer [
  | ok _ ↦ some (suc n, true)
  | err _ ↦ some (n, true)
  | panics ↦ some (n, false)
])
