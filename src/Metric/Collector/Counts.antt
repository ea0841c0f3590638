-- ===== src/Metric/Collector/Counts.antt =====
-- What the gauges of the pending transactions show.
use tx_xrpl_token_migrator.Base.{
  ℕ, ◌+◌, ◌<◌, ◌^◌, ◌≡◌, refl, sym, subst, ◌⊎◌, inl, inr, Bool, true, not, Option, none, some, List,
  [], ◌∷◌, ◌++◌, All, arith, length, filter, Bool-cases,
}
use tx_xrpl_token_migrator.Base.Int.{pos}
use tx_xrpl_token_migrator.Base.Go.{Go, Error, ok, err, Cause}
use tx_xrpl_token_migrator.Sdk.{Sdk}
use tx_xrpl_token_migrator.Tx.Contract.Types.{ContractClientConfig, Config, PendingTransaction}
use tx_xrpl_token_migrator.Tx.Contract.Cosmos.{Chain}
use tx_xrpl_token_migrator.Tx.Contract.Paging.{max_page_limit}
use tx_xrpl_token_migrator.Tx.Contract.Query.{get_contract_config}
use tx_xrpl_token_migrator.Tx.Contract.Pending.{Split, is_unapproved, get_all_pending_transactions}
use tx_xrpl_token_migrator.Tx.Contract.Pending.Partition.{Paged, split_of, pending_partition}
use tx_xrpl_token_migrator.Metric.Recorder.{
  Recorder, set_tx_pending_unapproved_transactions_count,
  set_tx_pending_approved_transactions_count,
}
use tx_xrpl_token_migrator.Metric.Collector.{
  PendingRound, repeat_rounds, pending_round, collect_pending_transactions,
}
use tx_xrpl_token_migrator.Xrpl.Scanner.{Ending}

module _ (S : Sdk) (cfg : ContractClientConfig) where
  abbrev answer_of : PendingRound → Option (Go Split)
  answer_of round = get_all_pending_transactions S round.chain cfg round.fuel

  -- A round that has an answer or an error, after which the context is not done.
  abbrev pub IsGoing : PendingRound × Option Cause → Type 0
  IsGoing (round, context) =
      (((e : Error) × (answer_of round ≡ some (err e)))
        ⊎ ((s : Split) × (answer_of round ≡ some (ok s))))
      × (context ≡ none)

  -- The gauges show these lists, and the collector goes on.
  pub record Shows (s : Split) (result : Recorder × Ending) : Type 0 where
    pub waits : result.1 ≡ Ending.waiting
    pub unapproved : result.0.tx_pending_unapproved_transactions_count ≡ pos (length s.unapproved)
    pub approved : result.0.tx_pending_approved_transactions_count ≡ pos (length s.approved)

  round_goes :
      (round : PendingRound) (rounds : List (PendingRound × Option Cause)) (r r' : Recorder)
      → pending_round S cfg round r ≡ some (r', true)
      → collect_pending_transactions S cfg ((round, none) ∷ rounds) r
        ≡ collect_pending_transactions S cfg rounds r'
  unfolding collect_pending_transactions
  round_goes round rounds r r' e = rw (e, repeat_rounds) refl

  last-Shows :
      (round : PendingRound) (s : Split) (r : Recorder)
      → answer_of round ≡ some (ok s)
      → Shows s (collect_pending_transactions S cfg ((round, none) ∷ []) r)
  unfolding collect_pending_transactions set_tx_pending_unapproved_transactions_count
      set_tx_pending_approved_transactions_count
  last-Shows round s r e =
      rw (e, repeat_rounds, pending_round)
        (record { waits = refl; unapproved = refl; approved = refl })

  -- The recorder after a round that goes on.
  going_round :
      (round : PendingRound) (r : Recorder)
      → ((e : Error) × (answer_of round ≡ some (err e)))
        ⊎ ((s : Split) × (answer_of round ≡ some (ok s)))
      → (r' : Recorder) × (pending_round S cfg round r ≡ some (r', true))
  unfolding pending_round
  going_round round r (inl (e, x)) = (r, rw (x, pending_round) refl)
  going_round round r (inr (s, x)) = (
    set_tx_pending_approved_transactions_count (pos (length s.approved))
        (set_tx_pending_unapproved_transactions_count (pos (length s.unapproved)) r),
    rw (x, pending_round) refl,
  )

  after-Shows :
      (earlier : List (PendingRound × Option Cause)) (round : PendingRound) (s : Split)
      (r : Recorder)
      → All IsGoing earlier
      → answer_of round ≡ some (ok s)
      → Shows s (collect_pending_transactions S cfg (earlier ++ (round, none) ∷ []) r)
  after-Shows [] round s r all e = last-Shows round s r e
  after-Shows ((first, context) ∷ earlier) round s r ((going, n), all) e =
      let (r', x) = going_round first r going in
      subst
        (λ c.
          Shows s
            (collect_pending_transactions S cfg ((first, c) ∷ earlier ++ (round, none) ∷ []) r))
        (sym n)
        (subst (Shows s) (sym (round_goes first (earlier ++ (round, none) ∷ []) r r' x))
          (after-Shows earlier round s r' all e))

filter_counts :
    (p : PendingTransaction → Bool) (txs : List PendingTransaction)
    → length (filter p txs) + length (filter (λ tx. not (p tx)) txs) ≡ length txs
filter_counts p [] = refl
filter_counts p (tx ∷ txs) = elim (Bool-cases (p tx)) [
  | inl y ↦ rw y (omega (arith, filter_counts p txs))
  | inr n ↦ rw n (omega (arith, filter_counts p txs))
]

module _ (S : Sdk) (cfg : ContractClientConfig) (chain : Chain)
    (pending : List PendingTransaction) where
  -- Let a round find a contract that answers with its configuration, and with the pages of its
  -- pending transactions, which stay the same meanwhile, 500 at most in each, the client's page
  -- size be that 500, as the default configuration has it, the transactions with one more page be
  -- fewer than 2^32, and the requests of the round more than the transactions. Whatever rounds
  -- before it failed, after this one the two gauges show how many of the transactions have fewer
  -- evidence providers than the threshold of the contract's configuration, and how many have not,
  -- together all of them, and the collector goes on.
  pub gauges_count :
      (earlier : List (PendingRound × Option Cause)) (fuel : ℕ) (contract_cfg : Config)
      (r : Recorder)
      → All (IsGoing S cfg) earlier
      → get_contract_config S chain cfg ≡ ok contract_cfg
      → Paged S chain cfg pending
      → cfg.contract_page_size ≡ max_page_limit
      → cfg.contract_page_size + length pending < 2 ^ 32
      → length pending < fuel
      → Shows S cfg (split_of contract_cfg.threshold pending) (
          collect_pending_transactions S cfg
            (earlier ++ (record { chain = chain; fuel = fuel }, none) ∷ [])
            r)
        × (length (split_of contract_cfg.threshold pending).unapproved
              + length (split_of contract_cfg.threshold pending).approved
            ≡ length pending)
  gauges_count earlier fuel contract_cfg r all c paged sized small enough = (
    after-Shows S cfg earlier (record { chain = chain; fuel = fuel })
        (split_of contract_cfg.threshold pending) r all
        (pending_partition S chain cfg pending fuel contract_cfg c paged sized small enough),
    filter_counts (is_unapproved contract_cfg.threshold) pending,
  )
