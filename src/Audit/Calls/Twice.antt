-- ===== src/Audit/Calls/Twice.antt =====
-- Transfers that were sent twice are found, and no others.
use tx_xrpl_token_migrator.Base.{
  filter-append, ◌≡◌, refl, sym, ap, ◌∙◌, inl, inr, Bool, true, false, not, ◌&&◌, ◌==◌, List, [],
  ◌∷◌, ◌++◌, map, filter, length, if◌then◌else◌, Bool-cases,
}
use tx_xrpl_token_migrator.Base.Int.{ℤ, pos}
use tx_xrpl_token_migrator.Base.Str.{Str, str_eq}
use tx_xrpl_token_migrator.Base.Go.{Go, ok, ◌>>=◌, >>=-eq-ok, ok_injective, or_panic}
use tx_xrpl_token_migrator.Ripple.{Ripple}
use tx_xrpl_token_migrator.Sdk.{Sdk, Coin}
use tx_xrpl_token_migrator.Tx.Contract.Types.{ThresholdBankSendRequest}
use tx_xrpl_token_migrator.Tx.Contract.Pending.{has_id}
use tx_xrpl_token_migrator.Audit.Types.{
  TxResponse, DiscrepancyType, Discrepancy, ContractCallTx, AuditorConfig, Decoders,
}
use tx_xrpl_token_migrator.Audit.Calls.{
  sent_coins, twice, compare_sent, analyze_calls, analyze_contract_call_discrepancies,
}

-- The calls whose hash is among the given ones or those of the calls before.
abbrev pub repeated :
    List (ContractCallTx ThresholdBankSendRequest)
    → List Str
    → List (ContractCallTx ThresholdBankSendRequest)
repeated [] found = []
repeated (call ∷ calls) found =
    let rest = repeated calls (call.payload.id ∷ found) in
    if has_id call.payload.id found then call ∷ rest else rest

abbrev pub is_double_spend : {R : Ripple} → Discrepancy R → Bool
is_double_spend d = elim d.discrepancy_type [
  | DiscrepancyType.contract_double_spend ↦ true
  | _ ↦ false
]

module _ (R : Ripple) (S : Sdk) (D : Decoders) (cfg : AuditorConfig) where
  compare_sent-none :
      (call : ContractCallTx ThresholdBankSendRequest) (coins : List Coin)
      → filter is_double_spend (compare_sent R S D cfg call coins) ≡ []
  unfolding compare_sent
  compare_sent-none call coins =
      elim (Bool-cases (
        not (length coins == 1)
        && not (
            str_eq (S.int_string (D.amount_of coins cfg.tx_denom))
              (S.coin_string call.payload.amount)))) [
                | inl y ↦ rw (y, compare_sent) refl
                | inr n ↦ rw (n, compare_sent) refl
              ]

  only_twice :
      (call : ContractCallTx ThresholdBankSendRequest) (found : List Str) (coins : List Coin)
      (more : List (Discrepancy R))
      → filter is_double_spend
          (twice R S D cfg call found ++ (compare_sent R S D cfg call coins ++ more))
        ≡ filter is_double_spend (twice R S D cfg call found) ++ filter is_double_spend more
  only_twice call found coins more =
      filter-append is_double_spend (twice R S D cfg call found)
        (compare_sent R S D cfg call coins ++ more)
      ∙ ap (λ r. filter is_double_spend (twice R S D cfg call found) ++ r)
          (filter-append is_double_spend (compare_sent R S D cfg call coins) more
            ∙ ap (λ r. r ++ filter is_double_spend more) (compare_sent-none call coins))

  abbrev tx_of_discrepancy : Discrepancy R → TxResponse
  tx_of_discrepancy d = d.tx_tx

  abbrev tx_of_call : ContractCallTx ThresholdBankSendRequest → TxResponse
  tx_of_call call = call.tx

  step :
      (call : ContractCallTx ThresholdBankSendRequest)
      (calls : List (ContractCallTx ThresholdBankSendRequest)) (found : List Str)
      (coins : List Coin) (more : List (Discrepancy R))
      → map tx_of_discrepancy (filter is_double_spend more)
        ≡ map tx_of_call (repeated calls (call.payload.id ∷ found))
      → map tx_of_discrepancy (
          filter is_double_spend
            (twice R S D cfg call found ++ (compare_sent R S D cfg call coins ++ more)))
        ≡ map tx_of_call (repeated (call ∷ calls) found)
  unfolding twice
  step call calls found coins more h = elim (Bool-cases (has_id call.payload.id found)) [
    | inl y ↦
        ap (map tx_of_discrepancy) (only_twice call found coins more)
        ∙ rw (y, twice) (ap (λ r. call.tx ∷ r) h)
    | inr n ↦ ap (map tx_of_discrepancy) (only_twice call found coins more) ∙ rw (n, twice) h
  ]

  abbrev discrepancies :
      ContractCallTx ThresholdBankSendRequest
      → List Str
      → List Coin
      → List (Discrepancy R)
      → List (Discrepancy R)
  discrepancies call found coins more =
      twice R S D cfg call found ++ (compare_sent R S D cfg call coins ++ more)

  -- What the rounds after this one find, where no round fails.
  analyze_calls-parts :
      (call : ContractCallTx ThresholdBankSendRequest)
      (calls : List (ContractCallTx ThresholdBankSendRequest)) (total : ℤ) (found : List Str)
      (ds : List (Discrepancy R))
      → analyze_calls R S D cfg (call ∷ calls) total found ≡ ok ds
      → (sum : ℤ) × (coins : List Coin) × (more : List (Discrepancy R)) × (analyze_calls R S D cfg
            calls sum
            (call.payload.id ∷ found)
          ≡ ok more)
        × (discrepancies call found coins more ≡ ds)
  unfolding analyze_calls
  analyze_calls-parts call calls total found ds h =
      let (sum, _, after_sum) =
        >>=-eq-ok (or_panic (S.int_add total call.payload.amount.amount))
          (λ sum. sent_coins R S D cfg call.tx.events >>= λ coins.
            analyze_calls R S D cfg calls sum (call.payload.id ∷ found) >>= λ more.
            ok (discrepancies call found coins more))
          h in
      let (coins, _, after_coins) =
        >>=-eq-ok (sent_coins R S D cfg call.tx.events)
          (λ coins. analyze_calls R S D cfg calls sum (call.payload.id ∷ found) >>= λ more.
            ok (discrepancies call found coins more))
          after_sum in
      let (more, rest, last) =
        >>=-eq-ok (analyze_calls R S D cfg calls sum (call.payload.id ∷ found))
          (λ more. ok (discrepancies call found coins more)) after_coins in
      (sum, coins, more, rest, ok_injective last)

  analyze_calls-repeated :
      (calls : List (ContractCallTx ThresholdBankSendRequest)) (total : ℤ) (found : List Str)
      (ds : List (Discrepancy R))
      → analyze_calls R S D cfg calls total found ≡ ok ds
      → map tx_of_discrepancy (filter is_double_spend ds) ≡ map tx_of_call (repeated calls found)
  analyze_calls-repeated [] total found ds h =
      let e : ◌≡◌ {A = Go (List (Discrepancy R))} (ok []) (ok ds) = unfold analyze_calls in h in
      ap (λ xs. map tx_of_discrepancy (filter is_double_spend xs)) (sym (ok_injective e))
  analyze_calls-repeated (call ∷ calls) total found ds h =
      let (sum, coins, more, rest, same) = analyze_calls-parts call calls total found ds h in
      ap (λ xs. map tx_of_discrepancy (filter is_double_spend xs)) (sym same)
      ∙ step call calls found coins more
          (analyze_calls-repeated calls sum (call.payload.id ∷ found) more rest)

  -- Where the analysis ends without an error, its double spends are exactly those transactions, in
  -- order, whose XRPL hash an earlier request of the contract had.
  pub double_spends :
      (calls : List (ContractCallTx ThresholdBankSendRequest)) (ds : List (Discrepancy R))
      → analyze_contract_call_discrepancies R S D cfg calls ≡ ok ds
      → map (λ d. d.tx_tx) (filter is_double_spend ds) ≡ map (λ call. call.tx) (repeated calls [])
  unfolding analyze_contract_call_discrepancies
  double_spends calls ds h = analyze_calls-repeated calls (pos 0) [] ds h
