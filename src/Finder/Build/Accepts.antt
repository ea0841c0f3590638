-- ===== src/Finder/Build/Accepts.antt =====
-- Which transactions of the XRPL are paid out: exactly the verified burns to the issuer.
use mathlib.Core.Option.{none-ne-some}
use tx_xrpl_token_migrator.Base.{
  ◌≡◌, ◌≢◌, ◌∙◌, ap, ◌↔◌, true, false, some, arith, length, ◌==◌, List, [], ◌∷◌,
}
use tx_xrpl_token_migrator.Base.Int.{pos, ◌≤ℤ◌}
use tx_xrpl_token_migrator.Base.Str.{Str, str_eq_iff}
use tx_xrpl_token_migrator.Base.Go.{ok, >>=-eq-ok}
use tx_xrpl_token_migrator.Rat.{RatParser}
use tx_xrpl_token_migrator.Ripple.{Ripple}
use tx_xrpl_token_migrator.Sdk.{Sdk, Address}
use tx_xrpl_token_migrator.Xrpl.Model.{
  Transaction, transaction_type_payment, transaction_result_success,
}
use tx_xrpl_token_migrator.Finder.Memo.{extract_address_from_memo}
use tx_xrpl_token_migrator.Finder.Memo.First.{FirstAddress, extract_first}
use tx_xrpl_token_migrator.Finder.Burn.{received_at_least_delivered_amount}
use tx_xrpl_token_migrator.Finder.Burn.Exact.{received-value}
use tx_xrpl_token_migrator.Finder.Build.{
  Pending, Config, convert_xrpl_amount_to_tx_coin, pay_out, verify_burn, check_token,
  build_pending_transaction,
}

module _ (R : Ripple) (S : Sdk) (P : RatParser) (cfg : Config) where
  -- The coin is that of the converted amount, and is not empty.
  pub record IsPaid (txn : Transaction R) (p : Pending) : Type 0 where
    pub coin : convert_xrpl_amount_to_tx_coin R S P cfg txn.delivery_amount.value ≡ ok p.tx_amount
    pub nonzero : p.tx_amount.amount ≢ pos 0
    pub same_hash : p.xrpl_tx_hash ≡ txn.hash

  -- The token is the configured one, sent to its issuer.
  pub record IsToken (txn : Transaction R) : Type 0 where
    pub not_native : R.is_native txn.delivery_amount ≡ false
    pub currency :
        R.currency_string txn.delivery_amount.currency ≡ R.currency_string cfg.xrpl_currency
    pub issuer : R.account_string txn.delivery_amount.issuer ≡ R.account_string cfg.xrpl_issuer
    pub to_issuer : txn.destination ≡ R.account_string cfg.xrpl_issuer

  -- A successful payment of the right time.
  pub record IsPayment (txn : Transaction R) : Type 0 where
    pub validated : txn.validated ≡ true
    pub succeeded : txn.transaction_result ≡ transaction_result_success
    pub payment : txn.transaction_type ≡ transaction_type_payment
    pub active : cfg.activation_date ≤ℤ txn.date

  pay_out_sound :
      (txn : Transaction R) (a : Address) (p : Pending)
      → pay_out R S P cfg txn a ≡ ok (some p)
      → IsPaid txn p × (a ≡ p.tx_destination)
  unfolding pay_out
  pay_out_sound txn a p h =
      let (coin, e, rest) =
        >>=-eq-ok (convert_xrpl_amount_to_tx_coin R S P cfg txn.delivery_amount.value) _ h in
      ground arith

  pay_out_complete :
      (txn : Transaction R) (p : Pending)
      → IsPaid txn p
      → pay_out R S P cfg txn p.tx_destination ≡ ok (some p)
  unfolding pay_out
  pay_out_complete txn p h = ground arith

  check_token_sound :
      (txn : Transaction R) (a : Address) (p : Pending)
      → check_token R S P cfg txn a ≡ ok (some p)
      → IsToken txn × (verify_burn R S P cfg txn a ≡ ok (some p))
  unfolding check_token
  check_token_sound txn a p h = ground (
    arith,
    str_eq_iff (R.currency_string txn.delivery_amount.currency)
        (R.currency_string cfg.xrpl_currency),
    str_eq_iff (R.account_string txn.delivery_amount.issuer) (R.account_string cfg.xrpl_issuer),
    str_eq_iff txn.destination (R.account_string cfg.xrpl_issuer),
  )

  check_token_complete :
      (txn : Transaction R) (a : Address) {v : R.Value}
      → txn.delivery_amount.value ≡ some v
      → IsToken txn
      → check_token R S P cfg txn a ≡ verify_burn R S P cfg txn a
  unfolding check_token
  check_token_complete txn a named h = ground (
    arith,
    str_eq_iff (R.currency_string txn.delivery_amount.currency)
        (R.currency_string cfg.xrpl_currency),
    str_eq_iff (R.account_string txn.delivery_amount.issuer) (R.account_string cfg.xrpl_issuer),
    str_eq_iff txn.destination (R.account_string cfg.xrpl_issuer),
  )

  verify_burn_sound :
      (txn : Transaction R) (a : Address) (p : Pending)
      → verify_burn R S P cfg txn a ≡ ok (some p)
      → (received_at_least_delivered_amount R cfg.xrpl_issuer txn.delivery_amount txn.affected_nodes
          ≡ ok true)
        × (pay_out R S P cfg txn a ≡ ok (some p))
  unfolding verify_burn
  verify_burn_sound txn a p h = ground arith

  verify_burn_complete :
      (txn : Transaction R) (a : Address)
      → received_at_least_delivered_amount R cfg.xrpl_issuer txn.delivery_amount txn.affected_nodes
        ≡ ok true
      → verify_burn R S P cfg txn a ≡ pay_out R S P cfg txn a
  unfolding verify_burn
  verify_burn_complete txn a h = rw (h, verify_burn)

  build_sound :
      (txn : Transaction R) (p : Pending)
      → build_pending_transaction R S P cfg txn ≡ ok (some p)
      → IsPayment txn
        × ((a : Address) × (extract_address_from_memo S txn.memos cfg.xrpl_memo_suffix ≡ some a)
            × (check_token R S P cfg txn a ≡ ok (some p)))
  unfolding build_pending_transaction
  build_sound txn p h = ground (
    arith,
    str_eq_iff txn.transaction_result transaction_result_success,
    str_eq_iff txn.transaction_type transaction_type_payment,
  )

  build_complete :
      (txn : Transaction R) (a : Address)
      → IsPayment txn
      → extract_address_from_memo S txn.memos cfg.xrpl_memo_suffix ≡ some a
      → build_pending_transaction R S P cfg txn ≡ check_token R S P cfg txn a
  unfolding build_pending_transaction
  build_complete txn a h e = ground (
    arith,
    str_eq_iff txn.transaction_result transaction_result_success,
    str_eq_iff txn.transaction_type transaction_type_payment,
    memos_nonempty txn.memos e,
  )
    where
      memos_nonempty :
          (ms : List Str)
          → extract_address_from_memo S ms cfg.xrpl_memo_suffix ≡ some a
          → (length ms == 0) ≡ false
      memos_nonempty [] h = absurd (none-ne-some a (unfold extract_address_from_memo in h))
      memos_nonempty (m ∷ ms) h = ground arith

  -- A transaction that is to be paid out as `p`: a verified burn of the token, addressed by its
  -- memo, of an amount that is not converted to zero.
  pub record IsBurn (txn : Transaction R) (p : Pending) : Type 0 where
    pub payment : IsPayment txn
    pub addressed : FirstAddress S cfg.xrpl_memo_suffix txn.memos p.tx_destination
    pub token : IsToken txn
    pub burned :
        received_at_least_delivered_amount R cfg.xrpl_issuer txn.delivery_amount txn.affected_nodes
        ≡ ok true
    pub paid : IsPaid txn p

  -- A transaction becomes the pending transfer `p` exactly when it is a validated, successful
  -- payment from the activation date on, of the configured token to its issuer, whose first
  -- address memo names the destination of `p`, whose burn is verified on the ledger, and whose
  -- amount is converted to the coin of `p`, which is not zero.
  pub build_accepts :
      (txn : Transaction R) (p : Pending)
      → (build_pending_transaction R S P cfg txn ≡ ok (some p)) ↔ IsBurn txn p
  build_accepts txn p = (sound, complete)
    where
      sound : build_pending_transaction R S P cfg txn ≡ ok (some p) → IsBurn txn p
      sound h =
          let (payment, rest) = build_sound txn p h in
          let (a, found, checked) = rest in
          let (token, verified) = check_token_sound txn a p checked in
          let (burned, paying) = verify_burn_sound txn a p verified in
          let (paid, same) = pay_out_sound txn a p paying in
          record {
            payment = payment;
            addressed = (extract_first S cfg.xrpl_memo_suffix txn.memos _).0 (found ∙ ap some same);
            token = token;
            burned = burned;
            paid = paid;
          }

      complete : IsBurn txn p → build_pending_transaction R S P cfg txn ≡ ok (some p)
      complete b =
          let named =
            received-value R cfg.xrpl_issuer txn.delivery_amount txn.affected_nodes b.burned in
          build_complete txn p.tx_destination b.payment
            ((extract_first S cfg.xrpl_memo_suffix txn.memos _).1 b.addressed)
          ∙ (check_token_complete txn p.tx_destination named.1 b.token
              ∙ (verify_burn_complete txn p.tx_destination b.burned
                  ∙ pay_out_complete txn p b.paid))
