-- ===== src/Xrpl/Rpc/Submit/Fee.antt =====
-- What a transaction is filled with.
use tx_xrpl_token_migrator.Base.{
  subst, ◌∙◌, sym, ap, ℕ, ◌+◌, ◌*◌, ◌^◌, ◌<◌, ◌≡◌, ◌≢◌, ◌==◌, ◌↔◌, refl, inl, inr, some, arith,
  if◌then◌else◌, Option-cases,
}
use tx_xrpl_token_migrator.Base.Int.{pos}
use tx_xrpl_token_migrator.Base.Go.{ok, Go-cases, err_not_ok, panics_not_ok}
use tx_xrpl_token_migrator.Ripple.{Ripple, Account}
use tx_xrpl_token_migrator.Xrpl.Rpc.Types.{Node}
use tx_xrpl_token_migrator.Xrpl.Rpc.Submit.{
  AccountInfoResult, TxCodec, default_xrpl_base_fee, calculate_fee, account_info, auto_fill_tx,
  fill_base,
}

-- What the XRPL charges: the base fee for one signature, and for more of them the base fee for the
-- transaction and for each signature.
abbrev pub ledger_fee : ℕ → ℕ → ℕ
ledger_fee count base_fee = if count == 1 then base_fee else base_fee * (1 + count)

module _ (R : Ripple) (T : TxCodec R) where
  calculate_fee_lem :
      (count : ℕ)
      → count ≢ 0
      → ledger_fee count default_xrpl_base_fee < 2 ^ 32
      → calculate_fee R T count default_xrpl_base_fee
        ≡ T.new_native_value (pos (ledger_fee count default_xrpl_base_fee))
  unfolding calculate_fee
  calculate_fee_lem count h b = ground arith

  -- The transaction as it is filled: the fee of the ledger, the sender, and its next sequence.
  pub record IsFilled (node : Node R) (txn : T.Tx) (sender : Account) (count : ℕ) (txn' : T.Tx)
      : Type 0 where
    pub info : AccountInfoResult
    pub fee : R.Value
    pub next_sequence : ℕ
    pub signed : count ≢ 0
    pub answered : account_info R T node sender ≡ ok info
    pub numbered : info.sequence ≡ some next_sequence
    pub charged : T.new_native_value (pos (ledger_fee count default_xrpl_base_fee)) ≡ ok fee
    pub filled :
        txn'
        ≡ T.set_base txn (record { fee = some fee; account = sender; sequence = next_sequence })

  fill_base_sound :
      (txn txn' : T.Tx) (fee : R.Value) (sender : Account) (info : AccountInfoResult)
      → fill_base R T txn fee sender info ≡ (txn', ok tt)
      → (s : ℕ) × (info.sequence ≡ some s)
        × (txn' ≡ T.set_base txn (record { fee = some fee; account = sender; sequence = s }))
  unfolding fill_base
  fill_base_sound txn txn' fee sender info h = elim (Option-cases info.sequence) [
    | inl n ↦ absurd (panics_not_ok (ap (λ r. r.1) (rw (n, fill_base) at h)))
    | inr (s, e) ↦ (s, e, sym (ap (λ r. r.0) (rw (e, fill_base) at h)))
  ]

  calculate_fee_zero : (base_fee : ℕ) (fee : R.Value) → calculate_fee R T 0 base_fee ≢ ok fee
  unfolding calculate_fee
  calculate_fee_zero base_fee fee h = cc

  auto_fill_step :
      (node : Node R) (txn : T.Tx) (sender : Account) (count : ℕ) (info : AccountInfoResult)
      (fee : R.Value)
      → account_info R T node sender ≡ ok info
      → calculate_fee R T count default_xrpl_base_fee ≡ ok fee
      → auto_fill_tx R T node txn sender count ≡ fill_base R T txn fee sender info
  unfolding auto_fill_tx
  auto_fill_step node txn sender count info fee a f = rw (a, f, auto_fill_tx) refl

  auto_fill_sound :
      (node : Node R) (txn : T.Tx) (sender : Account) (count : ℕ) (txn' : T.Tx)
      → ledger_fee count default_xrpl_base_fee < 2 ^ 32
      → auto_fill_tx R T node txn sender count ≡ (txn', ok tt)
      → IsFilled node txn sender count txn'
  unfolding auto_fill_tx
  auto_fill_sound node txn sender count txn' b h = elim (Go-cases (account_info R T node sender)) [
    | inr (inl (e, a)) ↦ absurd (err_not_ok e (ap (λ r. r.1) (rw (a, auto_fill_tx) at h)))
    | inr (inr a) ↦ absurd (panics_not_ok (ap (λ r. r.1) (rw (a, auto_fill_tx) at h)))
    | inl (info, a) ↦ elim (Go-cases (calculate_fee R T count default_xrpl_base_fee)) [
      | inr (inl (e, f)) ↦ absurd (err_not_ok e (ap (λ r. r.1) (rw (a, f, auto_fill_tx) at h)))
      | inr (inr f) ↦ absurd (panics_not_ok (ap (λ r. r.1) (rw (a, f, auto_fill_tx) at h)))
      | inl (fee, f) ↦
          let signed : count ≢ 0 = λ z.
            calculate_fee_zero default_xrpl_base_fee fee
              (subst (λ c. calculate_fee R T c default_xrpl_base_fee ≡ ok fee) z f) in
          let (s, numbered, filled) =
            fill_base_sound txn txn' fee sender info
              (sym (auto_fill_step node txn sender count info fee a f) ∙ h) in
          record {
            info = info;
            fee = fee;
            next_sequence = s;
            signed = signed;
            answered = a;
            numbered = numbered;
            charged = sym (calculate_fee_lem count signed b) ∙ f;
            filled = filled;
          }
    ]
  ]

  auto_fill_complete :
      (node : Node R) (txn : T.Tx) (sender : Account) (count : ℕ) (txn' : T.Tx)
      → ledger_fee count default_xrpl_base_fee < 2 ^ 32
      → IsFilled node txn sender count txn'
      → auto_fill_tx R T node txn sender count ≡ (txn', ok tt)
  unfolding fill_base
  auto_fill_complete node txn sender count txn' b f =
      auto_fill_step node txn sender count f.info f.fee f.answered
        (calculate_fee_lem count f.signed b ∙ f.charged)
      ∙ rw (f.numbered, fill_base) (ap (λ t. (t, ok tt)) (sym f.filled))

  -- As long as the fee fits 32 bits, a transaction is filled without an error exactly if there is
  -- at least one signature, the node answers with the account and its sequence, and the fee is an
  -- amount of the XRPL; it then has the sender, that sequence, and the fee of the ledger: the base
  -- fee for one signature, and for more the base fee for the transaction and each of them.
  pub auto_fill_exact :
      (node : Node R) (txn : T.Tx) (sender : Account) (count : ℕ) (txn' : T.Tx)
      → ledger_fee count default_xrpl_base_fee < 2 ^ 32
      → (auto_fill_tx R T node txn sender count ≡ (txn', ok tt))
        ↔ IsFilled node txn sender count txn'
  auto_fill_exact node txn sender count txn' b = (
    auto_fill_sound node txn sender count txn' b,
    auto_fill_complete node txn sender count txn' b,
  )
