-- ===== src/Cli/Deploy/Checks.antt =====
-- What each check of `DeployAndInstantiateCmd` accepts.
use tx_xrpl_token_migrator.Base.{
  ◌==◌, ◌≡◌, ◌≢◌, refl, false, ap, subst, ◌∙◌, ◌↔◌, inl, inr, Option, some, List, [], ◌∷◌, All,
  Option-cases, length, if◌then◌else◌, arith,
}
use tx_xrpl_token_migrator.Base.Int.{ℤ, pos, ltb_ℤ, ◌≤ℤ◌, ◌<ℤ◌}
use tx_xrpl_token_migrator.Base.Str.{Str, codes}
use tx_xrpl_token_migrator.Base.Go.{ok, err, ◌>>=◌, >>=-eq-ok, ok_injective, err_not_ok, new_error}
use tx_xrpl_token_migrator.Sdk.{Sdk, Address}
use tx_xrpl_token_migrator.Cli.Flags.{
  FlagName, FlagValue, Flags, get_string, get_string_slice, get_int,
}
use tx_xrpl_token_migrator.Cli.Flags.Reads.{string_iff, int_iff, slice_iff}
use tx_xrpl_token_migrator.Cli.Deploy.{
  address_of, validate_acc_address, validate_acc_addresses, trusted_addresses, owner_address,
  threshold_value, min_amount_value, max_amount_value,
}

positive_check :
    (v t : ℤ) (m : Str)
    → (if ltb_ℤ (pos 0) v then ok v else err (new_error m)) ≡ ok t
    → (pos 0 <ℤ v) × (v ≡ t)
positive_check v t m h = ground arith

least_check :
    (least v t : ℤ) (m : Str)
    → (if ltb_ℤ v least then err (new_error m) else ok v) ≡ ok t
    → (least ≤ℤ v) × (v ≡ t)
least_check least v t m h = ground arith

module _ (S : Sdk) where
  abbrev pub IsAddress : Str → Type 0
  IsAddress text = (a : Address) × (S.acc_address_from_bech32 text ≡ some a)

  IsAddress-iff : (text : Str) → (validate_acc_address S text ≡ ok tt) ↔ IsAddress text
  unfolding validate_acc_address address_of
  IsAddress-iff text = elim (Option-cases (S.acc_address_from_bech32 text)) [
    | inl n ↦
        (λ h. absurd (err_not_ok _ (rw (n, validate_acc_address, address_of) at h)), λ (a, e). cc)
    | inr (a, e) ↦ (λ h. (a, e), λ h. rw (e, validate_acc_address, address_of) refl)
  ]

  All-IsAddress-iff :
      (texts : List Str) → (validate_acc_addresses S texts ≡ ok tt) ↔ All IsAddress texts
  unfolding validate_acc_addresses
  All-IsAddress-iff [] = (λ h. tt, λ h. refl)
  All-IsAddress-iff (text ∷ texts) = (
    λ h.
        let (u, one, others) = >>=-eq-ok (validate_acc_address S text) _ h in
        ((IsAddress-iff text).0 one, (All-IsAddress-iff texts).0 others),
    λ (one, others).
        ap (λ m. m >>= λ u. validate_acc_addresses S texts) ((IsAddress-iff text).1 one)
        ∙ (All-IsAddress-iff texts).1 others,
  )

  module _ (new_int_from_string : Str → Option ℤ) (flags : Flags) where
    length_cons : (t : Str) (texts : List Str) → (length (t ∷ texts) == 0) ≡ false
    length_cons t texts = ground arith

    -- The check of the addresses that are read.
    checked :
        (texts texts' : List Str)
        → (if length texts == 0
            then err (new_error (codes "at least one trusted address must be specified"))
            else validate_acc_addresses S texts >>= λ u. ok texts)
          ≡ ok texts'
        → (texts ≢ []) × (validate_acc_addresses S texts ≡ ok tt) × (texts ≡ texts')
    checked [] texts' h = cc
    checked (t ∷ texts) texts' h =
        let (u, valid, same) =
          >>=-eq-ok (validate_acc_addresses S (t ∷ texts)) _ (rw (length_cons t texts) at h) in
        (λ e. cc, valid, ok_injective same)

    full_length : (texts : List Str) → texts ≢ [] → (length texts == 0) ≡ false
    full_length [] h = absurd (h refl)
    full_length (t ∷ texts) h = length_cons t texts

    pub trusted_iff :
        (texts : List Str)
        → (trusted_addresses S new_int_from_string flags ≡ ok texts) ↔ (
            (flags FlagName.tx_contract_trusted_addresses ≡ some (FlagValue.texts texts))
            × (texts ≢ [])
            × All IsAddress texts)
    unfolding trusted_addresses
    trusted_iff texts = (
      λ h.
          let (v, got, k) =
            >>=-eq-ok (get_string_slice flags FlagName.tx_contract_trusted_addresses) _ h in
          let (full, valid, same) = checked v texts k in
          subst
            (λ z.
              (flags FlagName.tx_contract_trusted_addresses ≡ some (FlagValue.texts z))
              × (z ≢ [])
              × All IsAddress z)
            same
            (
              (slice_iff flags FlagName.tx_contract_trusted_addresses _ v refl).0 got,
              full,
              (All-IsAddress-iff v).0 valid,
            ),
      λ (given, full, valid).
          let got = (slice_iff flags FlagName.tx_contract_trusted_addresses _ texts refl).1 given in
          let empty = full_length texts full in
          let checks = (All-IsAddress-iff texts).1 valid in
          rw (got, empty, checks, trusted_addresses) refl,
    )

    pub owner_iff :
        (text : Str)
        → (owner_address S new_int_from_string flags ≡ ok text) ↔ (
            (flags FlagName.tx_contract_owner_address ≡ some (FlagValue.text text))
            × IsAddress text)
    unfolding owner_address
    owner_iff text = (
      λ h.
          let (v, got, k) = >>=-eq-ok (get_string flags FlagName.tx_contract_owner_address) _ h in
          let (u, valid, same) = >>=-eq-ok (validate_acc_address S v) _ k in
          subst
            (λ z.
              (flags FlagName.tx_contract_owner_address ≡ some (FlagValue.text z)) × IsAddress z)
            (ok_injective same)
            (
              (string_iff flags FlagName.tx_contract_owner_address _ v refl).0 got,
              (IsAddress-iff v).0 valid,
            ),
      λ (given, valid).
          let got = (string_iff flags FlagName.tx_contract_owner_address _ text refl).1 given in
          let checks = (IsAddress-iff text).1 valid in rw (got, checks, owner_address) refl,
    )

    pub threshold_iff :
        (t : ℤ)
        → (threshold_value S new_int_from_string flags ≡ ok t)
          ↔ ((flags FlagName.tx_contract_threshold ≡ some (FlagValue.int t)) × (pos 0 <ℤ t))
    unfolding threshold_value
    threshold_iff t = (
      λ h.
          let (v, got, k) = >>=-eq-ok (get_int flags FlagName.tx_contract_threshold) _ h in
          let (positive, same) =
            positive_check v t (codes "threshold must be greater than zero") k in
          subst
            (λ z. (flags FlagName.tx_contract_threshold ≡ some (FlagValue.int z)) × (pos 0 <ℤ z))
            same ((int_iff flags FlagName.tx_contract_threshold _ v refl).0 got, positive),
      λ (given, positive).
          let got = (int_iff flags FlagName.tx_contract_threshold _ t refl).1 given in
          rw (got, threshold_value) (ground arith),
    )

    pub min_amount_iff :
        (amount : ℤ)
        → (min_amount_value S new_int_from_string flags ≡ ok amount) ↔ (
            (text : Str) × (flags FlagName.tx_contract_min_amount ≡ some (FlagValue.text text))
            × (new_int_from_string text ≡ some amount)
            × (pos 0 <ℤ amount))
    unfolding min_amount_value
    min_amount_iff amount = (
      λ h.
          let (text, got, k) = >>=-eq-ok (get_string flags FlagName.tx_contract_min_amount) _ h in
          let given = (string_iff flags FlagName.tx_contract_min_amount _ text refl).0 got in
          elim (Option-cases (new_int_from_string text)) [
            | inl n ↦ absurd (err_not_ok _ (rw n at k))
            | inr (v, parsed) ↦
                let (positive, same) =
                  positive_check v amount (codes "tx-contract-min-amount must be greater than zero")
                    (rw parsed at k) in
                (text, given, parsed ∙ ap some same, subst (λ z. pos 0 <ℤ z) same positive)
          ],
      λ (text, given, parsed, positive).
          let got = (string_iff flags FlagName.tx_contract_min_amount _ text refl).1 given in
          rw (got, parsed, min_amount_value) (ground arith),
    )

    pub max_amount_iff :
        (least amount : ℤ)
        → (max_amount_value S new_int_from_string flags least ≡ ok amount) ↔ (
            (text : Str) × (flags FlagName.tx_contract_max_amount ≡ some (FlagValue.text text))
            × (new_int_from_string text ≡ some amount)
            × (least ≤ℤ amount))
    unfolding max_amount_value
    max_amount_iff least amount = (
      λ h.
          let (text, got, k) = >>=-eq-ok (get_string flags FlagName.tx_contract_max_amount) _ h in
          let given = (string_iff flags FlagName.tx_contract_max_amount _ text refl).0 got in
          elim (Option-cases (new_int_from_string text)) [
            | inl n ↦ absurd (err_not_ok _ (rw n at k))
            | inr (v, parsed) ↦
                let (enough, same) =
                  least_check least v amount
                    (codes
                      "tx-contract-max-amount must be greater or equal than tx-contract-min-amount")
                    (rw parsed at k) in
                (text, given, parsed ∙ ap some same, subst (λ z. least ≤ℤ z) same enough)
          ],
      λ (text, given, parsed, enough).
          let got = (string_iff flags FlagName.tx_contract_max_amount _ text refl).1 given in
          rw (got, parsed, max_amount_value) (ground arith),
    )
