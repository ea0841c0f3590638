-- ===== src/Audit/Compare/Clean.antt =====
-- When the comparison with the XRPL finds no discrepancy.
use tx_xrpl_token_migrator.Base.{
  ◌≡◌, refl, ap, ◌∙◌, inl, inr, ◌↔◌, true, Option, some, List, [], ◌∷◌, ◌++◌, All, Bool-cases,
  Option-cases,
}
use tx_xrpl_token_migrator.Base.Int.{ℤ}
use tx_xrpl_token_migrator.Base.Str.{Str, codes, str_eq}
use tx_xrpl_token_migrator.Base.Go.{ok, >>=-eq-ok, ok_injective}
use tx_xrpl_token_migrator.Rat.{RatParser}
use tx_xrpl_token_migrator.Ripple.{Ripple}
use tx_xrpl_token_migrator.Sdk.{Sdk, Address}
use tx_xrpl_token_migrator.Xrpl.Model.{Transaction}
use tx_xrpl_token_migrator.Finder.Memo.{extract_address_from_memo}
use tx_xrpl_token_migrator.Finder.Convert.{convert_xrpl_amount_to_tx_amount}
use tx_xrpl_token_migrator.Audit.Types.{AuditorConfig, Discrepancy, DiscrepancyType}
use tx_xrpl_token_migrator.Audit.Compare.{
  Call, flag, check_recipient, burned_token, check_amount, check_burn, compare_call,
  analyze_xrpl_to_tx_discrepancies,
}

append-nil_parts : {A : Type 0} (xs ys : List A) → xs ++ ys ≡ [] → (xs ≡ []) × (ys ≡ [])
append-nil_parts [] ys h = (refl, h)
append-nil_parts (x ∷ xs) ys h = cc

module _ (R : Ripple) (S : Sdk) (P : RatParser) (cfg : AuditorConfig) where
  -- The recipient of the request is the address that the memos name.
  abbrev pub IsRecipient : Call R S P cfg → Transaction R → Type 0
  IsRecipient call xrpl_tx =
      (a : Address) × (extract_address_from_memo S xrpl_tx.memos cfg.xrpl_memo_suffix ≡ some a)
      × (str_eq call.payload.recipient (S.address_string a) ≡ true)

  -- The amount of the request is the converted amount.
  abbrev pub IsAmount : Call R S P cfg → Transaction R → Str → Type 0
  IsAmount call xrpl_tx multiplier =
      (x : ℤ) × (convert_xrpl_amount_to_tx_amount R S P xrpl_tx.delivery_amount.value
          cfg.tx_decimals multiplier
        ≡ ok x)
      × (str_eq (S.int_string x) (S.int_string call.payload.amount.amount) ≡ true)

  IsRecipient-nil :
      (call : Call R S P cfg) (xrpl_tx : Transaction R)
      → (check_recipient R S P cfg call xrpl_tx ≡ []) ↔ IsRecipient call xrpl_tx
  unfolding check_recipient
  IsRecipient-nil call xrpl_tx = (
    λ h. elim (Option-cases (extract_address_from_memo S xrpl_tx.memos cfg.xrpl_memo_suffix)) [
      | inl n ↦ absurd (no_cons (rw (n, check_recipient) at h))
      | inr (a, e) ↦ elim (Bool-cases (str_eq call.payload.recipient (S.address_string a))) [
        | inl y ↦ (a, e, y)
        | inr n ↦ absurd (no_cons (rw (e, n, check_recipient) at h))
      ]
    ],
    λ k. rw (k.1, k.2, check_recipient) refl,
  )
    where
      no_cons : {d : Discrepancy R} → d ∷ [] ≡ [] → ⊥
      no_cons c = cc

  IsAmount-nil :
      (call : Call R S P cfg) (xrpl_tx : Transaction R) (multiplier : Str)
      → (check_amount R S P cfg call xrpl_tx multiplier ≡ ok []) ↔ IsAmount call xrpl_tx multiplier
  unfolding check_amount
  IsAmount-nil call xrpl_tx multiplier = (
    λ h.
        let (x, e, k) = >>=-eq-ok _ _ h in
        elim (Bool-cases (str_eq (S.int_string x) (S.int_string call.payload.amount.amount))) [
          | inl y ↦ (x, e, y)
          | inr n ↦ absurd (no_cons (rw n at k))
        ],
    λ k. rw (k.1, k.2, check_amount) refl,
  )
    where
      no_cons : {d : Discrepancy R} → ok (d ∷ []) ≡ ok [] → ⊥
      no_cons c = cc

  -- The request names a transaction of the XRPL, which burns a token of the configuration, and has
  -- its recipient and its amount by the multiplier of the token.
  pub record IsClean (xrpl_transactions : Str → Option (Transaction R)) (call : Call R S P cfg)
      : Type 0 where
    pub xrpl_tx : Transaction R
    pub multiplier : Str
    pub is_found : xrpl_transactions call.payload.id ≡ some xrpl_tx
    pub is_recipient : IsRecipient call xrpl_tx
    pub is_burned : burned_token R S P cfg xrpl_tx cfg.xrpl_tokens ≡ some multiplier
    pub is_amount : IsAmount call xrpl_tx multiplier

  no_cons : {d : Discrepancy R} {ds : List (Discrepancy R)} → ok (d ∷ ds) ≡ ok [] → ⊥
  no_cons c = cc

  burn_nil :
      (call : Call R S P cfg) (xrpl_tx : Transaction R)
      → check_burn R S P cfg call xrpl_tx ≡ ok []
      → (multiplier : Str) × (burned_token R S P cfg xrpl_tx cfg.xrpl_tokens ≡ some multiplier)
        × IsAmount call xrpl_tx multiplier
  unfolding check_burn
  burn_nil call xrpl_tx h = elim (Option-cases (burned_token R S P cfg xrpl_tx cfg.xrpl_tokens)) [
    | inl n ↦
        let (ds, e, k) =
          >>=-eq-ok (check_amount R S P cfg call xrpl_tx (codes "1.0"))
            (λ more. ok (
              flag R S P cfg call (some xrpl_tx) DiscrepancyType.not_burning_xrpl_transaction
              ∷ more))
            (rw (n, check_burn) at h) in
        absurd (no_cons k)
    | inr (m, e) ↦ (m, e, (IsAmount-nil call xrpl_tx m).0 (rw (e, check_burn) at h))
  ]

  call_sound :
      (xrpl_transactions : Str → Option (Transaction R)) (call : Call R S P cfg)
      → compare_call R S P cfg xrpl_transactions call ≡ ok []
      → IsClean xrpl_transactions call
  unfolding compare_call
  call_sound xrpl_transactions call h = elim (Option-cases (xrpl_transactions call.payload.id)) [
    | inl n ↦ absurd (no_cons (rw (n, compare_call) at h))
    | inr (t, e) ↦
        let (more, b, k) =
          >>=-eq-ok (check_burn R S P cfg call t)
            (λ more. ok (check_recipient R S P cfg call t ++ more)) (rw (e, compare_call) at h) in
        let (r, m) = append-nil_parts _ more (ok_injective k) in
        let (multiplier, burned, amount) = burn_nil call t (b ∙ ap ok m) in
        record {
          xrpl_tx = t;
          multiplier = multiplier;
          is_found = e;
          is_recipient = (IsRecipient-nil call t).0 r;
          is_burned = burned;
          is_amount = amount;
        }
  ]

  call_complete :
      (xrpl_transactions : Str → Option (Transaction R)) (call : Call R S P cfg)
      → IsClean xrpl_transactions call
      → compare_call R S P cfg xrpl_transactions call ≡ ok []
  unfolding compare_call check_burn
  call_complete xrpl_transactions call c =
      rw
        (
          c.is_found,
          c.is_burned,
          (IsAmount-nil call c.xrpl_tx c.multiplier).1 c.is_amount,
          (IsRecipient-nil call c.xrpl_tx).1 c.is_recipient,
          compare_call,
          check_burn,
        )
        refl

  -- The comparison with the XRPL finds no discrepancy exactly if each request to the contract names
  -- a transaction of the XRPL that burned a token of the configuration, and has the address of its
  -- memos as recipient, and as amount the one that the finder converts its delivered amount to.
  pub audit-IsClean :
      (xrpl_transactions : Str → Option (Transaction R)) (calls : List (Call R S P cfg))
      → (analyze_xrpl_to_tx_discrepancies R S P cfg xrpl_transactions calls ≡ ok [])
        ↔ All (IsClean xrpl_transactions) calls
  unfolding analyze_xrpl_to_tx_discrepancies
  audit-IsClean xrpl_transactions [] = (λ h. tt, λ k. refl)
  audit-IsClean xrpl_transactions (call ∷ calls) = (
    λ h.
        let (found, e, k) = >>=-eq-ok _ _ h in
        let (more, e', k') = >>=-eq-ok _ _ k in
        let (f, m) = append-nil_parts found more (ok_injective k') in
        (
          call_sound xrpl_transactions call (e ∙ ap ok f),
          (audit-IsClean xrpl_transactions calls).0 (e' ∙ ap ok m),
        ),
    λ k.
        rw
          (
            call_complete xrpl_transactions call k.0,
            (audit-IsClean xrpl_transactions calls).1 k.1,
            analyze_xrpl_to_tx_discrepancies,
          )
          refl,
  )
