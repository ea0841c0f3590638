-- ===== src/Finder/Memo/First.antt =====
-- The address found is that of the first memo which is an address text and the suffix.
use mathlib.Core.Option.{none-ne-some}
use tx_xrpl_token_migrator.Base.{
  ◌≡◌, refl, sym, ap, ◌∙◌, ◌↔◌, ◌⊎◌, inl, inr, false, none, some, List, [], ◌∷◌, ◌++◌, All,
  Bool-cases, Option-cases,
}
use tx_xrpl_token_migrator.Base.Str.{Str, has_suffix, trim_suffix}
use tx_xrpl_token_migrator.Base.Suffix.{has_suffix-append, trim_suffix-append, trim_suffix_split}
use tx_xrpl_token_migrator.Sdk.{Sdk, Address}
use tx_xrpl_token_migrator.Finder.Memo.{extract_address_from_memo}

-- No text before the suffix is an address.
abbrev pub Refused : Sdk → Str → Str → Type 0
Refused S suffix memo = (t : Str) → memo ≡ t ++ suffix → S.acc_address_from_bech32 t ≡ none

-- The first memo that is not refused names the address.
abbrev pub FirstAddress : Sdk → Str → List Str → Address → Type 0
FirstAddress S suffix memos a =
    (before : List Str) × (text : Str) × (after : List Str) × (memos
      ≡ before ++ (text ++ suffix) ∷ after)
    × (S.acc_address_from_bech32 text ≡ some a)
    × All (Refused S suffix) before

module _ (S : Sdk) (suffix : Str) where
  trim_unique : (memo t : Str) → memo ≡ t ++ suffix → trim_suffix memo suffix ≡ t
  trim_unique memo t e = rw e (trim_suffix-append t suffix)

  abbrev Taken : Str → Type 0
  Taken memo =
      (text : Str) × (a : Address) × (memo ≡ text ++ suffix)
      × (S.acc_address_from_bech32 text ≡ some a)
      × ((ms : List Str) → extract_address_from_memo S (memo ∷ ms) suffix ≡ some a)

  abbrev Passed : Str → Type 0
  Passed memo =
      Refused S suffix memo
      × ((ms : List Str)
          → extract_address_from_memo S (memo ∷ ms) suffix ≡ extract_address_from_memo S ms suffix)

  memo_cases : (memo : Str) → Taken memo ⊎ Passed memo
  unfolding extract_address_from_memo
  memo_cases memo = elim (Bool-cases (has_suffix memo suffix)) [
    | inl fits ↦ elim (Option-cases (S.acc_address_from_bech32 (trim_suffix memo suffix))) [
      | inl e ↦ inr (λ t m. rw (trim_unique memo t m) at e, λ ms. rw (fits, e))
      | inr (a, e) ↦
          inl
            (trim_suffix memo suffix, a, trim_suffix_split memo suffix fits, e, λ ms. rw (fits, e))
    ]
    | inr fails ↦ inr (λ t m. absurd (clash t (rw m at fails)), λ ms. rw fails)
  ]
    where
      clash : (t : Str) → has_suffix (t ++ suffix) suffix ≡ false → ⊥
      clash t e = cc (has_suffix-append t suffix)

  first_of_found :
      (memos : List Str) (a : Address)
      → extract_address_from_memo S memos suffix ≡ some a
      → FirstAddress S suffix memos a
  first_of_found [] a h = absurd (none-ne-some a (unfold extract_address_from_memo in h))
  first_of_found (memo ∷ ms) a h = elim (memo_cases memo) [
    | inl (text, b, split, parsed, found) ↦
        ([], text, ms, ap (λ t. t ∷ ms) split, parsed ∙ sym (found ms) ∙ h, tt)
    | inr (refused, rest) ↦ later refused (first_of_found ms a (sym (rest ms) ∙ h))
  ]
    where
      later :
          Refused S suffix memo → FirstAddress S suffix ms a → FirstAddress S suffix (memo ∷ ms) a
      later r (before, text, after, e, p, all) =
          (memo ∷ before, text, after, ap (λ t. memo ∷ t) e, p, (r, all))

  found_at :
      (before : List Str) (text : Str) (after : List Str) (a : Address)
      → S.acc_address_from_bech32 text ≡ some a
      → All (Refused S suffix) before
      → extract_address_from_memo S (before ++ (text ++ suffix) ∷ after) suffix ≡ some a
  found_at [] text after a p all = elim (memo_cases (text ++ suffix)) [
    | inl (text', b, split, parsed, found) ↦ found after ∙ sym parsed ∙ rw (same text' split) p
    | inr (refused, rest) ↦ absurd (none-ne-some a (sym (refused text refl) ∙ p))
  ]
    where
      same : (text' : Str) → text ++ suffix ≡ text' ++ suffix → text' ≡ text
      same t e = sym (trim_unique _ t e) ∙ trim_suffix-append text suffix
  found_at (memo ∷ before) text after a p (r, all) = elim (memo_cases memo) [
    | inl (text', b, split, parsed, found) ↦ absurd (none-ne-some b (sym (r text' split) ∙ parsed))
    | inr (refused, rest) ↦ rest _ ∙ found_at before text after a p all
  ]

  -- An address is found exactly when it is that of the first memo which consists of an address
  -- text and the suffix.
  pub extract_first :
      (memos : List Str) (a : Address)
      → (extract_address_from_memo S memos suffix ≡ some a) ↔ FirstAddress S suffix memos a
  extract_first memos a = (
    first_of_found memos a,
    λ (before, text, after, e, p, all). rw e (found_at before text after a p all),
  )
