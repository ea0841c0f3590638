-- ===== src/Tx/Contract/Pending/Ids.antt =====
-- The evidence ids that `BuildExecutePendingMessages` keeps as the keys of a map.
use tx_xrpl_token_migrator.Base.{
  ◌≡◌, refl, sym, ap, ◌∙◌, inl, inr, ◌↔◌, Bool, true, false, not, ◌||◌, ◌&&◌, List, [], ◌∷◌, map,
  filter, All, arith, Bool-cases,
}
use tx_xrpl_token_migrator.Base.Str.{Str, str_eq, str_eq_iff}
use tx_xrpl_token_migrator.Tx.Contract.Types.{PendingTransaction}
use tx_xrpl_token_migrator.Tx.Contract.Pending.{has_id, delete}

module _ {ℓ} {A : Type ℓ} where
  pub filter-cong :
      (p q : A → Bool) (xs : List A) → All (λ x. p x ≡ q x) xs → filter p xs ≡ filter q xs
  filter-cong p q [] h = refl
  filter-cong p q (x ∷ xs) h = rw (h.0, filter-cong p q xs h.1) refl

  filter-filter :
      (p q : A → Bool) (xs : List A) → filter p (filter q xs) ≡ filter (λ x. q x && p x) xs
  filter-filter p q [] = refl
  filter-filter p q (x ∷ xs) = elim (Bool-cases (q x)) [
    | inl y ↦ rw (y, filter-filter p q xs) refl
    | inr n ↦ rw (n, filter-filter p q xs) refl
  ]

  pub filter-nil_iff : (p : A → Bool) (xs : List A) → (filter p xs ≡ []) ↔ All (λ x. p x ≡ false) xs
  filter-nil_iff p [] = (λ _. tt, λ _. refl)
  filter-nil_iff p (x ∷ xs) = elim (Bool-cases (p x)) [
    | inl y ↦ (λ h. absurd (cons_nil (rw y at h)), λ h. absurd (true_false (sym y ∙ h.0)))
    | inr n ↦
        (λ h. (n, (filter-nil_iff p xs).0 (rw n at h)), λ h. rw n ((filter-nil_iff p xs).1 h.1))
  ]
    where
      cons_nil : x ∷ filter p xs ≡ [] → ⊥
      cons_nil c = cc

      true_false : true ≡ false → ⊥
      true_false c = cc

pub str_eq_sym : (s t : Str) → str_eq s t ≡ str_eq t s
unfolding str_eq
str_eq_sym [] [] = refl
str_eq_sym [] (b ∷ t) = refl
str_eq_sym (a ∷ s) [] = refl
str_eq_sym (a ∷ s) (b ∷ t) = ground (arith, str_eq_sym s t)

pub has_id-delete :
    (a b : Str) (ids : List Str) → str_eq a b ≡ false → has_id b (delete a ids) ≡ has_id b ids
unfolding has_id delete
has_id-delete a b [] h = refl
has_id-delete a b (other ∷ ids) h = elim (Bool-cases (str_eq a other)) [
  | inl y ↦
      let same : a ≡ other = (str_eq_iff a other).0 y in
      let not_b : str_eq b other ≡ false = ap (str_eq b) (sym same) ∙ str_eq_sym b a ∙ h in
      rw (y, not_b) (has_id-delete a b ids h)
  | inr n ↦ rw n (ap (λ r. str_eq b other || r) (has_id-delete a b ids h))
]

pub delete-absent : (a : Str) (ids : List Str) → has_id a ids ≡ false → delete a ids ≡ ids
unfolding has_id delete
delete-absent a [] h = refl
delete-absent a (other ∷ ids) h = elim (Bool-cases (str_eq a other)) [
  | inl y ↦ absurd (true_false (rw y at h))
  | inr n ↦ rw n (ap (λ r. other ∷ r) (delete-absent a ids (rw n at h)))
]
  where
    true_false : true ≡ false → ⊥
    true_false c = cc

abbrev pub id_of : PendingTransaction → Str
id_of tx = tx.evidence_id

-- What is left of the ids after the loop.
abbrev pub delete_all : List PendingTransaction → List Str → List Str
delete_all [] ids = ids
delete_all (tx ∷ txs) ids = delete_all txs (delete tx.evidence_id ids)

delete_all-filter :
    (txs : List PendingTransaction) (ids : List Str)
    → delete_all txs ids ≡ filter (λ id. not (has_id id (map id_of txs))) ids
unfolding has_id delete
delete_all-filter [] ids = keep ids
  where
    keep : (xs : List Str) → xs ≡ filter (λ id. true) xs
    keep [] = refl
    keep (x ∷ xs) = ap (λ r. x ∷ r) (keep xs)
delete_all-filter (tx ∷ txs) ids =
    delete_all-filter txs (delete tx.evidence_id ids)
    ∙ filter-filter _ _ ids
    ∙ filter-cong _ _ ids (both ids)
  where
    test :
        (id : Str)
        → (not (str_eq tx.evidence_id id) && not (has_id id (map id_of txs)))
          ≡ not (str_eq id tx.evidence_id || has_id id (map id_of txs))
    test id = rw (str_eq_sym tx.evidence_id id) (ground arith)

    both :
        (xs : List Str)
        → All
            (λ id.
              (not (str_eq tx.evidence_id id) && not (has_id id (map id_of txs)))
              ≡ not (str_eq id tx.evidence_id || has_id id (map id_of txs)))
            xs
    both [] = tt
    both (x ∷ xs) = (test x, both xs)

-- No id is left exactly if each is the id of a transaction.
pub delete_all-nil_iff :
    (txs : List PendingTransaction) (ids : List Str)
    → (delete_all txs ids ≡ []) ↔ All (λ id. has_id id (map id_of txs) ≡ true) ids
delete_all-nil_iff txs ids = (
  λ h. found ids ((filter-nil_iff _ ids).0 (sym (delete_all-filter txs ids) ∙ h)),
  λ h. delete_all-filter txs ids ∙ (filter-nil_iff _ ids).1 (missing ids h),
)
  where
    found :
        (xs : List Str)
        → All (λ id. not (has_id id (map id_of txs)) ≡ false) xs
        → All (λ id. has_id id (map id_of txs) ≡ true) xs
    found [] h = tt
    found (x ∷ xs) h = (ground (arith, h.0), found xs h.1)

    missing :
        (xs : List Str)
        → All (λ id. has_id id (map id_of txs) ≡ true) xs
        → All (λ id. not (has_id id (map id_of txs)) ≡ false) xs
    missing [] h = tt
    missing (x ∷ xs) h = (ground (arith, h.0), missing xs h.1)
