-- ===== src/Tx/Chain/Page.antt =====
-- The transactions of a page that are kept, and the front of a list up to a date.
use tx_xrpl_token_migrator.Base.{
  All, ℕ, ◌==◌, ◌≡◌, refl, sym, ap, ◌∙◌, inl, inr, Bool, true, false, some, List, [], ◌∷◌, ◌++◌,
  append_assoc, append-nil, filter, if◌then◌else◌, Bool-cases,
}
use tx_xrpl_token_migrator.Base.Int.{ltb_ℤ}
use tx_xrpl_token_migrator.Base.Str.{Str}
use tx_xrpl_token_migrator.Base.Go.{ok}
use tx_xrpl_token_migrator.Xrpl.Model.{Time}
use tx_xrpl_token_migrator.Tx.Chain.{ChainTx, Search, scan_page}

-- The front of a list up to the first transaction before the start date.
abbrev pub since : (ChainTx → Time) → Time → List ChainTx → List ChainTx
since time start_date [] = []
since time start_date (tx ∷ txs) =
    let rest = since time start_date txs in if ltb_ℤ (time tx) start_date then [] else tx ∷ rest

abbrev pub is_success : ChainTx → Bool
is_success tx = tx.code == 0

-- Whether the start date is reached.
abbrev pub reaches : (ChainTx → Time) → Time → List ChainTx → Bool
reaches time start_date [] = false
reaches time start_date (tx ∷ txs) =
    let rest = reaches time start_date txs in if ltb_ℤ (time tx) start_date then true else rest

module _ (Q : Search) (event : Str) (events_page_size : ℕ) (start_date : Time)
    (time : ChainTx → Time) where
  -- The timestamp of a transaction is read as its time.
  abbrev pub Reads : ChainTx → Type 0
  Reads tx = Q.parse_timestamp tx.timestamp ≡ some (time tx)

  pub scan_page-since :
      (page txs : List ChainTx)
      → All Reads page
      → scan_page Q event events_page_size start_date page txs
        ≡ ok (txs ++ filter is_success (since time start_date page), reaches time start_date page)
  unfolding scan_page
  scan_page-since [] txs all = ap (λ r. ok (r, false)) (sym (append-nil txs))
  scan_page-since (tx ∷ page) txs (reads, all) = elim (Bool-cases (ltb_ℤ (time tx) start_date)) [
    | inl y ↦ rw (reads, y, scan_page) (ap (λ r. ok (r, true)) (sym (append-nil txs)))
    | inr n ↦ elim (Bool-cases (tx.code == 0)) [
      | inl z ↦
          rw (reads, n, z, scan_page)
            (scan_page-since page (txs ++ tx ∷ []) all
              ∙ ap (λ r. ok (r, reaches time start_date page))
                  (append_assoc txs (tx ∷ []) (filter is_success (since time start_date page))))
      | inr z ↦ rw (reads, n, z, scan_page) (scan_page-since page txs all)
    ]
  ]

module _ (start_date : Time) (time : ChainTx → Time) where
  since-append :
      (xs ys : List ChainTx)
      → since time start_date (xs ++ ys) ≡ (
          if reaches time start_date xs
          then since time start_date xs
          else xs ++ since time start_date ys)
  since-append [] ys = refl
  since-append (x ∷ xs) ys = elim (Bool-cases (ltb_ℤ (time x) start_date)) [
    | inl y ↦ rw y refl
    | inr n ↦ elim (Bool-cases (reaches time start_date xs)) [
      | inl z ↦
          rw (n, z)
            (ap (λ r. x ∷ r)
              (since-append xs ys
                ∙ ap (λ b. if b then since time start_date xs else xs ++ since time start_date ys)
                    z))
      | inr z ↦
          rw (n, z)
            (ap (λ r. x ∷ r)
              (since-append xs ys
                ∙ ap (λ b. if b then since time start_date xs else xs ++ since time start_date ys)
                    z))
    ]
  ]

  pub since-stops :
      (xs ys : List ChainTx)
      → reaches time start_date xs ≡ true
      → since time start_date (xs ++ ys) ≡ since time start_date xs
  since-stops xs ys h =
      since-append xs ys
      ∙ ap (λ b. if b then since time start_date xs else xs ++ since time start_date ys) h

  pub since-goes :
      (xs ys : List ChainTx)
      → reaches time start_date xs ≡ false
      → since time start_date (xs ++ ys) ≡ xs ++ since time start_date ys
  since-goes xs ys h =
      since-append xs ys
      ∙ ap (λ b. if b then since time start_date xs else xs ++ since time start_date ys) h

  pub since-whole :
      (xs : List ChainTx) → reaches time start_date xs ≡ false → since time start_date xs ≡ xs
  since-whole xs h =
      ap (since time start_date) (sym (append-nil xs)) ∙ since-goes xs [] h ∙ append-nil xs
