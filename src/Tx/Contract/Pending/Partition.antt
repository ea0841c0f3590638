-- ===== src/Tx/Contract/Pending/Partition.antt =====
-- `GetAllPendingTransactions` finds every pending transaction once, and tells the unapproved from
-- the approved ones.
use tx_xrpl_token_migrator.Base.{
  nil_of_length, drop-drop, ℕ, zero, suc, ◌+◌, ◌-◌, ◌%◌, ◌^◌, ◌≤◌, ◌<◌, ◌==◌, ◌≡◌, refl, sym, ap,
  ◌∙◌, inl, inr, false, not, some, List, [], ◌∷◌, ◌++◌, append_assoc, append-nil, arith, ltb→lt,
  ltb, leb, length, take, drop, length-drop, take-append-drop, filter, if◌then◌else◌, Bool-cases,
}
use tx_xrpl_token_migrator.Base.Go.{ok}
use tx_xrpl_token_migrator.Sdk.{Sdk}
use tx_xrpl_token_migrator.Tx.Contract.Types.{ContractClientConfig, Config, PendingTransaction}
use tx_xrpl_token_migrator.Tx.Contract.Cosmos.{Chain}
use tx_xrpl_token_migrator.Tx.Contract.Paging.{max_page_limit, paginate_transactions}
use tx_xrpl_token_migrator.Tx.Contract.Query.{get_contract_config, get_pending_txs}
use tx_xrpl_token_migrator.Tx.Contract.Pending.{
  Split, is_unapproved, split_page, all_pages, get_all_pending_transactions,
}

-- The two parts of a list, each in its order.
abbrev pub split_of : ℕ → List PendingTransaction → Split
split_of threshold txs = record {
  unapproved = filter (is_unapproved threshold) txs;
  approved = filter (λ tx. not (is_unapproved threshold tx)) txs;
}

abbrev and_split : Split → Split → Split
and_split s t = record {
  unapproved = s.unapproved ++ t.unapproved;
  approved = s.approved ++ t.approved;
}

split_page-of :
    (threshold : ℕ) (txs : List PendingTransaction) (s : Split)
    → split_page threshold txs s ≡ and_split s (split_of threshold txs)
unfolding split_page
split_page-of threshold [] s = rw (append-nil s.unapproved, append-nil s.approved) refl
split_page-of threshold (tx ∷ txs) s = elim (Bool-cases (is_unapproved threshold tx)) [
  | inl y ↦
      rw (y, split_page)
        (split_page-of threshold txs (record s { unapproved = s.unapproved ++ tx ∷ [] })
          ∙ ap
              (λ u. record {
                unapproved = u;
                approved = s.approved ++ filter (λ tx. not (is_unapproved threshold tx)) txs;
              })
              (append_assoc s.unapproved (tx ∷ []) (filter (is_unapproved threshold) txs)))
  | inr n ↦
      rw (n, split_page)
        (split_page-of threshold txs (record s { approved = s.approved ++ tx ∷ [] })
          ∙ ap
              (λ u. record {
                unapproved = s.unapproved ++ filter (is_unapproved threshold) txs;
                approved = u;
              })
              (append_assoc s.approved (tx ∷ [])
                (filter (λ tx. not (is_unapproved threshold tx)) txs)))
]

split_page-append :
    (threshold : ℕ) (xs ys : List PendingTransaction) (s : Split)
    → split_page threshold ys (split_page threshold xs s) ≡ split_page threshold (xs ++ ys) s
unfolding split_page
split_page-append threshold [] ys s = refl
split_page-append threshold (x ∷ xs) ys s = split_page-append threshold xs ys _

take-filled :
    (n : ℕ) (xs : List PendingTransaction)
    → 0 < n
    → 0 < length xs
    → (length (take n xs) == 0) ≡ false
take-filled zero xs h k = absurd (omega arith)
take-filled (suc n) [] h k = absurd (omega arith)
take-filled (suc n) (x ∷ xs) h k = ground arith

take-nil : {A : Type 0} (n : ℕ) → take {A = A} n [] ≡ []
take-nil zero = refl
take-nil (suc n) = refl

module _ (S : Sdk) (C : Chain) (cfg : ContractClientConfig)
    (pending : List PendingTransaction) where
  abbrev page_size : ℕ
  page_size = cfg.contract_page_size

  -- The contract answers a query with the page of its pending transactions.
  abbrev pub Paged : Type 0
  Paged =
      (offset limit : ℕ)
      → get_pending_txs S C cfg (some offset) (some limit)
        ≡ ok (paginate_transactions pending (some offset) (some limit))

  -- The request at an offset inside of the list is for at least a page, and nothing wraps.
  abbrev Fits : ℕ → ℕ → Type 0
  Fits offset limit =
      offset < length pending → (page_size ≤ limit) × (limit + (length pending - offset) < 2 ^ 32)

  capped :
      (limit : ℕ)
      → cfg.contract_page_size ≡ max_page_limit
      → page_size ≤ limit
      → (if leb limit max_page_limit then limit else max_page_limit) ≡ page_size
  capped limit sized h = ground arith

  page_inside :
      (offset limit : ℕ)
      → Paged
      → cfg.contract_page_size ≡ max_page_limit
      → page_size ≤ limit
      → get_pending_txs S C cfg (some offset) (some limit)
        ≡ ok (take page_size (drop offset pending))
  page_inside offset limit paged sized h =
      paged offset limit ∙ ap (λ k. ok (take k (drop offset pending))) (capped limit sized h)

  page_outside :
      (offset limit : ℕ)
      → Paged
      → length pending ≤ offset
      → get_pending_txs S C cfg (some offset) (some limit) ≡ ok []
  page_outside offset limit paged h =
      paged offset limit
      ∙ ap (λ xs. ok (take (if leb limit max_page_limit then limit else max_page_limit) xs)) nothing
      ∙ ap ok (take-nil (if leb limit max_page_limit then limit else max_page_limit))
    where
      nothing : drop offset pending ≡ []
      nothing = nil_of_length (drop offset pending) (omega (arith, length-drop offset pending))

  Fits-next :
      (offset limit : ℕ)
      → 0 < page_size
      → offset < length pending
      → Fits offset limit
      → Fits (offset + page_size) ((limit + page_size) % 2 ^ 32)
  Fits-next offset limit one inside fits h = next (fits inside) wrap
    where
      wrap : (limit + page_size) % 2 ^ 32 ≡ limit + page_size
      wrap = omega (arith, fits inside)

      next :
          (page_size ≤ limit) × (limit + (length pending - offset) < 2 ^ 32)
          → (limit + page_size) % 2 ^ 32 ≡ limit + page_size
          → (page_size ≤ (limit + page_size) % 2 ^ 32)
            × ((limit + page_size) % 2 ^ 32 + (length pending - (offset + page_size)) < 2 ^ 32)
      next f w = rw w (omega arith, omega arith)

  rejoin :
      (offset : ℕ)
      → take page_size (drop offset pending) ++ drop (offset + page_size) pending
        ≡ drop offset pending
  rejoin offset =
      ap (λ t. take page_size (drop offset pending) ++ t) (sym (drop-drop offset page_size pending))
      ∙ take-append-drop page_size (drop offset pending)

  on_page :
      (fuel threshold offset limit : ℕ) (s : Split)
      → Paged
      → cfg.contract_page_size ≡ max_page_limit
      → page_size + length pending < 2 ^ 32
      → page_size ≤ limit
      → offset < length pending
      → ((s' : Split)
          → all_pages S C cfg fuel threshold (offset + page_size) ((limit + page_size) % 2 ^ 32) s'
            ≡ some (ok (split_page threshold (drop (offset + page_size) pending) s')))
      → all_pages S C cfg (suc fuel) threshold offset limit s
        ≡ some (ok (split_page threshold (drop offset pending) s))
  unfolding all_pages
  on_page fuel threshold offset limit s paged sized small covers inside rest =
      rw (page_inside offset limit paged sized covers, filled, wrap, all_pages)
        (rest (split_page threshold (take page_size (drop offset pending)) s)
          ∙ ap (λ r. some (ok r))
              (split_page-append threshold (take page_size (drop offset pending))
                  (drop (offset + page_size) pending) s
                ∙ ap (λ xs. split_page threshold xs s) (rejoin offset)))
    where
      filled : (length (take page_size (drop offset pending)) == 0) ≡ false
      filled =
          take-filled page_size (drop offset pending) (omega arith)
            (omega (arith, length-drop offset pending))

      wrap : (offset + page_size) % 2 ^ 64 ≡ offset + page_size
      wrap = omega arith

  all_pages-ok :
      (fuel threshold offset limit : ℕ) (s : Split)
      → Paged
      → cfg.contract_page_size ≡ max_page_limit
      → page_size + length pending < 2 ^ 32
      → Fits offset limit
      → length pending - offset < fuel
      → all_pages S C cfg fuel threshold offset limit s
        ≡ some (ok (split_page threshold (drop offset pending) s))
  unfolding all_pages split_page
  all_pages-ok zero threshold offset limit s paged sized small fits enough = absurd (omega arith)
  all_pages-ok (suc fuel) threshold offset limit s paged sized small fits enough =
      elim (Bool-cases (ltb offset (length pending))) [
        | inl y ↦
            let inside : offset < length pending = ltb→lt _ _ y in
            on_page fuel threshold offset limit s paged sized small (fits inside).0 inside (λ s'.
              all_pages-ok fuel threshold (offset + page_size) ((limit + page_size) % 2 ^ 32) s'
                paged sized small (Fits-next offset limit (omega arith) inside fits) (omega arith))
        | inr n ↦
            let outside : length pending ≤ offset = ground arith in
            let nothing : drop offset pending ≡ [] =
              nil_of_length (drop offset pending) (omega (arith, length-drop offset pending)) in
            rw (page_outside offset limit paged outside, nothing, all_pages, split_page) refl
      ]

  -- Let the contract answer with its configuration, and with the pages of its pending transactions,
  -- which stay the same meanwhile, 500 at most in each; let the client's page size be that 500, as
  -- the default configuration has it, let the transactions with one more page be fewer than 2^32,
  -- and the rounds more than the transactions. Then the two lists hold each pending transaction
  -- once and in order: the unapproved ones, which have fewer evidence providers than the threshold
  -- of the contract's configuration, and the others.
  pub pending_partition :
      (fuel : ℕ) (contract_cfg : Config)
      → get_contract_config S C cfg ≡ ok contract_cfg
      → Paged
      → cfg.contract_page_size ≡ max_page_limit
      → cfg.contract_page_size + length pending < 2 ^ 32
      → length pending < fuel
      → get_all_pending_transactions S C cfg fuel
        ≡ some (ok (split_of contract_cfg.threshold pending))
  unfolding get_all_pending_transactions
  pending_partition fuel contract_cfg e paged sized small enough =
      rw (e, get_all_pending_transactions)
        (all_pages-ok fuel contract_cfg.threshold 0 cfg.contract_page_size _ paged sized small
            (λ h. (omega arith, omega arith)) (omega arith)
          ∙ ap (λ r. some (ok r)) (split_page-of contract_cfg.threshold pending _))
