-- ===== src/Tx/Contract/Paging.antt =====
-- `paginate_transactions` of contract/src/contract.rs: the answer of the contract to a query of its
-- pending or sent transactions. They are given in the order of the contract's map.
use tx_xrpl_token_migrator.Base.{ℕ, Option, none, some, List, leb, take, drop, if◌then◌else◌}

-- `DEFAULT_PAGE_LIMIT`, and `MAX_PAGE_LIMIT`, which is the same.
abbrev pub default_page_limit : ℕ
default_page_limit = 500

abbrev pub max_page_limit : ℕ
max_page_limit = default_page_limit

abbrev unwrap_or : ℕ → Option ℕ → ℕ
unwrap_or n none = n
unwrap_or n (some m) = m

abbrev min : ℕ → ℕ → ℕ
min a b = if leb a b then a else b

-- An entry of the store that cannot be read, which the contract leaves out, is not modelled.
abbrev pub paginate_transactions : {A : Type 0} → List A → Option ℕ → Option ℕ → List A
paginate_transactions transactions offset limit =
    take (min (unwrap_or default_page_limit limit) max_page_limit)
      (drop (unwrap_or 0 offset) transactions)
