-- ===== src/Finder/Memo.antt =====
-- `ExtractAddressFromMemo` of relayer/finder/finder.go: the TX address that a memo names.
pub mod First
use tx_xrpl_token_migrator.Base.{Option, none, some, List, [], ◌∷◌, if◌then◌else◌}
use tx_xrpl_token_migrator.Base.Str.{Str, has_suffix, trim_suffix}
use tx_xrpl_token_migrator.Sdk.{Sdk, Address}

module _ (S : Sdk) where
  unfoldable pub extract_address_from_memo : List Str → Str → Option Address
  extract_address_from_memo [] suffix = none
  extract_address_from_memo (memo ∷ memos) suffix =
      let rest = extract_address_from_memo memos suffix in
      if has_suffix memo suffix
      then elim (S.acc_address_from_bech32 (trim_suffix memo suffix)) [
        | none ↦ rest
        | some acc_address ↦ some acc_address
      ]
      else rest
