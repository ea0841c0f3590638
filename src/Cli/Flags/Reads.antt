-- ===== src/Cli/Flags/Reads.antt =====
-- What the readings of a flag accept.
use tx_xrpl_token_migrator.Base.{◌≡◌, ◌↔◌, Option, none, some, List}
use tx_xrpl_token_migrator.Base.Int.{ℤ}
use tx_xrpl_token_migrator.Base.Str.{Str}
use tx_xrpl_token_migrator.Base.Go.{ok}
use tx_xrpl_token_migrator.Cli.Flags.{
  FlagName, FlagValue, Flags, get_string, get_string_slice, get_int,
}

module _ (flags : Flags) (name : FlagName) where
  pub string_iff :
      (flag : Option FlagValue) (v : Str)
      → flags name ≡ flag
      → (get_string flags name ≡ ok v) ↔ (flag ≡ some (FlagValue.text v))
  unfolding get_string
  string_iff none v e = rw (e, get_string) (λ h. cc, λ h. cc)
  string_iff (some (FlagValue.text s)) v e = rw (e, get_string) (λ h. cc, λ h. cc)
  string_iff (some (FlagValue.int64 s)) v e = rw (e, get_string) (λ h. cc, λ h. cc)
  string_iff (some (FlagValue.int s)) v e = rw (e, get_string) (λ h. cc, λ h. cc)
  string_iff (some (FlagValue.texts s)) v e = rw (e, get_string) (λ h. cc, λ h. cc)

  pub int_iff :
      (flag : Option FlagValue) (v : ℤ)
      → flags name ≡ flag
      → (get_int flags name ≡ ok v) ↔ (flag ≡ some (FlagValue.int v))
  unfolding get_int
  int_iff none v e = rw (e, get_int) (λ h. cc, λ h. cc)
  int_iff (some (FlagValue.text s)) v e = rw (e, get_int) (λ h. cc, λ h. cc)
  int_iff (some (FlagValue.int64 s)) v e = rw (e, get_int) (λ h. cc, λ h. cc)
  int_iff (some (FlagValue.int s)) v e = rw (e, get_int) (λ h. cc, λ h. cc)
  int_iff (some (FlagValue.texts s)) v e = rw (e, get_int) (λ h. cc, λ h. cc)

  pub slice_iff :
      (flag : Option FlagValue) (v : List Str)
      → flags name ≡ flag
      → (get_string_slice flags name ≡ ok v) ↔ (flag ≡ some (FlagValue.texts v))
  unfolding get_string_slice
  slice_iff none v e = rw (e, get_string_slice) (λ h. cc, λ h. cc)
  slice_iff (some (FlagValue.text s)) v e = rw (e, get_string_slice) (λ h. cc, λ h. cc)
  slice_iff (some (FlagValue.int64 s)) v e = rw (e, get_string_slice) (λ h. cc, λ h. cc)
  slice_iff (some (FlagValue.int s)) v e = rw (e, get_string_slice) (λ h. cc, λ h. cc)
  slice_iff (some (FlagValue.texts s)) v e = rw (e, get_string_slice) (λ h. cc, λ h. cc)
