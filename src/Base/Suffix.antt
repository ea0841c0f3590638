-- ===== src/Base/Suffix.antt =====
-- What `strings.HasSuffix` and `strings.TrimSuffix` do: a suffix is cut off, and only a suffix.
use tx_xrpl_token_migrator.Base.{
  ◌-◌, ◌≡◌, sym, ap, ◌∙◌, true, ◌++◌, arith, length, take, drop, length-append, take-append-drop,
  take-length_append, drop-length_append, le→leb, ◌≤◌,
}
use tx_xrpl_token_migrator.Base.Str.{Str, str_eq_iff, str_eq_refl, has_suffix, trim_suffix}

rest_length : (p suffix : Str) → length (p ++ suffix) - length suffix ≡ length p
rest_length p suffix = omega (arith, length-append p suffix)

suffix_fits : (p suffix : Str) → length suffix ≤ length (p ++ suffix)
suffix_fits p suffix = omega (arith, length-append p suffix)

pub has_suffix-append : (p suffix : Str) → has_suffix (p ++ suffix) suffix ≡ true
unfolding has_suffix
has_suffix-append p suffix = rw (
  rest_length p suffix,
  drop-length_append p suffix,
  str_eq_refl suffix,
  le→leb _ _ (suffix_fits p suffix),
)

pub trim_suffix-append : (p suffix : Str) → trim_suffix (p ++ suffix) suffix ≡ p
unfolding trim_suffix
trim_suffix-append p suffix =
    rw (has_suffix-append p suffix, rest_length p suffix) (take-length_append p suffix)

pub trim_suffix_split :
    (s suffix : Str) → has_suffix s suffix ≡ true → s ≡ trim_suffix s suffix ++ suffix
unfolding trim_suffix
trim_suffix_split s suffix h = rw h (
    sym (
      ap (λ t. take (length s - length suffix) s ++ t) (sym tail)
      ∙ take-append-drop (length s - length suffix) s))
  where
    tail : drop (length s - length suffix) s ≡ suffix
    tail = (str_eq_iff _ _).0 (unfold has_suffix in ground arith)
