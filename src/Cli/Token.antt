-- ===== src/Cli/Token.antt =====
-- The tokens of `BuildAddXRPLTokensTransactionCmd` of relayer/cmd/main.go, with `strings.Split` and
-- `strconv.ParseUint` of the standard library.
pub mod Split
pub mod Digits
pub mod Exact
use tx_xrpl_token_migrator.Base.{
  ℕ, ◌+◌, ◌-◌, ◌*◌, ◌^◌, ◌==◌, ◌&&◌, Bool, true, false, List, [], ◌∷◌, ltb, leb, if◌then◌else◌,
}
use tx_xrpl_token_migrator.Base.Str.{Str, codes}
use tx_xrpl_token_migrator.Base.Go.{Go, ok, err, ◌>>=◌, new_error}
use tx_xrpl_token_migrator.Xrpl.Rpc.Call.{wrap_err}
use tx_xrpl_token_migrator.Tx.Contract.Types.{XrplToken}

unfoldable pub push_front : ℕ → List Str → List Str
push_front x [] = (x ∷ []) ∷ []
push_front x (part ∷ parts) = (x ∷ part) ∷ parts

-- `strings.Split` at a byte.
unfoldable pub split : ℕ → Str → List Str
unfolding push_front
split c [] = [] ∷ []
split c (x ∷ s) = if x == c then [] ∷ split c s else push_front x (split c s)

-- The loop of `strconv.ParseUint` for base 10 and 64 bits.
unfoldable pub parse_digits : ℕ → Str → Go ℕ
parse_digits n [] = ok n
parse_digits n (x ∷ s) =
    if leb 48 x && leb x 57
    then if ltb (n * 10 + (x - 48)) (2 ^ 64)
      then parse_digits (n * 10 + (x - 48)) s
      else err (new_error (codes "value out of range"))
    else err (new_error (codes "invalid syntax"))

-- `strconv.ParseUint(s, 10, 64)`
unfoldable pub parse_uint : Str → Go ℕ
unfolding parse_digits
parse_uint [] = err (new_error (codes "invalid syntax"))
parse_uint (x ∷ s) = parse_digits 0 (x ∷ s)

-- The token of the parts of a value.
unfoldable pub token_of_parts : List Str → Go XrplToken
unfolding parse_uint wrap_err
token_of_parts (issuer ∷ currency ∷ date ∷ multiplier ∷ []) =
    wrap_err (codes "failed to parse activation_unix_timestamp") (parse_uint date) >>= λ n.
    ok (record {
      currency = currency;
      issuer = issuer;
      activation_date = n;
      multiplier = multiplier;
    })
token_of_parts _ = err (new_error (codes "invalid xrpl-token value"))

-- The body of the loop over the flag's values.
unfoldable pub parse_token : Str → Go XrplToken
unfolding split token_of_parts
parse_token token_str = token_of_parts (split 47 token_str)

-- The loop.
unfoldable pub parse_tokens : List Str → Go (List XrplToken)
unfolding parse_token
parse_tokens [] = ok []
parse_tokens (s ∷ strs) =
    parse_token s >>= λ token. parse_tokens strs >>= λ tokens. ok (token ∷ tokens)
