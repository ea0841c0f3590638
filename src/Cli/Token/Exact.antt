-- ===== src/Cli/Token/Exact.antt =====
-- Which values of the flag are tokens.
use tx_xrpl_token_migrator.Base.{ℕ, ◌≡◌, refl, ap, subst, ◌∙◌, ◌↔◌, List, [], ◌∷◌, ◌++◌, All, arith}
use tx_xrpl_token_migrator.Base.Str.{Str, codes}
use tx_xrpl_token_migrator.Base.Go.{Go, ok, ◌>>=◌, >>=-eq-ok, ok_injective}
use tx_xrpl_token_migrator.Xrpl.Rpc.Call.{wrap_err, wrap_err-eq-ok}
use tx_xrpl_token_migrator.Tx.Contract.Types.{XrplToken}
use tx_xrpl_token_migrator.Cli.Token.{split, parse_uint, token_of_parts, parse_token, parse_tokens}
use tx_xrpl_token_migrator.Cli.Token.Split.{IsPlain, split_iff}
use tx_xrpl_token_migrator.Cli.Token.Digits.{IsDigit, IsDecimal, parse_uint_iff}

-- The text is `issuer/currency/date/multiplier` with a decimal date.
pub record IsTokenText (s : Str) (token : XrplToken) : Type 0 where
  pub date : Str
  pub decimal : IsDecimal date token.activation_date
  pub issuer_plain : IsPlain 47 token.issuer
  pub currency_plain : IsPlain 47 token.currency
  pub multiplier_plain : IsPlain 47 token.multiplier
  pub written :
      s
      ≡ token.issuer
        ++ (codes "/"
            ++ (token.currency ++ (codes "/" ++ (date ++ (codes "/" ++ token.multiplier)))))

digits-IsPlain : (s : Str) → All IsDigit s → IsPlain 47 s
digits-IsPlain [] d = tt
digits-IsPlain (x ∷ s) (h, d) = (λ e. omega (arith, h), digits-IsPlain s d)

abbrev dated : Str → Str → Str → ℕ → Go XrplToken
dated issuer currency multiplier n =
    ok (record {
      currency = currency;
      issuer = issuer;
      activation_date = n;
      multiplier = multiplier;
    })

abbrev message : Str
message = codes "failed to parse activation_unix_timestamp"

-- A parsed date, and the parts around it.
parts_give :
    (parts : List Str) (token : XrplToken)
    → token_of_parts parts ≡ ok token
    → (date : Str) × IsDecimal date token.activation_date
      × (parts ≡ token.issuer ∷ token.currency ∷ date ∷ token.multiplier ∷ [])
unfolding token_of_parts wrap_err
parts_give [] token h = cc
parts_give (a ∷ []) token h = cc
parts_give (a ∷ b ∷ []) token h = cc
parts_give (a ∷ b ∷ c ∷ []) token h = cc
parts_give (a ∷ b ∷ c ∷ d ∷ e ∷ parts) token h = cc
parts_give (a ∷ b ∷ c ∷ d ∷ []) token h =
    let (n, parsed, same) = >>=-eq-ok (wrap_err message (parse_uint c)) (dated a b d) h in
    let e = ok_injective same in
    (
      c,
      subst (IsDecimal c) (ap (λ t. t.activation_date) e)
          ((parse_uint_iff c n).0 (wrap_err-eq-ok message (parse_uint c) parsed)),
      ap (λ (t : XrplToken). t.issuer ∷ t.currency ∷ c ∷ t.multiplier ∷ []) e,
    )

token_gives : (s : Str) (token : XrplToken) → parse_token s ≡ ok token → IsTokenText s token
unfolding parse_token
token_gives s token h =
    let (date, decimal, parts) = parts_give (split 47 s) token h in
    let r = (split_iff 47 s token.issuer (token.currency ∷ date ∷ token.multiplier ∷ [])).0 parts in
    record {
      date = date;
      decimal = decimal;
      issuer_plain = r.plain;
      currency_plain = r.plains.0;
      multiplier_plain = r.plains.1.1.0;
      written = r.whole;
    }

token_reads : (s : Str) (token : XrplToken) → IsTokenText s token → parse_token s ≡ ok token
unfolding parse_token token_of_parts wrap_err
token_reads s token t =
    ap token_of_parts (
      (split_iff 47 s token.issuer (token.currency ∷ t.date ∷ token.multiplier ∷ [])).1 (record {
        plain = t.issuer_plain;
        plains =
            (t.currency_plain, (digits-IsPlain t.date t.decimal.digits, (t.multiplier_plain, tt)));
        whole = t.written;
      }))
    ∙ ap (λ m. wrap_err message m >>= dated token.issuer token.currency token.multiplier)
        ((parse_uint_iff t.date token.activation_date).1 t.decimal)

-- The texts are those of the tokens, in order.
abbrev pub AreTokenTexts : List Str → List XrplToken → Type 0
AreTokenTexts [] [] = Unit
AreTokenTexts [] (token ∷ tokens) = ⊥
AreTokenTexts (s ∷ strs) [] = ⊥
AreTokenTexts (s ∷ strs) (token ∷ tokens) = IsTokenText s token × AreTokenTexts strs tokens

-- `BuildAddXRPLTokensTransactionCmd` reads the values of the flag as tokens exactly when each is the
-- text `issuer/currency/date/multiplier` of its token, where the date is a decimal number below
-- 2 ^ 64, with at least one digit and with leading zeros allowed, and no other part has a slash. Any
-- other value is refused, and the tokens come in the order of the values.
pub tokens_exact :
    (strs : List Str) (tokens : List XrplToken)
    → (parse_tokens strs ≡ ok tokens) ↔ AreTokenTexts strs tokens
unfolding parse_tokens
tokens_exact [] [] = (λ h. tt, λ h. refl)
tokens_exact [] (token ∷ tokens) = (λ h. cc, λ h. absurd h)
tokens_exact (s ∷ strs) [] = (
  λ h.
      let (t, one, h') = >>=-eq-ok (parse_token s) _ h in
      let (ts, others, h'') = >>=-eq-ok (parse_tokens strs) _ h' in cc,
  λ h. absurd h,
)
tokens_exact (s ∷ strs) (token ∷ tokens) = (
  λ h.
      let (t, one, h') = >>=-eq-ok (parse_token s) _ h in
      let (ts, others, h'') = >>=-eq-ok (parse_tokens strs) _ h' in
      (token_gives s token (one ∙ cc), (tokens_exact strs tokens).0 (others ∙ cc)),
  λ (t, ts).
      ap (λ m. m >>= λ token. parse_tokens strs >>= λ tokens. ok (token ∷ tokens))
        (token_reads s token t)
      ∙ ap (λ m. m >>= λ tokens. ok (token ∷ tokens)) ((tokens_exact strs tokens).1 ts),
)
