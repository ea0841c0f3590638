-- ===== src/Xrpl/Rpc/Convert/Memo.antt =====
-- The hex memos of relayer/client/xrpl/rpc.go: what was written as hexadecimal is read back.
use tx_xrpl_token_migrator.Base.{
  ℕ, ◌+◌, ◌-◌, ◌*◌, ◌/◌, ◌%◌, ◌<◌, ◌≡◌, ◌∙◌, ap, refl, List, [], ◌∷◌, All, some, arith,
  if◌then◌else◌, map, ltb,
}
use tx_xrpl_token_migrator.Base.Str.{Str}
use tx_xrpl_token_migrator.Base.Go.{ok}
use tx_xrpl_token_migrator.Xrpl.Rpc.Types.{MemoRes}
use tx_xrpl_token_migrator.Xrpl.Rpc.Convert.{
  hex_digit, hex_byte, hex_decode, convert_hex_memos_to_strings,
}

-- The upper case digit of a number below 16, as the ledger writes it.
unfoldable pub digit_of : ℕ → ℕ
digit_of n = if ltb n 10 then n + b'0' else n - 10 + b'A'

-- A text in hexadecimal, two digits for a byte.
unfoldable pub hex_encode : Str → Str
hex_encode [] = []
hex_encode (c ∷ s) = digit_of (c / 16) ∷ digit_of (c % 16) ∷ hex_encode s

-- The memo of the ledger with a type and a text.
abbrev pub memo_with : Str × Str → MemoRes
memo_with (kind, text) = record { memo_data = hex_encode text; memo_type = kind }

abbrev pub IsBytes : Str → Type 0
IsBytes s = All (λ c. c < 256) s

hex_digit-digit_of : (n : ℕ) → n < 16 → hex_digit (digit_of n) ≡ some n
unfolding hex_digit digit_of
hex_digit-digit_of n h = ground arith

hex_byte-join :
    (a b h l : ℕ) → hex_digit a ≡ some h → hex_digit b ≡ some l → hex_byte a b ≡ some (h * 16 + l)
unfolding hex_byte
hex_byte-join a b h l p q = ground arith

hex_byte-digit_of : (c : ℕ) → c < 256 → hex_byte (digit_of (c / 16)) (digit_of (c % 16)) ≡ some c
hex_byte-digit_of c h =
    hex_byte-join _ _ (c / 16) (c % 16) (hex_digit-digit_of (c / 16) (omega arith))
      (hex_digit-digit_of (c % 16) (omega arith))
    ∙ ap some (omega arith)

hex_decode-encode : (s : Str) → IsBytes s → hex_decode (hex_encode s) ≡ some s
unfolding hex_decode hex_encode
hex_decode-encode [] h = refl
hex_decode-encode (c ∷ s) (h, hs) = rw (hex_byte-digit_of c h, hex_decode-encode s hs) refl

convert-cons :
    (memo : MemoRes) (memos : List MemoRes) (text : Str) (texts : List Str)
    → hex_decode memo.memo_data ≡ some text
    → convert_hex_memos_to_strings memos ≡ ok texts
    → convert_hex_memos_to_strings (memo ∷ memos) ≡ ok (text ∷ texts)
unfolding convert_hex_memos_to_strings
convert-cons memo memos text texts p q = ground arith

-- Memos that the ledger has as the hexadecimal digits of texts are converted to these texts, in
-- their order.
pub memos_roundtrip :
    (memos : List (Str × Str))
    → All (λ memo. IsBytes memo.1) memos
    → convert_hex_memos_to_strings (map memo_with memos) ≡ ok (map (λ memo. memo.1) memos)
unfolding convert_hex_memos_to_strings
memos_roundtrip [] h = refl
memos_roundtrip ((kind, text) ∷ memos) (h, hs) =
    convert-cons (memo_with (kind, text)) (map memo_with memos) text (map (λ memo. memo.1) memos)
      (hex_decode-encode text h) (memos_roundtrip memos hs)
