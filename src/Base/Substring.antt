-- ===== src/Base/Substring.antt =====
-- `strings.Contains`, and texts that stay inside of a longer text.
use tx_xrpl_token_migrator.Base.{Bool, true, false, ◌&&◌, ◌||◌, ◌==◌, [], ◌∷◌, ◌++◌, ◌≡◌, arith}
use tx_xrpl_token_migrator.Base.Str.{Str}

unfoldable pub has_prefix : Str → Str → Bool
has_prefix s [] = true
has_prefix [] (c ∷ p) = false
has_prefix (d ∷ s) (c ∷ p) = (d == c) && has_prefix s p

unfoldable pub contains : Str → Str → Bool
unfolding has_prefix
contains [] p = has_prefix [] p
contains (c ∷ s) p = has_prefix (c ∷ s) p || contains s p

-- A text that contains another still does with more in front.
pub contains-append : (front s p : Str) → contains s p ≡ true → contains (front ++ s) p ≡ true
unfolding contains
contains-append [] s p h = h
contains-append (c ∷ front) s p h = rw (contains-append front s p h) (ground arith)
