-- ===== src/Cli/Token/Split.antt =====
-- `strings.Split` at a byte cuts a text into the parts between the bytes.
use tx_xrpl_token_migrator.Base.{
  ℕ, ◌≡◌, ◌≢◌, refl, ap, sym, subst, ◌∙◌, ◌↔◌, ◌⊎◌, inl, inr, List, [], ◌∷◌, ◌++◌, All, arith,
}
use tx_xrpl_token_migrator.Base.Str.{Str}
use tx_xrpl_token_migrator.Cli.Token.{split, push_front}

-- The text without the byte.
abbrev pub IsPlain : ℕ → Str → Type 0
IsPlain c s = All (λ x. x ≢ c) s

-- A part, and further parts behind separators.
abbrev pub join : ℕ → Str → List Str → Str
join c part [] = part
join c part (next ∷ parts) = part ++ (c ∷ join c next parts)

join_cons :
    (c x : ℕ) (part : Str) (parts : List Str) → join c (x ∷ part) parts ≡ x ∷ join c part parts
join_cons c x part [] = refl
join_cons c x part (next ∷ parts) = refl

same_or_not : (x c : ℕ) → (x ≡ c) ⊎ (x ≢ c)
same_or_not x c = ground arith

split_separator : (c : ℕ) (s : Str) → split c (c ∷ s) ≡ [] ∷ split c s
unfolding split
split_separator c s = ground arith

split_other : (c x : ℕ) (s : Str) → x ≢ c → split c (x ∷ s) ≡ push_front x (split c s)
unfolding split
split_other c x s h = ground arith

-- The text is parts without a separator, with separators between them.
pub record IsCut (c : ℕ) (s part : Str) (parts : List Str) : Type 0 where
  pub plain : IsPlain c part
  pub plains : All (IsPlain c) parts
  pub whole : s ≡ join c part parts

abbrev IsCutOf : ℕ → Str → List Str → Type 0
IsCutOf c s [] = ⊥
IsCutOf c s (part ∷ parts) = IsCut c s part parts

IsCut-cons :
    (c x : ℕ) (s part : Str) (parts : List Str)
    → split c s ≡ part ∷ parts
    → IsCut c s part parts
    → (first : Str) × (others : List Str) × (split c (x ∷ s) ≡ first ∷ others)
      × IsCut c (x ∷ s) first others
unfolding push_front
IsCut-cons c x s part parts cut r = elim (same_or_not x c) [
  | inl e ↦ (
    [],
    part ∷ parts,
    ap (λ y. split c (y ∷ s)) e ∙ (split_separator c s ∙ ap (λ ps. [] ∷ ps) cut),
    record { plain = tt; plains = (r.plain, r.plains); whole = cc (e, r.whole) },
  )
  | inr h ↦ (
    x ∷ part,
    parts,
    split_other c x s h ∙ ap (push_front x) cut,
    record {
      plain = (h, r.plain);
      plains = r.plains;
      whole = ap (λ t. x ∷ t) r.whole ∙ sym (join_cons c x part parts);
    },
  )
]

pub split_parts :
    (c : ℕ) (s : Str)
    → (part : Str) × (parts : List Str) × (split c s ≡ part ∷ parts) × IsCut c s part parts
unfolding split
split_parts c [] = ([], [], refl, record { plain = tt; plains = tt; whole = refl })
split_parts c (x ∷ s) =
    let (part, parts, cut, r) = split_parts c s in IsCut-cons c x s part parts cut r

pub split-join :
    (c : ℕ) (part : Str) (parts : List Str)
    → IsPlain c part
    → All (IsPlain c) parts
    → split c (join c part parts) ≡ part ∷ parts
unfolding split push_front
split-join c [] [] plain plains = refl
split-join c [] (next ∷ parts) plain (p, ps) =
    split_separator c (join c next parts) ∙ ap (λ ps'. [] ∷ ps') (split-join c next parts p ps)
split-join c (x ∷ part) parts (ne, plain) plains =
    ap (split c) (join_cons c x part parts)
    ∙ (split_other c x (join c part parts) ne
        ∙ ap (push_front x) (split-join c part parts plain plains))

-- The parts of a text are the one way to cut it.
pub split_iff :
    (c : ℕ) (s part : Str) (parts : List Str) → (split c s ≡ part ∷ parts) ↔ IsCut c s part parts
split_iff c s part parts = (
  λ h.
      let (part', parts', cut, r) = split_parts c s in
      let e : part' ∷ parts' ≡ part ∷ parts = sym cut ∙ h in
      subst (λ (z : List Str). IsCutOf c s z) e r,
  λ r. ap (split c) r.whole ∙ split-join c part parts r.plain r.plains,
)
