-- ===== src/Xrpl/Scanner/Repeat.antt =====
-- What holds of a repeated function that keeps an invariant.
use tx_xrpl_token_migrator.Base.{
  ◌≡◌, refl, sym, ap, ◌∙◌, ◌⊎◌, inl, inr, Bool, Option, some, List, [], ◌∷◌, All, Bool-cases,
  Option-cases,
}
use tx_xrpl_token_migrator.Base.Go.{Go, ok, Go-cases}
use tx_xrpl_token_migrator.Xrpl.Scanner.{Ending, is_canceled, do_with_resubscribe}

module _ {E S : Type 0} (repeat : Bool) (f : E → S → S × Option (Go (Unit {0}))) (Good : E → Type 0)
    (Inv : S → Type 0) (step : (e : E) (s : S) → Good e → Inv s → Inv (f e s).0) where
  -- A round is the last one, or the rest starts from its state.
  abbrev LastOrNot : E → List E → S → Type 0
  LastOrNot e es s =
      ((end : Ending) × (do_with_resubscribe repeat f (e ∷ es) s ≡ ((f e s).0, end))
        × (end ≡ Ending.finished → (f e s).1 ≡ some (ok tt)))
      ⊎ (do_with_resubscribe repeat f (e ∷ es) s ≡ do_with_resubscribe repeat f es (f e s).0)

  last_or_not : (e : E) (es : List E) (s : S) → LastOrNot e es s
  unfolding do_with_resubscribe
  last_or_not e es s = elim (Option-cases (f e s).1) [
    | inl n ↦
        inl (Ending.waiting, rw (n, do_with_resubscribe) refl, λ c. absurd (waiting≢finished c))
    | inr (r, y) ↦ elim (Go-cases r) [
      | inl (u, e') ↦ elim (Bool-cases repeat) [
        | inl again ↦ inr (rw (y, e', again, do_with_resubscribe) refl)
        | inr once ↦
            inl (Ending.finished, rw (y, e', once, do_with_resubscribe) refl, λ c. y ∙ ap some e')
      ]
      | inr (inl (x, e')) ↦ elim (Bool-cases (is_canceled x)) [
        | inl stops ↦ inl (
          Ending.canceled,
          rw (y, e', stops, do_with_resubscribe) refl,
          λ c. absurd (canceled≢finished c),
        )
        | inr goes ↦ inr (rw (y, e', goes, do_with_resubscribe) refl)
      ]
      | inr (inr e') ↦
          inl
            (Ending.crashed, rw (y, e', do_with_resubscribe) refl, λ c. absurd (crashed≢finished c))
    ]
  ]
    where
      waiting≢finished : Ending.waiting ≡ Ending.finished → ⊥
      waiting≢finished c = cc

      canceled≢finished : Ending.canceled ≡ Ending.finished → ⊥
      canceled≢finished c = cc

      crashed≢finished : Ending.crashed ≡ Ending.finished → ⊥
      crashed≢finished c = cc

  pub resubscribe-keeps :
      (es : List E) (s : S) → All Good es → Inv s → Inv (do_with_resubscribe repeat f es s).0
  resubscribe-keeps [] s good i = unfold do_with_resubscribe in i
  resubscribe-keeps (e ∷ es) s good i = elim (last_or_not e es s) [
    | inl (end, same, fin) ↦ rw same (step e s good.0 i)
    | inr same ↦ rw same (resubscribe-keeps es (f e s).0 good.1 (step e s good.0 i))
  ]

  module _ (Done : S → Type 0)
      (done : (e : E) (s : S) → Good e → Inv s → (f e s).1 ≡ some (ok tt) → Done (f e s).0) where
    pub resubscribe-Done :
        (es : List E) (s : S)
        → All Good es
        → Inv s
        → (do_with_resubscribe repeat f es s).1 ≡ Ending.finished
        → Done (do_with_resubscribe repeat f es s).0
    resubscribe-Done [] s good i h = absurd (not_yet (unfold do_with_resubscribe in h))
      where
        not_yet : Ending.waiting ≡ Ending.finished → ⊥
        not_yet c = cc
    resubscribe-Done (e ∷ es) s good i h = elim (last_or_not e es s) [
      | inl (end, same, fin) ↦
          rw same (done e s good.0 i (fin (ap (λ (r : S × Ending). r.1) (sym same) ∙ h)))
      | inr same ↦ rw same (
          resubscribe-Done es (f e s).0 good.1 (step e s good.0 i)
            (ap (λ (r : S × Ending). r.1) (sym same) ∙ h))
    ]
