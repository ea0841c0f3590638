-- ===== src/Finder/Forward/Exact.antt =====
-- What the finder hands to the executor.
use mathlib.Core.Option.{none-ne-some, some-injective}
use tx_xrpl_token_migrator.Base.{
  Bool, true, false, ◌≡◌, ◌≢◌, refl, sym, ◌∙◌, ◌⊎◌, ap, inl, inr, ◌↔◌, Option, none, some, List, [],
  ◌∷◌, All, Memᴰ, mem_cons-cases, not_mem_nil, Bool-cases, Option-cases, subst,
}
use tx_xrpl_token_migrator.Base.Go.{Go, Error, ok, err, panics, Go-cases, ok_injective}
use tx_xrpl_token_migrator.Rat.{RatParser}
use tx_xrpl_token_migrator.Ripple.{Ripple}
use tx_xrpl_token_migrator.Sdk.{Sdk}
use tx_xrpl_token_migrator.Xrpl.Model.{Transaction}
use tx_xrpl_token_migrator.Xrpl.Scanner.{Ending}
use tx_xrpl_token_migrator.Finder.Build.{Pending, Config, build_pending_transaction}
use tx_xrpl_token_migrator.Finder.Build.Accepts.{IsBurn, build_accepts}
use tx_xrpl_token_migrator.Finder.Forward.{Inbound, forward_pending}

-- The transactions that come before the context is cancelled.
abbrev pub inbound_txs : {R : Ripple} → List (Inbound R) → List (Transaction R)
inbound_txs [] = []
inbound_txs (Inbound.done ∷ events) = []
inbound_txs (Inbound.receive txn taken ∷ events) = txn ∷ inbound_txs events

-- The receiver takes what is sent.
abbrev pub IsTaken : {R : Ripple} → Inbound R → Type 0
IsTaken Inbound.done = Unit {0}
IsTaken (Inbound.receive txn taken) = taken ≡ true

module _ (R : Ripple) (S : Sdk) (P : RatParser) (cfg : Config) where
  -- One of these transactions is a burn that is paid out as this transfer.
  abbrev pub HasBurn : List (Transaction R) → Pending → Type 0
  HasBurn txns p = (txn : Transaction R) × (Memᴰ txn txns) × IsBurn R S P cfg txn p

  abbrev build : Transaction R → Go (Option Pending)
  build = build_pending_transaction R S P cfg

  forward-skip :
      (txn : Transaction R) (taken : Bool) (events : List (Inbound R))
      → build txn ≡ ok none
      → forward_pending R S P cfg (Inbound.receive txn taken ∷ events)
        ≡ forward_pending R S P cfg events
  unfolding forward_pending
  forward-skip txn taken events e = rw (e, forward_pending) refl

  forward-send :
      (txn : Transaction R) (taken : Bool) (events : List (Inbound R)) (p : Pending)
      → build txn ≡ ok (some p)
      → taken ≡ true
      → forward_pending R S P cfg (Inbound.receive txn taken ∷ events)
        ≡ (p ∷ (forward_pending R S P cfg events).0, (forward_pending R S P cfg events).1)
  unfolding forward_pending
  forward-send txn taken events p e t = rw (e, t, forward_pending) refl

  forward-stuck :
      (txn : Transaction R) (events : List (Inbound R)) (p : Pending)
      → build txn ≡ ok (some p)
      → forward_pending R S P cfg (Inbound.receive txn false ∷ events) ≡ ([], Ending.waiting)
  unfolding forward_pending
  forward-stuck txn events p e = rw (e, forward_pending) refl

  forward-crash :
      (txn : Transaction R) (taken : Bool) (events : List (Inbound R))
      → ((x : Error) × (build txn ≡ err x)) ⊎ (build txn ≡ panics)
      → forward_pending R S P cfg (Inbound.receive txn taken ∷ events) ≡ ([], Ending.crashed)
  unfolding forward_pending
  forward-crash txn taken events (inl (x, e)) = rw (e, forward_pending) refl
  forward-crash txn taken events (inr e) = rw (e, forward_pending) refl

  -- The transaction is skipped, or sent as this transfer, or the goroutine panics.
  build-cases :
      (txn : Transaction R)
      → ((build txn ≡ ok none) ⊎ ((p : Pending) × (build txn ≡ ok (some p))))
        ⊎ (((x : Error) × (build txn ≡ err x)) ⊎ (build txn ≡ panics))
  build-cases txn = elim (Go-cases (build txn)) [
    | inr c ↦ inr c
    | inl (o, e) ↦ elim (Option-cases o) [
      | inl n ↦ inl (inl (e ∙ ap ok n))
      | inr (p, y) ↦ inl (inr (p, e ∙ ap ok y))
    ]
  ]

  forward_sound :
      (events : List (Inbound R)) (p : Pending)
      → Memᴰ p (forward_pending R S P cfg events).0
      → HasBurn (inbound_txs events) p
  unfolding forward_pending
  forward_sound [] p m = absurd (not_mem_nil m)
  forward_sound (Inbound.done ∷ events) p m = absurd (not_mem_nil m)
  forward_sound (Inbound.receive txn taken ∷ events) p m = elim (build-cases txn) [
    | inl (inl e) ↦ later (forward_sound events p (sent (forward-skip txn taken events e)))
    | inl (inr (q, e)) ↦ elim (Bool-cases taken) [
      | inl t ↦ elim (mem_cons-cases (sent (forward-send txn taken events q e t))) [
        | inl same ↦ (
          txn,
          Memᴰ.head refl,
          (build_accepts R S P cfg txn p).0 (e ∙ ap (λ z. ok (some z)) (sym same)),
        )
        | inr k ↦ later (forward_sound events p k)
      ]
      | inr t ↦ absurd (
          not_mem_nil (
            sent (
              subst
                (λ b.
                  forward_pending R S P cfg (Inbound.receive txn b ∷ events) ≡ ([], Ending.waiting))
                (sym t) (forward-stuck txn events q e))))
    ]
    | inr c ↦ absurd (not_mem_nil (sent (forward-crash txn taken events c)))
  ]
    where
      sent :
          {r : List Pending × Ending}
          → forward_pending R S P cfg (Inbound.receive txn taken ∷ events) ≡ r
          → Memᴰ p r.0
      sent e = subst (λ z. Memᴰ p z.0) e m

      later : HasBurn (inbound_txs events) p → HasBurn (txn ∷ inbound_txs events) p
      later (t, k, b) = (t, Memᴰ.tail k, b)

  forward_complete :
      (events : List (Inbound R)) (p : Pending)
      → All IsTaken events
      → (forward_pending R S P cfg events).1 ≢ Ending.crashed
      → HasBurn (inbound_txs events) p
      → Memᴰ p (forward_pending R S P cfg events).0
  unfolding forward_pending
  forward_complete [] p h n (t, m, b) = absurd (not_mem_nil m)
  forward_complete (Inbound.done ∷ events) p h n (t, m, b) = absurd (not_mem_nil m)
  forward_complete (Inbound.receive txn taken ∷ events) p (h, hs) n (t, m, b) =
      elim (build-cases txn) [
        | inl (inl e) ↦ elim (mem_cons-cases m) [
          | inl same ↦ absurd (none-ne-some p (ok_injective (sym e ∙ built same)))
          | inr k ↦
              subst (λ z. Memᴰ p z.0) (sym (forward-skip txn taken events e))
                (forward_complete events p hs
                  (λ c. n (ap (λ z. z.1) (forward-skip txn taken events e) ∙ c)) (t, k, b))
        ]
        | inl (inr (q, e)) ↦
            subst (λ z. Memᴰ p z.0) (sym (forward-send txn taken events q e h))
              (elim (mem_cons-cases m) [
                | inl same ↦ Memᴰ.head (some-injective p q (ok_injective (sym (built same) ∙ e)))
                | inr k ↦ Memᴰ.tail (
                    forward_complete events p hs
                      (λ c. n (ap (λ z. z.1) (forward-send txn taken events q e h) ∙ c)) (t, k, b))
              ])
        | inr c ↦ absurd (n (ap (λ z. z.1) (forward-crash txn taken events c)))
      ]
    where
      built : t ≡ txn → build txn ≡ ok (some p)
      built same = ap build (sym same) ∙ (build_accepts R S P cfg t p).1 b

  -- As long as the goroutine is not in a panic and its transfers are taken, it has sent exactly the
  -- transfers of the burns among the transactions it received before the context was cancelled.
  pub forward_exact :
      (events : List (Inbound R)) (p : Pending)
      → All IsTaken events
      → (forward_pending R S P cfg events).1 ≢ Ending.crashed
      → Memᴰ p (forward_pending R S P cfg events).0 ↔ HasBurn (inbound_txs events) p
  forward_exact events p h n = (forward_sound events p, forward_complete events p h n)
