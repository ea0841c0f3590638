-- ===== src/Service/Restart.antt =====
-- When the loop of the service goes on.
use tx_xrpl_token_migrator.Base.{
  ◌≡◌, refl, sym, ◌∙◌, inl, inr, ◌↔◌, true, none, some, List, [], ◌∷◌, All, Bool-cases,
  Option-cases,
}
use tx_xrpl_token_migrator.Base.Go.{Go, ok, err, Error, Go-cases}
use tx_xrpl_token_migrator.Xrpl.Scanner.{is_canceled}
use tx_xrpl_token_migrator.Service.{is_config_changed, Iteration, run_executor_with_auto_restart}

-- The context was not done, the services were created, and their run ended by a changed
-- configuration.
abbrev pub IsRestart : Iteration → Type 0
IsRestart i =
    (i.ctx_err ≡ none)
    × (i.services ≡ ok tt)
    × ((e : Error) × (i.run ≡ err e) × (is_config_changed e ≡ true))

restarts :
    (i : Iteration) (iterations : List Iteration)
    → IsRestart i
    → run_executor_with_auto_restart (i ∷ iterations) ≡ run_executor_with_auto_restart iterations
unfolding run_executor_with_auto_restart
restarts i iterations (c, s, (e, r, y)) = rw (c, s, r, y, run_executor_with_auto_restart) refl

returns_or_restarts :
    (i : Iteration) (iterations : List Iteration)
    → run_executor_with_auto_restart (i ∷ iterations) ≡ none
    → IsRestart i
unfolding run_executor_with_auto_restart
returns_or_restarts i iterations h = elim (Option-cases i.ctx_err) [
  | inr (e, c) ↦ absurd (some_none (rw (c, run_executor_with_auto_restart) at h))
  | inl c ↦ elim (Go-cases i.services) [
    | inr (inl (e, s)) ↦ absurd (some_none (rw (c, s, run_executor_with_auto_restart) at h))
    | inr (inr s) ↦ absurd (some_none (rw (c, s, run_executor_with_auto_restart) at h))
    | inl (u, s) ↦ elim (Go-cases i.run) [
      | inl (v, r) ↦ absurd (some_none (rw (c, s, r, run_executor_with_auto_restart) at h))
      | inr (inr r) ↦ absurd (some_none (rw (c, s, r, run_executor_with_auto_restart) at h))
      | inr (inl (e, r)) ↦ elim (Bool-cases (is_config_changed e)) [
        | inl y ↦ (c, s, (e, r, y))
        | inr n ↦ elim (Bool-cases (is_canceled e)) [
          | inl z ↦ absurd (some_none (rw (c, s, r, n, z, run_executor_with_auto_restart) at h))
          | inr z ↦ absurd (some_none (rw (c, s, r, n, z, run_executor_with_auto_restart) at h))
        ]
      ]
    ]
  ]
]
  where
    some_none : {g : Go (Unit {0})} → some g ≡ none → ⊥
    some_none k = cc

-- The service goes on exactly as long as each run so far ended by a changed configuration, with the
-- context not done before it and its services created.
pub run_goes_on :
    (iterations : List Iteration)
    → (run_executor_with_auto_restart iterations ≡ none) ↔ All IsRestart iterations
run_goes_on [] = (λ h. tt, λ k. unfold run_executor_with_auto_restart in refl)
run_goes_on (i ∷ iterations) = (
  λ h.
      let r = returns_or_restarts i iterations h in
      (r, (run_goes_on iterations).0 (sym (restarts i iterations r) ∙ h)),
  λ k. restarts i iterations k.0 ∙ (run_goes_on iterations).1 k.1,
)
