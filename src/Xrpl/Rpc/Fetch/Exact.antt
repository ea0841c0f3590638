-- ===== src/Xrpl/Rpc/Fetch/Exact.antt =====
-- What every order of the workers' steps ends in.
use mathlib.Core.Option.{none-ne-some}
use tx_xrpl_token_migrator.Base.{
  ◌≡◌, refl, sym, ◌∙◌, subst, ◌⊎◌, inl, inr, Option, none, some, List, [], ◌∷◌, map, All,
  Option-cases,
}
use tx_xrpl_token_migrator.Base.Str.{Str}
use tx_xrpl_token_migrator.Base.Go.{Go, ok, err, Error}
use tx_xrpl_token_migrator.Ripple.{Ripple}
use tx_xrpl_token_migrator.Xrpl.Model.{Transaction}
use tx_xrpl_token_migrator.Xrpl.Rpc.Fetch.{Job, Task, Shared, Pool, Reach, initial_pool, result_of}
use tx_xrpl_token_migrator.Xrpl.Rpc.Fetch.Steps.{
  IsSome, IsStored, IsEnded, HasAnswer, HasError, Inv, Reach-Inv,
}

module _ (R : Ripple) where
  -- An error that some hash was answered by; or a map that has a transaction for each hash, and in
  -- it only what was answered for its hash.
  abbrev pub IsFetched : List (Job R) → Go (Str → Option (Transaction R)) → Type 0
  IsFetched jobs result =
      ((e : Error) × (result ≡ err e) × HasError R jobs e)
      ⊎ ((txs : Str → Option (Transaction R)) × (result ≡ ok txs)
          × All (IsStored R txs) jobs
          × ((hash : Str) (txn : Transaction R) → txs hash ≡ some txn → HasAnswer R jobs hash txn))

  All-IsStored :
      (s : Shared R) (tasks : List (Task R))
      → s.fetch_err ≡ none
      → All (λ t. IsEnded R t → IsSome R s.fetch_err ⊎ IsStored R s.txs t.job) tasks
      → All (IsEnded R) tasks
      → All (IsStored R s.txs) (map (λ t. t.job) tasks)
  All-IsStored s [] n h e = tt
  All-IsStored s (t ∷ tasks) n h e = elim (h.0 e.0) [
    | inl (x, y) ↦ absurd (none-ne-some x (sym n ∙ y))
    | inr y ↦ (y, All-IsStored s tasks n h.1 e.1)
  ]

  -- In whatever order the workers take the steps of the tasks, once all tasks have ended the
  -- result is an error that was the answer for one of the hashes, or a map that has a transaction
  -- for each of the hashes, none of which was answered by an error, and has under a hash only a
  -- transaction that was the answer for it.
  pub fetch_any_order :
      (jobs : List (Job R)) (p : Pool R)
      → Reach R (initial_pool R jobs) p
      → All (IsEnded R) p.tasks
      → IsFetched jobs (result_of R p)
  unfolding result_of
  fetch_any_order jobs p r ended = elim (Option-cases p.shared.fetch_err) [
    | inr (e, x) ↦ inl (e, rw (x, result_of) refl, inv.errors e x)
    | inl n ↦ inr (
      p.shared.txs,
      rw (n, result_of) refl,
      subst (All (IsStored R p.shared.txs)) inv.same
          (All-IsStored p.shared p.tasks n inv.settled ended),
      inv.entries,
    )
  ]
    where
      inv : Inv R jobs p
      inv = Reach-Inv R jobs p r
