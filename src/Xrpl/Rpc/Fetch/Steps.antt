-- ===== src/Xrpl/Rpc/Fetch/Steps.antt =====
-- What every step of the workers keeps.
use mathlib.Core.Option.{none-ne-some, some-injective}
use tx_xrpl_token_migrator.Base.{
  ◌≡◌, refl, sym, ap, ◌∙◌, subst, ◌⊎◌, inl, inr, Bool, Option, some, List, [], ◌∷◌, ◌++◌, map, Memᴰ,
  All, All-append, All-append_left, All-append_right, All-map, Bool-cases,
}
use tx_xrpl_token_migrator.Base.Str.{Str, str_eq, str_eq_iff, str_eq_refl}
use tx_xrpl_token_migrator.Base.Go.{ok, err, Error}
use tx_xrpl_token_migrator.Ripple.{Ripple}
use tx_xrpl_token_migrator.Xrpl.Model.{Transaction}
use tx_xrpl_token_migrator.Xrpl.Rpc.Fetch.{
  Pc, Job, Task, Shared, Pool, put, TaskStep, Step, Reach, initial_pool,
}

module _ (R : Ripple) where
  abbrev pub IsSome : {A : Type 0} → Option A → Type 0
  IsSome {A} o = (a : A) × (o ≡ some a)

  -- The answer for the job is a transaction, and the map has one under its hash.
  abbrev pub IsStored : (Str → Option (Transaction R)) → Job R → Type 0
  IsStored txs job =
      ((txn : Transaction R) × (valid : Bool) × (job.answer ≡ ok (txn, valid)))
      × IsSome (txs job.hash)

  abbrev IsSettled : Shared R → Job R → Type 0
  IsSettled s job = IsSome s.fetch_err ⊎ IsStored s.txs job

  abbrev pub IsEnded : Task R → Type 0
  IsEnded t = t.pc ≡ Pc.ended

  -- A transaction is in the map only where it was the answer for the hash.
  abbrev pub HasAnswer : List (Job R) → Str → Transaction R → Type 0
  HasAnswer jobs hash txn =
      (job : Job R) × (Memᴰ job jobs)
      × (job.hash ≡ hash)
      × ((valid : Bool) × (job.answer ≡ ok (txn, valid)))

  abbrev pub HasError : List (Job R) → Error → Type 0
  HasError jobs e = (job : Job R) × (Memᴰ job jobs) × (job.answer ≡ err e)

  pub record Inv (jobs : List (Job R)) (p : Pool R) : Type 0 where
    pub same : map (λ t. t.job) p.tasks ≡ jobs
    pub settled : All (λ t. IsEnded t → IsSettled p.shared t.job) p.tasks
    pub entries :
        (hash : Str) (txn : Transaction R) → p.shared.txs hash ≡ some txn → HasAnswer jobs hash txn
    pub errors : (e : Error) → p.shared.fetch_err ≡ some e → HasError jobs e

  IsSome-put :
      (hash key : Str) (txn : Transaction R) (txs : Str → Option (Transaction R))
      → IsSome (txs key)
      → IsSome (put R hash txn txs key)
  IsSome-put hash key txn txs (old, e) = elim (Bool-cases (str_eq hash key)) [
    | inl y ↦ (txn, rw y refl)
    | inr n ↦ (old, rw n e)
  ]

  TaskStep-keeps :
      {job : Job R} {s : Shared R} {pc pc' : Pc} {s' : Shared R} (other : Job R)
      → TaskStep R job s pc pc' s'
      → IsSettled s other
      → IsSettled s' other
  TaskStep-keeps other (TaskStep.skip e x) h = h
  TaskStep-keeps other (TaskStep.begin x) h = h
  TaskStep-keeps other (TaskStep.fail e x) h = inl (e, refl)
  TaskStep-keeps other (TaskStep.store txn valid x) (inl h) = inl h
  TaskStep-keeps {job} {s} other (TaskStep.store txn valid x) (inr (a, h)) =
      inr (a, IsSome-put job.hash other.hash txn s.txs h)

  TaskStep-ends :
      {job : Job R} {s : Shared R} {pc pc' : Pc} {s' : Shared R}
      → TaskStep R job s pc pc' s'
      → pc' ≡ Pc.ended
      → IsSettled s' job
  TaskStep-ends (TaskStep.skip e x) h = inl (e, x)
  TaskStep-ends (TaskStep.begin x) h = cc
  TaskStep-ends (TaskStep.fail e x) h = inl (e, refl)
  TaskStep-ends {job} (TaskStep.store txn valid x) h =
      inr ((txn, valid, x), (txn, rw (str_eq_refl job.hash) refl))

  TaskStep-entries :
      {job : Job R} {s : Shared R} {pc pc' : Pc} {s' : Shared R} (jobs : List (Job R))
      → TaskStep R job s pc pc' s'
      → Memᴰ job jobs
      → ((hash : Str) (txn : Transaction R) → s.txs hash ≡ some txn → HasAnswer jobs hash txn)
      → (hash : Str) (txn : Transaction R) → s'.txs hash ≡ some txn
      → HasAnswer jobs hash txn
  TaskStep-entries jobs (TaskStep.skip e x) m h = h
  TaskStep-entries jobs (TaskStep.begin x) m h = h
  TaskStep-entries jobs (TaskStep.fail e x) m h = h
  TaskStep-entries {job} jobs (TaskStep.store txn valid x) m h = λ hash other e.
      elim (Bool-cases (str_eq job.hash hash)) [
        | inl y ↦ (
          job,
          m,
          (str_eq_iff job.hash hash).0 y,
          (valid, x ∙ ap (λ t. ok (t, valid)) (some-injective _ _ (rw y at e))),
        )
        | inr n ↦ h hash other (rw n at e)
      ]

  TaskStep-errors :
      {job : Job R} {s : Shared R} {pc pc' : Pc} {s' : Shared R} (jobs : List (Job R))
      → TaskStep R job s pc pc' s'
      → Memᴰ job jobs
      → ((e : Error) → s.fetch_err ≡ some e → HasError jobs e)
      → (e : Error) → s'.fetch_err ≡ some e
      → HasError jobs e
  TaskStep-errors jobs (TaskStep.skip e x) m h = h
  TaskStep-errors jobs (TaskStep.begin x) m h = h
  TaskStep-errors {job} jobs (TaskStep.fail e x) m h =
      λ other y. (job, m, x ∙ ap err (some-injective _ _ y))
  TaskStep-errors jobs (TaskStep.store txn valid x) m h = h

  abbrev job_of : Task R → Job R
  job_of t = t.job

  jobs_same :
      (front back : List (Task R)) (job : Job R) (pc pc' : Pc)
      → map job_of (front ++ record { job = job; pc = pc' } ∷ back)
        ≡ map job_of (front ++ record { job = job; pc = pc } ∷ back)
  jobs_same [] back job pc pc' = refl
  jobs_same (t ∷ front) back job pc pc' = ap (λ l. t.job ∷ l) (jobs_same front back job pc pc')

  job_mem :
      (front back : List (Task R)) (job : Job R) (pc : Pc)
      → Memᴰ job (map job_of (front ++ record { job = job; pc = pc } ∷ back))
  job_mem [] back job pc = Memᴰ.head refl
  job_mem (t ∷ front) back job pc = Memᴰ.tail (job_mem front back job pc)

  pub Step-Inv : (jobs : List (Job R)) (p q : Pool R) → Step R p q → Inv jobs p → Inv jobs q
  Step-Inv jobs p q (Step.pick front back job pc pc' s' st e f) inv =
      subst (Inv jobs) (sym f) (record {
        same = jobs_same front back job pc pc' ∙ (ap (map job_of) (sym e) ∙ inv.same);
        settled =
            All-append (λ t. IsEnded t → IsSettled s' t.job) front
              (record { job = job; pc = pc' } ∷ back)
              (All-map front keeps (All-append_left _ front _ split))
              (TaskStep-ends st, All-map back keeps (All-append_right _ front _ split).1);
        entries = TaskStep-entries jobs st mem inv.entries;
        errors = TaskStep-errors jobs st mem inv.errors;
      })
    where
      split :
          All
            (λ t. IsEnded t → IsSettled p.shared t.job)
            (front ++ record { job = job; pc = pc } ∷ back)
      split = subst (All (λ t. IsEnded t → IsSettled p.shared t.job)) e inv.settled

      keeps : (t : Task R) → (IsEnded t → IsSettled p.shared t.job) → IsEnded t → IsSettled s' t.job
      keeps t h n = TaskStep-keeps t.job st (h n)

      mem : Memᴰ job jobs
      mem = subst (Memᴰ job) (ap (map job_of) (sym e) ∙ inv.same) (job_mem front back job pc)

  initial-same : (jobs : List (Job R)) → map job_of (initial_pool R jobs).tasks ≡ jobs
  unfolding initial_pool
  initial-same [] = refl
  initial-same (job ∷ jobs) = ap (λ l. job ∷ l) (initial-same jobs)

  initial-settled :
      (s : Shared R) (jobs : List (Job R))
      → All (λ t. IsEnded t → IsSettled s t.job) (initial_pool R jobs).tasks
  unfolding initial_pool
  initial-settled s [] = tt
  initial-settled s (job ∷ jobs) = (λ h. cc, initial-settled s jobs)

  initial-Inv : (jobs : List (Job R)) → Inv jobs (initial_pool R jobs)
  unfolding initial_pool
  initial-Inv jobs = record {
    same = initial-same jobs;
    settled = initial-settled (initial_pool R jobs).shared jobs;
    entries = λ hash txn e. absurd (none-ne-some txn e);
    errors = λ x e. absurd (none-ne-some x e);
  }

  pub Reach-Inv : (jobs : List (Job R)) (p : Pool R) → Reach R (initial_pool R jobs) p → Inv jobs p
  Reach-Inv jobs p Reach.here = initial-Inv jobs
  Reach-Inv jobs p (Reach.next {q} r st) = Step-Inv jobs q p st (Reach-Inv jobs q r)
