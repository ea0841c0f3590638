-- ===== src/Xrpl/Rpc/Fetch.antt =====
-- `GetTransactions` of relayer/client/xrpl/rpc.go: one task for each hash, which the workers of a
-- pool run side by side over a shared map and a shared error. A step of a task is one access to
-- what is shared: reading the error, setting it, or writing to the map, which a lock guards. The
-- error has no lock; its reads and writes are taken to be atomic.
pub mod Steps
pub mod Exact
use tx_xrpl_token_migrator.Base.{
  ◌≡◌, Bool, Option, none, some, List, [], ◌∷◌, ◌++◌, map, if◌then◌else◌,
}
use tx_xrpl_token_migrator.Base.Str.{Str, str_eq}
use tx_xrpl_token_migrator.Base.Go.{Go, ok, err, panics, Error}
use tx_xrpl_token_migrator.Ripple.{Ripple}
use tx_xrpl_token_migrator.Xrpl.Model.{Transaction}
use tx_xrpl_token_migrator.Xrpl.Rpc.Types.{Node}
use tx_xrpl_token_migrator.Xrpl.Rpc.Call.{get_transaction}

-- Where a task stands: not run yet, past its look at the error, or at its end.
pub data Pc : Type 0 where
  queued running ended : Pc

module _ (R : Ripple) where
  -- A hash with what `GetTransaction` answers for it.
  pub record Job : Type 0 where
    pub hash : Str
    pub answer : Go (Transaction R × Bool)

  pub record Task : Type 0 where
    pub job : Job
    pub pc : Pc

  -- What the tasks share.
  pub record Shared : Type 0 where
    pub txs : Str → Option (Transaction R)
    pub fetch_err : Option Error

  pub record Pool : Type 0 where
    pub tasks : List Task
    pub shared : Shared

  -- `txs[hash] = txn`
  abbrev pub put :
      Str → Transaction R → (Str → Option (Transaction R)) → Str → Option (Transaction R)
  put hash txn txs key = if str_eq hash key then some txn else txs key

  -- A step of a task. A panic in a worker ends the program: it has no step.
  pub data TaskStep (job : Job) (s : Shared) : Pc → Pc → Shared → Type 0 where
    skip : (e : Error) → s.fetch_err ≡ some e → TaskStep job s queued ended s
    begin : s.fetch_err ≡ none → TaskStep job s queued running s
    fail :
        (e : Error)
        → job.answer ≡ err e
        → TaskStep job s running ended (record s { fetch_err = some e })
    store :
        (txn : Transaction R) (valid : Bool)
        → job.answer ≡ ok (txn, valid)
        → TaskStep job s running ended (record s { txs = put job.hash txn s.txs })

  -- The pool lets any of its tasks take a step.
  pub data Step (p q : Pool) : Type 0 where
    pick :
        (front back : List Task) (job : Job) (pc pc' : Pc) (s' : Shared)
        → TaskStep job p.shared pc pc' s'
        → p.tasks ≡ front ++ record { job = job; pc = pc } ∷ back
        → q ≡ record { tasks = front ++ record { job = job; pc = pc' } ∷ back; shared = s' }
        → Step p q

  pub data Reach (p : Pool) : Pool → Type 0 where
    here : Reach p p
    next : {q r : Pool} → Reach p q → Step q r → Reach p r

  -- The jobs of the hashes, each with the node that it meets.
  unfoldable pub jobs_of : List (Str × Node R) → List Job
  jobs_of [] = []
  jobs_of ((hash, node) ∷ hashes) =
      record { hash = hash; answer = get_transaction R node hash } ∷ jobs_of hashes

  -- The pool before any task is run.
  unfoldable pub initial_pool : List Job → Pool
  initial_pool jobs = record {
    tasks = map (λ job. record { job = job; pc = queued }) jobs;
    shared = record { txs = λ key. none; fetch_err = none };
  }

  -- What `GetTransactions` returns after its wait for the tasks.
  unfoldable pub result_of : Pool → Go (Str → Option (Transaction R))
  result_of p = elim p.shared.fetch_err [ none ↦ ok p.shared.txs | some e ↦ err e ]
