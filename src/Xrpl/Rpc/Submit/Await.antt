-- ===== src/Xrpl/Rpc/Submit/Await.antt =====
-- When a submitted transaction is taken to have succeeded.
use mathlib.Core.Option.{none-ne-some, some-injective}
use tx_xrpl_token_migrator.Base.{
  ◌≡◌, ◌≢◌, refl, sym, ap, ◌∙◌, subst, ◌⊎◌, inl, inr, ◌↔◌, Bool, true, false, Option, none, some,
  List, [], ◌∷◌, ◌++◌, All, arith, Bool-cases, Option-cases,
}
use tx_xrpl_token_migrator.Base.Str.{Str, codes}
use tx_xrpl_token_migrator.Base.Go.{
  new_error, Error, Cause, ok, err, panics, Go-cases, err_not_ok, panics_not_ok,
}
use tx_xrpl_token_migrator.Ripple.{Ripple}
use tx_xrpl_token_migrator.Xrpl.Model.{Transaction}
use tx_xrpl_token_migrator.Xrpl.Rpc.Types.{Node}
use tx_xrpl_token_migrator.Xrpl.Rpc.Call.{get_transaction}
use tx_xrpl_token_migrator.Xrpl.Rpc.Submit.{
  TxCodec, SubmitResult, submit, await_round, await, submit_and_await_success,
}

module _ (R : Ripple) (T : TxCodec R) where
  -- The node has the transaction as a validated one.
  abbrev pub IsConfirmed : Str → Node R → Type 0
  IsConfirmed hash node =
      (tx : Transaction R) × (get_transaction R node hash ≡ ok (tx, true)) × (tx.validated ≡ true)

  -- The node has an error, or no validated transaction.
  abbrev pub IsUnconfirmed : Str → Node R → Type 0
  IsUnconfirmed hash node =
      ((e : Error) × (get_transaction R node hash ≡ err e))
      ⊎ ((tx : Transaction R) × (valid : Bool) × (get_transaction R node hash ≡ ok (tx, valid))
          × ((valid ≡ false) ⊎ (tx.validated ≡ false)))

  -- A round after which the wait goes on.
  abbrev pub IsPending : Str → Node R × Option Cause → Type 0
  IsPending hash (node, context) = IsUnconfirmed hash node × (context ≡ none)

  -- After rounds after which the wait goes on, one confirmed the transaction.
  abbrev pub IsAwaited : Str → List (Node R × Option Cause) → Type 0
  IsAwaited hash rounds =
      (pending : List (Node R × Option Cause)) × (last : Node R × Option Cause) × (later : List
        (Node R × Option Cause))
      × (rounds ≡ pending ++ last ∷ later)
      × All (IsPending hash) pending
      × IsConfirmed hash last.0

  await_round-confirmed :
      (node : Node R) (hash : Str) → IsConfirmed hash node → await_round R T node hash ≡ ok tt
  unfolding await_round
  await_round-confirmed node hash (tx, e, v) = rw (e, await_round) (ground arith)

  await_round-unconfirmed :
      (node : Node R) (hash : Str)
      → IsUnconfirmed hash node
      → (e : Error) × (await_round R T node hash ≡ err e)
  unfolding await_round
  await_round-unconfirmed node hash (inl (e, x)) = (e, rw (x, await_round) refl)
  await_round-unconfirmed node hash (inr (tx, valid, x, inl n)) =
      (new_error (codes "transaction is not valid"), rw (x, n, await_round) refl)
  await_round-unconfirmed node hash (inr (tx, true, x, inr n)) =
      (new_error (codes "transaction is not validated"), rw (x, n, await_round) refl)
  await_round-unconfirmed node hash (inr (tx, false, x, inr n)) =
      (new_error (codes "transaction is not valid"), rw (x, await_round) refl)

  answer-cases :
      (node : Node R) (hash : Str)
      → IsConfirmed hash node ⊎ (IsUnconfirmed hash node ⊎ (get_transaction R node hash ≡ panics))
  answer-cases node hash = elim (Go-cases (get_transaction R node hash)) [
    | inr (inl x) ↦ inr (inl (inl x))
    | inr (inr x) ↦ inr (inr x)
    | inl (r, x) ↦ elim (Bool-cases r.1) [
      | inr n ↦ inr (inl (inr (r.0, r.1, x, inl n)))
      | inl y ↦ elim (Bool-cases r.0.validated) [
        | inl v ↦ inl (r.0, x ∙ ap (λ b. ok (r.0, b)) y, v)
        | inr n ↦ inr (inl (inr (r.0, r.1, x, inr n)))
      ]
    ]
  ]

  await-confirmed :
      (hash : Str) (node : Node R) (context : Option Cause) (rounds : List (Node R × Option Cause))
      → IsConfirmed hash node
      → await R T hash ((node, context) ∷ rounds) ≡ some (ok tt)
  unfolding await
  await-confirmed hash node context rounds c = rw (await_round-confirmed node hash c, await) refl

  await-pending :
      (hash : Str) (round : Node R × Option Cause) (rounds : List (Node R × Option Cause))
      → IsPending hash round
      → await R T hash (round ∷ rounds) ≡ await R T hash rounds
  unfolding await
  await-pending hash (node, context) rounds (u, n) =
      let (e, x) = await_round-unconfirmed node hash u in rw (x, n, await) refl

  await-stopped :
      (hash : Str) (node : Node R) (cause : Cause) (rounds : List (Node R × Option Cause))
      → IsUnconfirmed hash node
      → await R T hash ((node, some cause) ∷ rounds) ≢ some (ok tt)
  unfolding await
  await-stopped hash node cause rounds u h =
      let (e, x) = await_round-unconfirmed node hash u in
      err_not_ok _ (some-injective _ _ (rw (x, await) at h))

  await-panics :
      (hash : Str) (node : Node R) (context : Option Cause) (rounds : List (Node R × Option Cause))
      → get_transaction R node hash ≡ panics
      → await R T hash ((node, context) ∷ rounds) ≢ some (ok tt)
  unfolding await await_round
  await-panics hash node context rounds x h =
      panics_not_ok (some-injective _ _ (rw (x, await, await_round) at h))

  await_sound :
      (hash : Str) (rounds : List (Node R × Option Cause))
      → await R T hash rounds ≡ some (ok tt)
      → IsAwaited hash rounds
  unfolding await
  await_sound hash [] h = absurd (none-ne-some _ h)
  await_sound hash ((node, context) ∷ rounds) h = elim (answer-cases node hash) [
    | inl c ↦ ([], (node, context), rounds, refl, tt, c)
    | inr (inr x) ↦ absurd (await-panics hash node context rounds x h)
    | inr (inl u) ↦ elim (Option-cases context) [
      | inr (cause, d) ↦ absurd (
          await-stopped hash node cause rounds u
            (subst (λ o. await R T hash ((node, o) ∷ rounds) ≡ some (ok tt)) d h))
      | inl n ↦
          let (pending, last, later, e, all, c) =
            await_sound hash rounds (sym (await-pending hash (node, context) rounds (u, n)) ∙ h) in
          (
            (node, context) ∷ pending,
            last,
            later,
            ap (λ l. (node, context) ∷ l) e,
            ((u, n), all),
            c,
          )
    ]
  ]

  await_complete :
      (hash : Str) (pending : List (Node R × Option Cause)) (last : Node R × Option Cause)
      (later : List (Node R × Option Cause))
      → All (IsPending hash) pending
      → IsConfirmed hash last.0
      → await R T hash (pending ++ last ∷ later) ≡ some (ok tt)
  await_complete hash [] (node, context) later all c = await-confirmed hash node context later c
  await_complete hash (round ∷ pending) last later all c =
      await-pending hash round (pending ++ last ∷ later) all.0
      ∙ await_complete hash pending last later all.1 c

  -- Submitting a transaction and awaiting it succeeds exactly if the node accepts it with a result
  -- that is a success, and a later look for its hash finds it validated, where each look before
  -- that one failed or found no validated transaction, with the context not done.
  pub submit_awaits :
      (node : Node R) (txn : T.Tx) (rounds : List (Node R × Option Cause))
      → (submit_and_await_success R T node txn rounds ≡ some (ok tt)) ↔ (
          ((res : SubmitResult) × (submit R T node txn ≡ ok res)
            × (T.is_success res.engine_result ≡ true))
          × IsAwaited (T.hash_string txn) rounds)
  unfolding submit_and_await_success
  submit_awaits node txn rounds = (sound, complete)
    where
      sound :
          submit_and_await_success R T node txn rounds ≡ some (ok tt)
          → ((res : SubmitResult) × (submit R T node txn ≡ ok res)
              × (T.is_success res.engine_result ≡ true))
            × IsAwaited (T.hash_string txn) rounds
      sound h = elim (Go-cases (submit R T node txn)) [
        | inr (inl (e, s)) ↦
            absurd (err_not_ok _ (some-injective _ _ (rw (s, submit_and_await_success) at h)))
        | inr (inr s) ↦
            absurd (panics_not_ok (some-injective _ _ (rw (s, submit_and_await_success) at h)))
        | inl (res, s) ↦ elim (Bool-cases (T.is_success res.engine_result)) [
          | inl y ↦ (
            (res, s, y),
            await_sound (T.hash_string txn) rounds (rw (s, y, submit_and_await_success) at h),
          )
          | inr n ↦
              absurd (err_not_ok _ (some-injective _ _ (rw (s, n, submit_and_await_success) at h)))
        ]
      ]

      complete :
          ((res : SubmitResult) × (submit R T node txn ≡ ok res)
              × (T.is_success res.engine_result ≡ true))
            × IsAwaited (T.hash_string txn) rounds
          → submit_and_await_success R T node txn rounds ≡ some (ok tt)
      complete ((res, s, y), (pending, last, later, e, all, c)) =
          rw (s, y, submit_and_await_success)
            (ap (await R T (T.hash_string txn)) e
              ∙ await_complete (T.hash_string txn) pending last later all c)
