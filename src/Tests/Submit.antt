-- ===== src/Tests/Submit.antt =====
-- Submitting, awaiting and fetching transactions of the XRPL.
use tx_xrpl_token_migrator.Base.{
  ◌≡◌, refl, ◌↔◌, Bool, true, false, none, some, List, [], ◌∷◌, arith,
}
use tx_xrpl_token_migrator.Base.Int.{ℤ, pos, negsuc, eqb_ℤ}
use tx_xrpl_token_migrator.Base.Str.{codes}
use tx_xrpl_token_migrator.Base.Go.{Go, ok, err, Error, Cause, new_error}
use tx_xrpl_token_migrator.Xrpl.Rpc.Types.{Node}
use tx_xrpl_token_migrator.Xrpl.Rpc.Call.{call_rpc, wrap_err, decode_response}
use tx_xrpl_token_migrator.Xrpl.Rpc.Submit.{
  TxBase, TxCodec, SubmitResult, auto_fill_tx, calculate_fee, fill_base, account_info, submit,
  submit_and_await_success,
}
use tx_xrpl_token_migrator.Xrpl.Rpc.Submit.Fee.{IsFilled, auto_fill_exact}
use tx_xrpl_token_migrator.Xrpl.Rpc.Submit.Await.{IsAwaited, submit_awaits}
use tx_xrpl_token_migrator.Xrpl.Rpc.Fetch.{
  Pc, Job, Shared, Pool, TaskStep, Step, Reach, put, initial_pool, result_of,
}
use tx_xrpl_token_migrator.Xrpl.Rpc.Fetch.Exact.{IsFetched, fetch_any_order}
use tx_xrpl_token_migrator.Tests.Samples.{ripple}
use tx_xrpl_token_migrator.Tests.Xrpl.{item, txn}

abbrev native_value : ℤ → Go ℤ
native_value (pos n) = ok (pos n)
native_value (negsuc n) = err (new_error (codes "negative"))

abbrev codec : TxCodec ripple
codec = record {
  Tx = TxBase ripple;
  get_base = λ t. t;
  set_base = λ t b. b;
  raw_hex = λ t. some (codes "AB");
  hash_string = λ t. codes "H";
  new_native_value = native_value;
  is_success = λ r. eqb_ℤ r (pos 0);
  decode_account_info = λ body. some (record { ledger_sequence = 95; sequence = some 7 });
  decode_submit = λ body.
      some (record { engine_result = pos 0; engine_result_message = []; tx_blob = codes "AB" });
}

-- A node that has a transaction, validated or not.
abbrev having : Bool → Node ripple
having validated = record {
  do_json = λ req. ok [];
  decode_error = λ body. some (record { error = []; error_code = pos 0; error_message = [] });
  decode_account_tx = λ body. none;
  decode_ledger_current = λ body. none;
  decode_tx = λ body. some (record (item 80) { validated = validated });
  done_after = none;
  done_cause = Cause.canceled;
}

abbrev empty_tx : TxBase ripple
empty_tx = record { fee = none; account = []; sequence = 0 }

abbrev filled_tx : TxBase ripple
filled_tx = record { fee = some (pos 40); account = codes "S"; sequence = 7 }

auto_fills : auto_fill_tx ripple codec (having true) empty_tx (codes "S") 3 ≡ (filled_tx, ok tt)
unfolding auto_fill_tx account_info call_rpc decode_response wrap_err calculate_fee fill_base
auto_fills = refl

auto_fill_exact_example :
    (auto_fill_tx ripple codec (having true) empty_tx (codes "S") 3 ≡ (filled_tx, ok tt))
    ↔ IsFilled ripple codec (having true) empty_tx (codes "S") 3 filled_tx
auto_fill_exact_example =
    auto_fill_exact ripple codec (having true) empty_tx (codes "S") 3 filled_tx (omega arith)

submit_awaits_example :
    (submit_and_await_success ripple codec
        (having true)
        filled_tx
        ((having false, none) ∷ (having true, none) ∷ [])
      ≡ some (ok tt))
    ↔ (((res : SubmitResult) × (submit ripple codec (having true) filled_tx ≡ ok res)
          × (codec.is_success res.engine_result ≡ true))
        × IsAwaited ripple codec (codes "H") ((having false, none) ∷ (having true, none) ∷ []))
submit_awaits_example =
    submit_awaits ripple codec (having true) filled_tx
      ((having false, none) ∷ (having true, none) ∷ [])

abbrev missing : Error
missing = new_error (codes "txnNotFound")

abbrev first_job : Job ripple
first_job = record { hash = codes "A"; answer = ok (txn 80, true) }

abbrev second_job : Job ripple
second_job = record { hash = codes "B"; answer = err missing }

abbrev two_jobs : List (Job ripple)
two_jobs = first_job ∷ second_job ∷ []

abbrev pool_of : Pc → Pc → Shared ripple → Pool ripple
pool_of a b s = record {
  tasks = record { job = first_job; pc = a } ∷ record { job = second_job; pc = b } ∷ [];
  shared = s;
}

abbrev fresh_shared : Shared ripple
fresh_shared = record { txs = λ key. none; fetch_err = none }

abbrev failed_shared : Shared ripple
failed_shared = record fresh_shared { fetch_err = some missing }

abbrev last_shared : Shared ripple
last_shared = record failed_shared { txs = put ripple (codes "A") (txn 80) (λ key. none) }

-- The second task fails while the first one waits for its answer.
two_reach : Reach ripple (initial_pool ripple two_jobs) (pool_of Pc.ended Pc.ended last_shared)
unfolding initial_pool
two_reach =
    Reach.next {q = pool_of Pc.running Pc.ended failed_shared}
      (Reach.next {q = pool_of Pc.running Pc.running fresh_shared}
        (Reach.next {q = pool_of Pc.running Pc.queued fresh_shared}
          (Reach.next Reach.here (
            Step.pick [] (record { job = second_job; pc = Pc.queued } ∷ []) first_job Pc.queued
              Pc.running fresh_shared (TaskStep.begin refl) refl refl))
          (Step.pick (record { job = first_job; pc = Pc.running } ∷ []) [] second_job Pc.queued
            Pc.running fresh_shared (TaskStep.begin refl) refl refl))
        (Step.pick (record { job = first_job; pc = Pc.running } ∷ []) [] second_job Pc.running
          Pc.ended failed_shared (TaskStep.fail missing refl) refl refl))
      (Step.pick [] (record { job = second_job; pc = Pc.ended } ∷ []) first_job Pc.running Pc.ended
        last_shared (TaskStep.store (txn 80) true refl) refl refl)

fetch_any_order_example :
    IsFetched ripple two_jobs (result_of ripple (pool_of Pc.ended Pc.ended last_shared))
fetch_any_order_example =
    fetch_any_order ripple two_jobs (pool_of Pc.ended Pc.ended last_shared) two_reach
      (refl, (refl, tt))
