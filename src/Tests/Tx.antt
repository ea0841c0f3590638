-- ===== src/Tests/Tx.antt =====
-- The contract client and the executor on a sample contract.
use tx_xrpl_token_migrator.Base.{
  ℕ, zero, suc, ◌+◌, ◌%◌, ◌≡◌, refl, ◌↔◌, inl, Bool, true, ◌&&◌, none, some, List, [], ◌∷◌, ◌++◌,
  map, filter, All, arith, length, ◌==◌, if◌then◌else◌,
}
use tx_xrpl_token_migrator.Base.Int.{pos, leb_ℤ}
use tx_xrpl_token_migrator.Base.Str.{Str, codes, str_eq}
use tx_xrpl_token_migrator.Base.Substring.{contains, has_prefix}
use tx_xrpl_token_migrator.Base.Go.{Go, ok, err, Error, new_error}
use tx_xrpl_token_migrator.Sdk.{Coin}
use tx_xrpl_token_migrator.Finder.Build.{Pending}
use tx_xrpl_token_migrator.Xrpl.Scanner.{Ending}
use tx_xrpl_token_migrator.Xrpl.Rpc.Call.{wrap_err}
use tx_xrpl_token_migrator.Tx.Contract.Types.{
  ContractClientConfig, Config, ExecMethod, QueryMethod, PendingTransaction,
}
use tx_xrpl_token_migrator.Tx.Contract.Cosmos.{Chain, Msg}
use tx_xrpl_token_migrator.Tx.Contract.Errors.{
  is_error, is_evidence_provided_error, is_transfer_sent_error,
}
use tx_xrpl_token_migrator.Tx.Contract.Execute.{address_or_error, build_execute_with_funds}
use tx_xrpl_token_migrator.Tx.Contract.Paging.{paginate_transactions}
use tx_xrpl_token_migrator.Tx.Contract.Query.{query, get_contract_config, get_pending_txs}
use tx_xrpl_token_migrator.Tx.Contract.Pending.{
  Split, has_id, message_of, messages_of, get_all_pending_transactions,
}
use tx_xrpl_token_migrator.Tx.Contract.Pending.Partition.{Paged, split_of, pending_partition}
use tx_xrpl_token_migrator.Tx.Contract.Pending.Messages.{Builds, selected, messages_selected}
use tx_xrpl_token_migrator.Tx.Contract.Pending.Ids.{id_of}
use tx_xrpl_token_migrator.Executor.{
  client_of, ContractClient, Round, Event, attempt, retry_transaction, start,
}
use tx_xrpl_token_migrator.Executor.Attempt.{IsSettled, IsRepeated, attempt_ends, retry_finishes}
use tx_xrpl_token_migrator.Executor.Sends.{IsRequest, start_sends}
use tx_xrpl_token_migrator.Executor.OnChain.{refused_evidence_ends}
use tx_xrpl_token_migrator.Metric.Recorder.{new_recorder}
use tx_xrpl_token_migrator.Metric.Collector.{collect_pending_transactions}
use tx_xrpl_token_migrator.Metric.Collector.Counts.{Shows, gauges_count}
use tx_xrpl_token_migrator.Tests.Samples.{sdk}

abbrev pub contract_cfg : Config
contract_cfg = record {
  owner = codes "o";
  trusted_addresses = [];
  threshold = 2;
  min_amount = pos 5;
  max_amount = pos 100;
  xrpl_tokens = [];
  version = 1;
}

abbrev tx : Str → List Str → PendingTransaction
tx id providers = record {
  evidence_id = id;
  transaction = record {
    amount = record { denom = codes "utx"; amount = pos 7 };
    recipient = codes "r";
    evidence_providers = providers;
  };
}

abbrev one_provider : List Str
one_provider = codes "p" ∷ []

abbrev two_providers : List Str
two_providers = codes "p" ∷ codes "q" ∷ []

abbrev pending : List PendingTransaction
pending =
    tx (codes "A") one_provider ∷ tx (codes "B") two_providers ∷ tx (codes "C") two_providers ∷ []

-- More transactions than a page of the contract has.
abbrev numbered : ℕ → List PendingTransaction
numbered zero = []
numbered (suc n) = tx (n ∷ []) (if n % 2 == 0 then one_provider else two_providers) ∷ numbered n

abbrev many : List PendingTransaction
many = pending ++ numbered 500

abbrev are_valid : List Coin → Bool
are_valid [] = true
are_valid (c ∷ coins) = leb_ℤ (pos 0) c.amount && are_valid coins

-- A query is its own answer; coins of a negative amount are refused.
abbrev chain_of : List PendingTransaction → Chain
chain_of txs = record {
  TxResponse = Unit {0};
  broadcast_tx = λ sender msgs. ok tt;
  smart_contract_state = λ contract payload. ok payload;
  find_contract_address = λ res. ok (codes "tc");
  find_code_id = λ res. ok 1;
  marshal_exec = λ req. elim req [ ExecMethod.execute_pending id ↦ ok id | _ ↦ ok [] ];
  marshal_query = λ req. elim req [
    | QueryMethod.get_pending_transactions p ↦ elim p.offset [
      | none ↦ ok []
      | some o ↦ elim p.limit [ none ↦ ok [] | some l ↦ ok (o ∷ l ∷ []) ]
    ]
    | _ ↦ ok []
  ];
  marshal_instantiate = λ req. ok [];
  unmarshal_config = λ s. some contract_cfg;
  unmarshal_transaction = λ s. none;
  unmarshal_pending = λ s. elim s [
    | [] ↦ none
    | o ∷ l ∷ t ↦ some (paginate_transactions txs (some o) (some l))
    | _ ↦ none
  ];
  unmarshal_sent = λ s. none;
  new_coins = λ coins. if are_valid coins then some coins else none;
}

abbrev pub chain : Chain
chain = chain_of pending

abbrev client_cfg : ContractClientConfig
client_cfg = record {
  contract_address = some (codes "c");
  tx_denom = codes "utx";
  contract_page_size = 500;
}

chain-Paged : (txs : List PendingTransaction) → Paged sdk (chain_of txs) client_cfg txs
unfolding get_pending_txs query wrap_err address_or_error
chain-Paged txs offset limit = refl

config_read :
    (txs : List PendingTransaction)
    → get_contract_config sdk (chain_of txs) client_cfg ≡ ok contract_cfg
unfolding get_contract_config query wrap_err address_or_error
config_read txs = refl

many-length : length many ≡ 503
many-length = refl

abbrev parts : Split
parts = record {
  unapproved = tx (codes "A") one_provider ∷ [];
  approved = tx (codes "B") two_providers ∷ tx (codes "C") two_providers ∷ [];
}

pending_partition_example :
    get_all_pending_transactions sdk (chain_of many) client_cfg 600 ≡ some (ok (split_of 2 many))
pending_partition_example =
    pending_partition sdk (chain_of many) client_cfg many 600 contract_cfg (config_read many)
      (chain-Paged many) refl (omega (arith, many-length)) (omega (arith, many-length))

gauges_count_example :
    Shows sdk client_cfg parts (
      collect_pending_transactions sdk client_cfg
        ((record { chain = chain; fuel = 4 }, none) ∷ [])
        new_recorder)
    × (length parts.unapproved + length parts.approved ≡ 3)
gauges_count_example =
    gauges_count sdk client_cfg chain pending [] 4 contract_cfg new_recorder tt
      (config_read pending) (chain-Paged pending) refl (omega arith) (omega arith)

abbrev message : PendingTransaction → Msg
message t =
    Msg.msg_execute_contract (codes "ts") (codes "tc") t.evidence_id (t.transaction.amount ∷ [])

builds : All (Builds sdk chain client_cfg (codes "s") message) parts.approved
unfolding message_of wrap_err build_execute_with_funds address_or_error
builds = (refl, (refl, tt))

messages_selected_example :
    (messages_of sdk chain client_cfg (codes "s") (codes "C" ∷ []) parts
      ≡ ok (message (tx (codes "C") two_providers) ∷ []))
    ↔ (All (λ id. has_id id (map id_of parts.approved) ≡ true) (codes "C" ∷ [])
        × (message (tx (codes "C") two_providers) ∷ []
            ≡ map message
                (filter (selected (length (codes "C" ∷ []) == 0) (codes "C" ∷ [])) parts.approved)))
unfolding str_eq
messages_selected_example =
    messages_selected sdk chain client_cfg (codes "s") message (codes "C" ∷ []) parts
      (message (tx (codes "C") two_providers) ∷ []) ((refl, tt), (tt, tt)) builds

abbrev txn : Pending
txn = record {
  tx_destination = codes "ab";
  tx_amount = record { denom = codes "utx"; amount = pos 7 };
  xrpl_tx_hash = codes "H";
}

abbrev answering : Go (Unit {0}) → ContractClient
answering r = record { send = λ sender requests. r; contract_config = ok contract_cfg }

abbrev busy : Error
busy = new_error (codes "timeout")

abbrev provided : Error
provided = new_error (codes "rpc: Sender already provided the evidence")

abbrev failing : Round
failing = record { client = answering (err busy); done = none }

abbrev refusing : Round
refusing = record { client = answering (err provided); done = none }

attempt_ends_example :
    ((attempt sdk (codes "s") (answering (err provided)) txn).1 ≡ ok tt)
    ↔ IsSettled sdk (codes "s") (answering (err provided)) txn
attempt_ends_example = attempt_ends sdk (codes "s") (answering (err provided)) txn

settled : IsSettled sdk (codes "s") (answering (err provided)) txn
unfolding is_evidence_provided_error is_error contains has_prefix
settled = IsSettled.is_known contract_cfg provided refl refl (inl refl)

failing-IsRepeated : IsRepeated sdk (codes "s") txn failing
unfolding attempt is_evidence_provided_error is_transfer_sent_error is_error contains has_prefix
failing-IsRepeated = ((busy, refl), refl)

retry_finishes_example :
    (retry_transaction sdk (codes "s") txn (failing ∷ refusing ∷ []) []).1 ≡ Ending.finished
retry_finishes_example =
    retry_finishes sdk (codes "s") txn (failing ∷ []) refusing [] [] (failing-IsRepeated, tt)
      settled

start_sends_example :
    All
      (IsRequest sdk (codes "s") (txn ∷ []))
      (start sdk (codes "s") (Event.receive txn (failing ∷ refusing ∷ []) ∷ Event.stop ∷ []) []).0
start_sends_example =
    start_sends sdk (codes "s") (Event.receive txn (failing ∷ refusing ∷ []) ∷ Event.stop ∷ [])

abbrev refusing_chain : Chain
refusing_chain = record chain { broadcast_tx = λ sender msgs. err provided }

refusing_config : get_contract_config sdk refusing_chain client_cfg ≡ ok contract_cfg
unfolding get_contract_config query wrap_err address_or_error
refusing_config = refl

provided-known : is_evidence_provided_error (some provided) ≡ true
unfolding is_evidence_provided_error is_error contains has_prefix
provided-known = refl

refused_evidence_ends_example :
    (attempt sdk (codes "s") (client_of sdk refusing_chain client_cfg) txn).1 ≡ ok tt
refused_evidence_ends_example =
    refused_evidence_ends sdk refusing_chain client_cfg (codes "s") txn contract_cfg (codes "c") []
      provided refusing_config refl refl refl (inl provided-known)
