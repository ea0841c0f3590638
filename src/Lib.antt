-- ===== src/Lib.antt =====
-- The relayer that migrates tokens from the XRP Ledger to TX. A holder burns tokens on the XRPL by
-- a payment to their issuer with a TX address in the memo; the relayer scans the issuer's history,
-- finds the burns, and submits each as evidence to a contract on TX.
--
-- What is modelled, and where:
-- * relayer/client/xrpl (Xrpl): model.go in Xrpl/Model; rpc.go in Xrpl/Rpc, with the requests and
--   responses (Types), the conversion of transactions (Convert), callRPC and its callers (Call),
--   GetAccountTransactions and SubscribeAccountTransactions (Pages), AutoFillTx, Submit and
--   SubmitAndAwaitSuccess (Submit), and GetTransactions, whose workers are a step relation (Fetch);
--   scanner.go in Xrpl/Scanner.
-- * relayer/finder/finder.go (Finder): ConvertXRPLAmountToTXAmount in Convert, ExtractAddressFromMemo
--   in Memo, receivedAtLeastDeliveredAmount in Burn, buildPendingTransaction in Build, the
--   goroutine of SubscribeTXSendTransactions in Forward.
-- * relayer/metric/recorder.go (Metric/Recorder): the gauges and the counter as a record of values.
-- * relayer/client/tx/contract.go (Tx/Contract): the requests (Types), what it uses of the chain
--   (Cosmos), transactions (Execute), queries (Query), the pending transactions and the messages that
--   execute them (Pending) with their fee and gas (Estimate), and the classes of errors (Errors).
-- * relayer/client/tx/chain.go (Tx/Chain): the transactions of an address, with their paging and
--   the times of their blocks.
-- * contract/src/contract.rs (Tx/Contract/Paging): the pages of its queries.
-- * relayer/executor/executor.go (Executor): the retry of a transfer and the loop of Start.
-- * relayer/metric/tx.go and pusher.go (Metric/Collector): the collected metrics and the pushes.
-- * relayer/cmd/main.go (Cli): the flags (Flags), the configuration that they make (Settings), the
--   tokens to add (Token), the deployment (Deploy) and the other commands (Commands).
-- * relayer/client/xrpl/signer.go (Xrpl/Signer) and relayer/logger/zap.go (Logger).
-- * relayer/audit/audit.go (Audit): events and their coins (Events), the report of calls (Report), the
--   analysis of calls (Calls), the comparison with the XRPL (Compare), and Audit itself (Run).
-- * relayer/watcher/config.go (Watcher), and relayer/service/service.go (Service): the restart loop and
--   createFindersAndAuditConfig (Service), connections and clients (Clients), NewAuditor and
--   NewServices (New).
-- A scan of the XRPL hands each transaction to the finder, which builds a pending transfer or drops
-- the transaction; the executor submits the transfer. Both loops of a scan are schedules: lists of
-- rounds, each with what the outside does in it.
--
-- Go in the model:
-- * A call returns Go (Base/Go): a value, an error with its message and the cause that errors.Is
--   finds, or a panic. The texts of messages are shortened where no code reads them; logging is
--   left out.
-- * An int64 is an integer, wrapped by i64 where the source adds or subtracts; big.Int and big.Rat
--   have no bounds. Strings are lists of bytes (Base/Str).
-- * A channel is the list of what has been sent to it. A `select` on the cancelled context is a
--   number of sends after which it is taken, if at all.
--
-- Parameters, each a record with the documented behaviour as laws of its own: the rippledata package
-- (Ripple), the Cosmos SDK (Sdk), the reader of decimal texts of math/big (Rat), and for each request
-- the node and the JSON decoder (Node in Xrpl/Rpc/Types, TxCodec in Xrpl/Rpc/Submit); the chain that a
-- contract call reaches (Chain in Tx/Contract/Cosmos) and the simulation of its messages (Estimator in
-- Tx/Contract/Estimate), the search of transactions with its decoder and parser (Search in Tx/Chain),
-- the decoders of events and calls (Decoders in Audit/Types), and what the service and the commands use
-- of other packages (World in Service/Clients, Outside in Cli/Settings). Tests/Samples has concrete ones.
--
-- Bounds: a loop over pages or rounds takes a list of nodes or rounds, and its result says so where
-- the list ends before the loop; enough nodes for the pages are as many as the history has items, and
-- one more. Ledgers are taken between 1 and 2^62.
--
-- Not modelled: the declaration of flags and the printing of commands; the tests and the build; and
-- what else the contract does, which is Rust.
pub mod Base
pub mod Rat
pub mod Ripple
pub mod Sdk
pub mod Metric
pub mod Logger
pub mod Xrpl
pub mod Finder
pub mod Tx
pub mod Executor
pub mod Audit
pub mod Watcher
pub mod Service
pub mod Relay
pub mod Cli
mod Tests
