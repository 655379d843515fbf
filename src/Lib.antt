-- ===== src/Lib.antt =====
-- The Control Plane of this repository: it accepts HostClaims over JSON-RPC, keeps them in an SQLite
-- database, and reconciles them with the Hosts of an infrastructure provider.
--
-- The parts, and the files that model them:
--
--   Protocol    crates/control-plane-protocol/src/resources.rs: the records of the wire; `Method` and
--               `Messages` are the method names and the messages of rpc.rs there
--   AppErrors   crates/control-plane/src/error.rs: `AppError`, `into_rpc_error`
--   Codec       the texts of uuid, jiff and serde_json, which are parameters of the model; `IsFaithful`
--               says that what they write is read back
--   Domain      crates/control-plane/src/domain.rs: the records, the conditions (`set_condition`) and
--               the retry schedule (`retry_deadline`, `is_due`)
--   Storage     crates/control-plane/src/storage.rs with the tables of
--               crates/control-plane/migrations/control-plane/0001_initial.sql: `Rows`, `Tables`, and
--               the operations in `Claims` and `Hosts`, each under the name it has there; `Ownership`
--               is `connect` with the lock that makes one process the owner of a database, and
--               `Terms` the columns that no reconciliation may change
--   Provider    crates/control-plane/src/provider/mod.rs, the trait as a record of functions, and in
--               `Fake` crates/control-plane/src/provider/fake.rs
--   Rpc         the handlers of crates/control-plane/src/rpc.rs, one clause of `handle` for each method;
--               `Dispatch` finds them by name, `Server` is the loop of `serve_bound`, and `Socket` the
--               socket's file from `prepare_socket_path` to the drop of `SocketPathGuard`
--   Controller  crates/control-plane/src/controller.rs: `Marks` and `Outcomes` write into the records,
--               `Reconcile` and `Deletion` are the work on one claim, `Loop` is `reconcile_once` and the
--               loop of `run`, `Service` the states that requests and rounds reach, and `Calls` what
--               a step asks of the provider
--   Config      crates/control-plane/src/config.rs: the options and their parsers
--   Daemon      crates/control-plane/src/main.rs: what `main` sets up and leaves
--   Cli         crates/control-cli/src/main.rs: `Call` is `RpcClient`, `Output` what is printed for
--               people, `Run` is `run` and `report_error`
--   Base        shared types, tests on numbers and texts, tables as lists of rows, and their lemmas
--   Tests       the model and its theorems at concrete inputs
--
-- State. A `Db` is the two tables. An operation of `Storage` is a function of it that answers a
-- `Result` and the new tables; `transaction` is begin to commit, and an error rolls back. The handlers
-- act on `Shared`, the database with the permit of tokio's `Notify`. A step of the controller acts on a
-- `World`, which has `Shared`, the state of the provider, and the requests that are handled while the
-- controller waits: `interleave` handles a batch before every call of the storage or the provider, so a
-- theorem on all worlds holds for every interleaving. The clock and new identifiers are arguments.
--
-- The server's loop is a partial step on events, with the permits that are left and the tasks that run;
-- the socket's file is the state of its path, which other processes may change before every call; the
-- lock files of all processes are a list. The client acts on the state of what answers it: `Wire` is
-- the connection with the crates that make it, and `Loopback` says that it hands messages on.
--
-- Interfaces. `Storage.Invariant.Interface.IsInvariant` says what a property of the database needs of
-- the SQL statements, where the deletion of a claim is requested just if that is allowed, and
-- `Storage.Invariant.Guarded.IsDeletionGuard` what has to be known of a claim before its row is removed.
-- `Storage.Invariant.Operations` and `HostOperations`, `Rpc.Preserved` and `Controller.Preserved` carry
-- such a property through every operation, handler and step; `Consistent`, `Checked` and `Standing` are
-- three. `Controller.Service.Asks` says of a run, with the requests that arrive during its rounds, which
-- deletions are asked for in it.
--
-- Bounds. Integers are the native naturals, or `pos` and `negsuc` of them for i64; what saturates or is
-- range-checked in the source is written out (`saturating_add_i64`, `to_i64`, `to_u32`). A scan is a
-- recursion on the list of claims, and a round on the 64 steps that the source allows. Only `decimal`
-- has fuel, twenty digits, which is enough for every u64.
--
-- Not modelled: I/O errors of SQLite once a database is open, how hyper and jsonrpsee serve a connection
-- with their timeouts and size limits, what clap, serde_json and parse_size read and write, the logs and
-- the build metadata, and the host agent, which is a stub.
pub mod Base
pub mod Protocol
pub mod AppErrors
pub mod Codec
pub mod Domain
pub mod Storage
pub mod Provider
pub mod Rpc
pub mod Controller
pub mod Config
pub mod Cli
pub mod Daemon
pub mod Tests
