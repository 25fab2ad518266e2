-- ===== src/Lib.antt =====
-- A model of the account service: the double-entry ledger with two-phase holds, the transaction
-- wrapper with its retries, the gRPC API with idempotent requests, the HTTP API behind the
-- gateway's assertions, the event format and its validation, the relay of the outbox and the
-- consumer of events.
--
-- The service keeps all its state in PostgreSQL. The model has the tables as one record of lists
-- (Schema.Store, after migrations/00001_initial.sql), and code that runs inside a transaction is a
-- function from a store to a result and a store (Tx). An error leaves no store: the code returns
-- every error up to the transaction, which rolls back. Each SQL statement is one definition under
-- Sql, with the constraints of its table as checks that raise the SQLSTATE that PostgreSQL raises.
--
-- Prelude: names of the library, Boolean tests, integers (Int) and Go's int64 (Word).
-- Schema: the tables, and what the process takes from libraries (Runtime: random ids, their text
-- form and parser, the text form of a time).
-- Tx: errors and transactions.
-- Sql.Journal, Sql.Balances, Sql.Holds: the statements of internal/ledger, internal/outbox and
-- internal/consumer; insert_transaction, insert_entry, bump_balance (`bumpBalance`), lock_balance
-- (`lockBalance`), lock_hold (`lockHold`), write (`Writer.Write`).
-- Ledger.Posting: `ValidateBalanced` (internal/ledger/validate.go) and `post`
-- (internal/ledger/ledger.go); the map of sums is an association list of int64.
-- Ledger.Operations: `Hold`, `Capture`, `Release`, `ReleaseByPayment`, `Deposit` and
-- `SweepExpiredHolds` (internal/ledger/operations.go).
-- Ledger.Retry: `InTx` (internal/ledger/ledger.go). A Database says which transactions others
-- commit before an attempt and with which error an attempt ends, if it does. The five attempts of
-- the code are the fuel.
-- Sql.Fetch: what comes of a query for several rows (a Fetch): all of them, an error, or the first
-- rows and an error behind them.
-- Ledger.Reconcile: `Reconcile` (internal/ledger/reconcile.go).
-- Ledger.Effects, Ledger.Books, Ledger.History: what a successful operation changes, the
-- invariant of the money tables, and sequences of operations.
-- Grpc: `HoldFunds`, `CaptureFunds`, `ReleaseFunds` and `GetBalance` (internal/grpcapi/server.go).
-- The generated messages are outside the repository: records of the fields that the code uses,
-- with marshalling as a parameter (Codec).
-- Events.Framing, Events.Validate, Events.Registry: internal/events; JSON, the schema library and
-- the registry's answers are parameters.
-- Http: internal/httpapi/server.go; Http.Routes is `Handler`, Http.Accounts `listAccounts`,
-- Http.Balance `getBalance` with Redis as a list of values and their expiry, and Http.Entries
-- `listEntries`. JSON is a parameter.
-- Gateway: `Middleware` and `New` (internal/gatewayauth/gatewayauth.go), with the check of a token
-- as a parameter; api is the composition of the middleware with the routes (cmd/server/main.go).
-- Outbox: `drainOnce` (internal/outbox/outbox.go), with the answers of the registry, the broker and
-- the database as inputs call by call.
-- Platform: `Load` and `DSN` (internal/platform/config.go).
-- Startup: cmd/server/main.go; `splitCSV` and `selfProbe`. Startup.Boot is `main`, `run`, `migrate`
-- and `every`: a function that returns an error or none gives this result and the list of what
-- it opens, starts and closes, where `defer` is deferring and `if err != nil` is checked; the
-- outcome of every call of a library is an input (Outside). A run is one that is told to stop, or
-- that a goroutine of `every` ends by a panic, some events after its start (until_panic).
-- Migrations: the rows that migrations/00001_initial.sql inserts, and its triggers.
-- Service: the parts at work on one database. An Action is a call of a server, a record of the
-- consumer, a round of a worker or time; act is one action on the state, and run_service is a list
-- of them. The transactions that run beside one are in its Database. Service.Laws is the interface
-- between the ledger and the service, filled by the histories of the ledger (Refines) and by the
-- stored records (Records).
-- Consumer: internal/consumer/consumer.go, with the answers of the registry, the database and the
-- producer as inputs. Consumer.Loop is `Run`: a batch (run_batch), a round of the loop and its
-- rounds, on the offsets of one partition; the client of the broker is a parameter (Client) with
-- the laws that it documents (IsClient).
-- Tests: runs on concrete inputs, and the theorems applied to them.
--
-- Amounts in the tables are natural numbers, as the CHECKs of the columns demand; amounts in Go are
-- integers, and their arithmetic wraps at 64 bits. Ids are natural numbers that are only compared;
-- times are natural numbers. Every loop is structural recursion on a list or on the number of
-- attempts. A client that follows the cursor of `listEntries` has the number of its calls as fuel,
-- and list_entries_complete says how many are enough.
--
-- Not modelled: the indexes of the tables, the timeouts of the servers and the readiness ping of the
-- broker (cmd/server/main.go); logging, pauses and metrics; a commit that takes effect although its
-- answer is lost, or whose context ends while it is under way (`InTx`): an attempt that ends with an
-- error has no effect here.
pub mod Prelude
pub mod Schema
pub mod Tx
pub mod Sql
pub mod Ledger
pub mod Grpc
pub mod Events
pub mod Http
pub mod Gateway
pub mod Platform
pub mod Startup
pub mod Migrations
pub mod Outbox
pub mod Consumer
pub mod Service
pub mod Tests
