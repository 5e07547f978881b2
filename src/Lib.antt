-- ===== src/Lib.antt =====
-- The API of a service that mints tokens for payments, Go code under api/ of the repository, and the
-- escrow contract that it calls, under contracts/.
--
-- A client sends a mint request; the API checks its signature (internal/hmacauth), looks its
-- idempotency key up (internal/idempotency), submits an intent to the escrow contract
-- (internal/escrow) and keeps the response. A payment provider then calls back; the API checks that
-- signature, looks the payment up in the same store, executes the mint with retries, and keeps the
-- response or, where the mint fails, writes a dead letter (internal/server). The settings come from
-- a seed, a deployment file and the environment (internal/config).
--
-- Which file models which code:
--   Hmac         api/internal/hmacauth/middleware.go: Verifier.verify is `verify`, readBody
--                `read_body`, computeSignature `compute_signature`, Middleware `middleware`.
--   Idempotency  api/internal/idempotency. Defs has Record, the interface Store (`Store`) and what
--                it promises (`IsLawful`): a map in which expired records are absent. Memory and
--                File are the two stores of store.go, Postgres is postgres_store.go. Each has
--                `get` and `save` for Get and Save; File has `persist` and `load`, Postgres
--                `delete_key` and the connection; its SQL is `Statement`.
--   Escrow       api/internal/escrow. Defs is interfaces.go, Fake is fake_client.go, Eth is
--                eth_client.go with its byte strings in Eth/Bytes, Receipt is WaitForReceipt.
--   Server       api/internal/server. Defs has the state of server.go; Mint is handleMintIntents,
--                Callback is handleMpesaCallback, Retry is executeMintWithRetry, Dlq is writeDLQ and
--                the depth of the queue, Health is handleHealth, Serve is the routes of NewServer
--                with requestIDMiddleware. Metrics is metrics.go, whose calls are `MetricCall`.
--                Accounts states the metrics as an account of the calls on the chain, which the files
--                named Accounted keep; the files named Kept carry a property of the store over requests.
--   Contracts    contracts/src/MintEscrow.sol: MintEscrow has the state and the functions, Transactions
--                the states that can be reached. UserRegistry is contracts/src/UserRegistry.sol, and
--                Compliance has both.
--   Config       api/internal/config/config.go: Load is `load`, envOr `env_or`, envOrInt
--                `env_or_int` (Config/Env).
--   Startup      api/cmd/server/main.go: `main`, with the choice of the store and of the client, and
--                `service_of` for NewServer. Run has the requests that the server answers, with its
--                health functions, and the end of main.
--   FilePath     the part of path/filepath, as on Unix, that the API uses: Clean, Join and Dir.
--   Text, Time, Http, Base
--                what the API uses of Go's language and standard library: byte strings, int64 and
--                Duration with their wrap-around, requests with their readers, results with errors.
--   Examples     the theorems at concrete inputs, and tests.
-- A file named Laws, or for what it proves, has the theorems on its parent.
--
-- A call of the contract is one transaction: it reverts, or returns with the next state. `Reachable` has
-- every state after a deployment and any transactions, between which the roles, by AccessControl's own
-- functions, and the tokens may change in any way.
--
-- State is passed explicitly. A handler is a function from the request and the server's state to
-- the response and the next state; the state has the store's records, the chain behind the client,
-- the files, the calls made on the metrics and the waits. What time.Now() returns at each place is
-- an argument (`Readings`), and so is what ends a context (`cancelled`). `serve_all` is a sequence of
-- requests, one after the other. The store and the client are interfaces: `Parts` has one of each. The
-- client is arbitrary, and so is the store, which is supposed lawful where its answers matter.
--
-- Bounds: int, int64 and time.Duration are integers, and what the source multiplies or subtracts is
-- wrapped at 64 bits (`mul64`, `wrap64`). The natural numbers of the model have no bound.
-- Fuel: the retry loop is a recursion on the attempts that are left, which the source bounds too.
-- The bytes of a number are computed with as many rounds as the number and one more, and each
-- round divides by 256. WaitForReceipt has no bound of its own: its model takes
-- fuel, and wait_for_receipt_lem says how much is enough.
--
-- Parameters: HMAC-SHA-256, SHA-256 and Keccak-256, encoding/json, the file system, pgx and its
-- database, go-ethereum and its node, OpenZeppelin's contracts with the tokens, what a registry
-- answers to MintEscrow, the registry of Prometheus and its page, and the answer of http.ServeMux to other paths.
--
-- Two file systems: the disk of the file store and the files of the dead letters are apart in the model.
-- In the program they are one, and a dead letter whose reference leads out of the queue directory may
-- overwrite the store's file; where that would matter, no callbacks are let in. A file of records that
-- holds the JSON text null is not modelled: the program then has a nil map, and the next Save panics.
--
-- Not modelled: the signals and the server of net/http, which Start and Shutdown call; the log; the
-- inside of Prometheus; ComplianceManager and the tokens under contracts/, and the functions of MintEscrow that only
-- read.
--
-- Requests that run at the same time are modelled by their steps: Server/Mint/Steps and
-- Server/Callback/Steps split the handlers at the calls Get, SubmitIntent, ExecuteMint and Save, which
-- are atomic, as the mutex, the node or the database makes them, and Server/Interleave runs the steps of
-- several requests in any order. `serve_all` interrupts no request.
pub mod Base
pub mod Text
pub mod FilePath
pub mod Time
pub mod Http
pub mod Hmac
pub mod Config
pub mod Idempotency
pub mod Contracts
pub mod Escrow
pub mod Server
pub mod Startup
pub mod Examples
