-- ===== src/Lib.antt =====
-- The TransityTerminal reservation engine: holds on the seats of a trip, their confirmation, release
-- and expiry over two Postgres tables, and the HTTP server that offers these operations.
--
-- The engine, engine/crates/engine-core/src
--   A seat has one row of seat_inventory per leg, which is booked or carries the ref of a hold; each
--   hold has a row of seat_holds. An operation is one transaction, after whose commit it publishes.
--   * types.rs, error.rs: Engine/Types; the JSON of AtomicHoldResult: Engine/Wire. The tables of
--     engine/migrations and the calls of sqlx: Engine/Database, the clauses of SQL in
--     Engine/Database/Sql, the WHERE conditions in Engine/Database/Where.
--   * events.rs: Engine/Events (the trait as a record over the publisher's state).
--   * hold.rs (atomic_hold, run_hold_txn): Engine/Hold; confirm.rs: Engine/Confirm; cancel.rs:
--     Engine/Cancel; release.rs: Engine/Release; reaper.rs (expire_holds, run_reaper): Engine/Reaper;
--     snapshot.rs: Engine/Snapshot. The children named Outcome say what each leaves behind on every
--     branch.
--   * The operations together: Engine/System, whose histories are sequences of operations; the
--     invariants of histories: Engine/Invariant and Engine/Backing; operations one after the
--     other: Engine/Lifecycle.
--
-- The server, engine/crates/engine-server/src
--   A request passes `verify`, then the idempotency `layer`, then a handler that calls the engine.
--   * error.rs: Server/Http; state.rs: Server/State; routes.rs: the handlers in Server/Routes, the
--     routes and the middlewares around them in Server/App.
--   * middleware/hmac.rs: Server/Hmac, with the client's `sign` of engine/loadtest/src/main.rs in
--     Server/Hmac/Sign, which writes the signed text by a format of its own; what a signature binds:
--     Server/Hmac/Split, Signed and Unsigned.
--   * middleware/idempotency.rs: the store in Server/Store, the middleware in Server/Layer, the cache
--     key in Server/Layer/Key.
--   * config.rs: Server/Config, with the meaning of a variable in Server/Config/Setting and of all of
--     them in Server/Config/Laws; main.rs: Server/Boot up to the state (what a start yields:
--     Server/Boot/Ready and Cases), and Server/Service for what it leaves running; reaper_task.rs:
--     Server/Tasks, where every tick has an `Env` of its own.
--
-- The load test, engine/loadtest/src/main.rs
--   It seeds seats by SQL, holds and then confirms or releases them over HTTP, counts, and cleans up.
--   * run_one with the counters: Loadtest; the seeding, the operations and the cleanup of main:
--     Loadtest/Seed. `Stats.held` is the source's `ok`. What is counted: Loadtest/Counts; what the
--     seeding and the cleanup do to the tables: Loadtest/Seats and Loadtest/Trace, over Names (LIKE),
--     Else, Ops and Seeding.
--   * Loadtest/Network puts the server at the other end of the client's `send`: its children follow a
--     hold and its release through the middlewares and the handlers to the tables, and back.
--
--   Common has what these share: tests, lists and integers over the native numbers, text, the
--   functions of Rust's standard library (Common/Std), and code that may fail.
--
-- How the code is modelled
--   * State is passed on explicitly: `Action E S A` takes a state to a result and a state. The
--     database has committed tables and the working copy of the running transaction; a call of sqlx
--     may fail (`Env.fails`, by the kind of call), and then it has no effect. A commit that fails
--     leaves the committed tables as they were; a commit that is made and reported as failed is not
--     modelled.
--   * Each operation has an `Env` of its own: the clocks of the application, of the events and of the
--     database (now() is that of the start of a transaction), the fresh uuid and its text. Different
--     operations may have any clocks. The two events of a release have one reading of the clock as
--     their time, where the source reads it for each; the database keeps microseconds of
--     `expires_at`, and so does the reply here.
--   * An operation's transaction is run as a whole. Engine/Interleaved has transactions that overlap in
--     time, as a step relation: a hold, a confirmation or a release takes its locks by FOR UPDATE,
--     which waits for the locks of others, and writes and commits, or rolls back, later; its SELECT
--     with the checks is one step, its writes with the commit another. SKIP LOCKED of the reaper leaves
--     out the rows of `Env.row_locked`, and other sessions appear in the advisory lock.
--   * An instant is a number of microseconds, a timestamp of the HMAC one of seconds; both are
--     integers. Overflow of chrono's arithmetic, which panics, is not modelled; the 64-bit
--     subtraction of the skew test and the casts of a status are, with their wrap-around.
--   * Text is a list of code points, bytes are numbers; `as_bytes` is UTF-8. Decimal printing takes
--     20 digits of fuel, which are enough for 64 bits.
--   * SQL is read as the language that the statements are written in. A LIMIT without ORDER BY takes
--     rows in the order of the table; the collation of ORDER BY is a parameter. A column that does
--     not decode to its Rust type (`try_get`) is not modelled.
--   * Other crates are parameters: `Libs` has SHA-256, HMAC, hex, to_bytes, status codes and the texts of
--     errors, `Codec` the extractors and the JSON of axum, `Outside` what the start asks of the world.
--     Theorems name what they rely on of them as hypotheses.
--   * The load test's operations run one after the other; the network, as the state of `Crates.send`,
--     answers each request or fails.
--   * The running server is a sequence of events: a request with all its calls, or a tick of a task.
--     Two requests under one idempotency key that overlap in time: Server/Layer/Overlap.
--
-- Not modelled: logging, the Redis client behind RedisPublisher, the serde derives of other types
-- than AtomicHoldResult, timers and the scheduling of tasks, the parity tests, the load test's
-- arguments, choice of a trip and of a tag, health check and printed latencies, and the build and
-- deployment files: they are input and output, or code of other libraries.
pub mod Common
pub mod Engine
pub mod Loadtest
pub mod Server
