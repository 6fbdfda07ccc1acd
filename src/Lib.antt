-- ===== src/Lib.antt =====
-- The core of the A2A proxy: a server that accepts tasks for agents, a dispatcher that sends them downstream
-- with retries and fallbacks, a store of task responses, a durable ledger of jobs in PostgreSQL, and workers
-- that lease jobs from the ledger and execute them by the dispatcher.
--
-- The parts and their files:
--   - Prelude: lists, texts, integers, finite maps, results and tests that the parts share.
--   - Job (pkg/model/job.go): states, snapshots, lease fences and the validation of inputs.
--   - A2a (pkg/model/a2a.go, pkg/model/error.go): tasks, responses and errors.
--   - Ledger (pkg/storage/postgres_jobs.go, pkg/storage/job_repository.go and the table of
--     pkg/storage/migrations/002_create_durable_jobs.sql). Row is the table; Statements has the WHERE and
--     SET clauses of each SQL statement; Repository has one function for each method of the repository,
--     in the monad of Repository/Monad, in which a round trip is answered, refused, or executed with its
--     answer lost. Constraints has the CHECK constraints, which the INSERT tests; Checked proves that no UPDATE
--     breaks them, and that they refuse no accepted input with a SHA-256 hash. Action and Table run sequences of
--     calls. The other files hold proofs.
--   - TaskStore (pkg/storage/memory.go): the bounded FIFO store; Save is the composition of its loops.
--   - PostgresStore (pkg/storage/postgres.go): the task store over a table of results, with the same keys as TaskStore.
--   - Migrations (pkg/storage/migrations.go): the reading of the migrations and their run in one transaction. The files
--     have distinct versions, so that the map of the known ones is a search. Go reads the map of the recorded ones in
--     any order: the error returned can be that of another row.
--   - Config (pkg/config/config.go, pkg/config/loader.go, pkg/config/validator.go): the configuration, its
--     defaults, and its validation: Agents, Sections and Validator have the parts, Cycles the search for cycles
--     of fallbacks, Validation the function Validate.
--   - Dispatcher (pkg/dispatcher/dispatcher.go, pkg/dispatcher/retry.go): Retry has the attempts at one agent,
--     Fallback the cascade and the entry points Dispatch, DispatchSingleAttempt and DispatchStream.
--   - Adapter (pkg/adapter): Requests has the requests that the five adapters make, Replies the responses that they
--     read, Streaming, Lines and Paths their streams, Registry the registry. The package gjson, encoding/json and
--     text/template are parameters, and so is what net/http accepts as a URL.
--   - Worker (pkg/worker/executor.go, pkg/worker/worker.go): Executor and Execution have the execution of one
--     job and its failures, Guards the settings of the engine, Slots the poll loop with the tokens of its capacity,
--     Processing the handling of one leased job over the ledger, Renewal the loop that renews its lease.
--   - Metrics (pkg/metrics/metrics.go): the registry and the methods that write it; Gather has the text of the
--     metrics, Labels the escaping of its values, Sorting the order of its lines.
--   - Stream (pkg/stream/sse.go): server-sent events; Reader has a reader of them.
--   - Server (pkg/server/middleware.go, pkg/server/a2a_handler.go, pkg/server/request_body.go,
--     pkg/server/stream_emitter.go): Access has the middleware that authenticates clients, Authentication what it
--     lets pass, Wrapping the middleware that counts requests, Tasks the handlers DispatchTask and GetTask, Agents the handlers ListAgents and GetAgent, Streams the
--     handler DispatchTaskStream.
--
-- How the code is read. Each SQL statement is atomic, and calls of all clients form one sequence, in the order
-- in which the database takes them. The time of a statement is the database's, in microseconds. SKIP LOCKED
-- is a test on rows, which may be any. JSON encoding, hashing and the cast ::jsonb are the
-- functions of Payloads.Encoding. The HTTP client, the context, the timers and the adapters are, for the dispatcher, the functions of
-- Dispatcher.World and Dispatcher.Adapter, over a state of their own; a context that is done is read once where the code reads it
-- twice in a row. A trace records the requests, the counted retries and fallbacks, and the events passed on.
-- Case folding in the comparison of capabilities is that of the ASCII letters. A Go `int` is an integer of any
-- size, since the configuration and the columns bound those that are computed with.
--
-- Fuel. The recursion from an agent to its fallback agents is on fuel, one more than there are agents, which is
-- enough because each call marks an agent. The search for cycles is on fuel for its depth, as much as there are
-- agents, which is enough because each call opens an agent. All other loops are structural.
--
-- Not modelled: the REST and health handlers, the router, the request ids and the recovery of panics of the server,
-- the constructors of the PostgreSQL task store and its bundle, the connection pool, logging, and the entry point. Of the
-- configuration, the reading of files and of the environment, and the parsing of URLs, which is a parameter of
-- Validate; of the engine, the phases of shutdown. In Processing, the calls of the renewal loop are among those
-- that may happen during an execution.
pub mod Prelude
pub mod Job
pub mod A2a
pub mod TaskStore
pub mod Config
pub mod Adapter
pub mod Metrics
pub mod PostgresStore
pub mod Migrations
pub mod Dispatcher
pub mod Worker
pub mod Stream
pub mod Server
pub mod Ledger
