-- ===== src/Lib.antt =====
-- A verification library for Conductor, a distributed job orchestrator in Python: workflows are
-- graphs of tasks, a run of a workflow has a row per task, and worker processes claim rows from a
-- PostgreSQL table that serves as the queue. They take a lease, execute, and record the outcome,
-- which releases the tasks that depend on it; a reaper returns the tasks of dead workers.
--
-- The parts and the files that model them:
--
--   State.antt      conductor/core/state.py. The two enumerations, the transition tables and
--                   `derive_run_state`. State/Table, State/Quantify, State/Derive, State/Shuffle and
--                   State/Progress hold the proofs.
--   Retry.antt      conductor/core/retry.py. The three policies are the constructors of
--                   RetryPolicy; Retry/Build is `build_policy` and `describe`.
--   Queue.antt      conductor/db/repositories/runs.py over the tables of conductor/db/models.py.
--                   Queue/Rows holds the rows and the CHECK constraints, Queue/Monad the
--                   statements on them, Queue/Claim `claim_batch` and `renew_lease`,
--                   Queue/Complete the completion, the expiry of leases and the internals, and
--                   Queue/Runs `create_run`, `refresh_run_state` and `cancel`. The other files
--                   hold the proofs: Queue/Moves, Queue/Keeps and Queue/Fits the rules by which an
--                   operation is shown to keep the invariant, Queue/Traces the interleavings of
--                   transactions, and one file per behaviour after that.
--   Dag.antt        conductor/core/dag.py. The graph is its two dictionaries; `from_dependencies`
--                   and the loop of `topological_order` stand there, `_find_cycle` and the whole of
--                   `topological_order` in Dag/Cycle. Dag/Mirror and Dag/Build hold what the
--                   construction keeps, Dag/Rounds, Dag/Kahn, Dag/Served and Dag/Count the proofs about the
--                   loop, the files of Dag/Cycle those about the search (Rule states what its loop
--                   keeps), and Dag/Total puts both together. Dag/Cursor is `DagCursor`.
--   Heap.antt       conductor/core/heap.py. The array and the index of `DelayQueue` as a list and a
--                   dictionary, and its methods. Heap/Index holds the proofs about the index,
--                   Heap/Order and Heap/Sifts those about the order, and Heap/Push, Heap/Remove,
--                   Heap/Take and Heap/Drain those about the operations.
--   Lru.antt        conductor/core/lru.py. A node is an address and each attribute a function of
--                   it, so that the writes of the links are those of the code. Lru/Chain and
--                   Lru/Links hold the proofs about the list, Lru/Entries, Lru/Moves and Lru/Holds
--                   what a cache stands for, Lru/Recency the abstract cache, Lru/Refines and
--                   Lru/Traces that the one does what the other says, and Lru/Bounds its size.
--   RateLimit.antt  conductor/core/ratelimit.py. `TokenBucket`, `RateLimiter` and the functions of
--                   their methods; the clock is read once in a call.
--   Pages.antt      conductor/db/repositories/base.py and the two methods `list_page`. Pages/Walk and
--                   Pages/Follow are about a client that follows the cursors.
--   Workflows.antt  conductor/db/repositories/workflows.py. `create` over the graph, the policies and
--                   the tables. Workflows/Valid is about its checks, Workflows/Publish about its rows, and
--                   Workflows/Edges, /Grouped, /Orders and /Restored about its dependencies
--                   read back.
--   Api.antt        conductor/api/routes/runs.py and the status codes of conductor/api/errors.py.
--                   Api/Replay is about the idempotency keys, and Api/Schemas and Api/Policies about the
--                   retry policies that conductor/api/schemas.py accepts.
--   Worker.antt     conductor/worker/worker.py. `run_once` and `_execute` as transactions of the
--                   queue; Worker/Batch holds the proofs.
--
-- How the code is read. A transaction is a function from the tables to a result and the tables: an
-- exception rolls back, so an error carries no tables. `UPDATE task_runs` is refused as a whole when
-- one of the rows it writes would break a CHECK constraint. Each method of the repository is one
-- transaction, with the refresh of the run where the worker adds one; a schedule is any
-- sequence of transactions of any processes with any clocks. SKIP LOCKED is a predicate on row ids
-- that the claim receives. A UUID and a worker's name are numbers, an instant is a count of
-- microseconds, a JSON object a list of texts. The clock of the process (`utcnow`) and that of the
-- database (`now()`) are separate and arbitrary. Python's floats (delays, factors) are whole
-- millionths, the resolution of `timedelta`, and a power of the backoff factor is rounded down to
-- it; a power that leaves the floats of 64 bits is an OverflowError, as in Python. The random source
-- is a 53-bit draw that the caller passes. The refill rate is in millionths of a token per second and
-- a token a million times a million shares, so that a refill is exact, without the rounding errors of
-- the floats; the time to wait is rounded down to the microsecond. The order in which the database
-- returns the rows of a query without ORDER BY is a parameter, RowOrder.
--
-- Fuel. `_block_descendants` loops while it blocks rows; it gets one round more than the table has
-- rows, and it is shown to return. Kahn's loop gets one round more than there are nodes, and is
-- shown to end. The search for a cycle gets a round for each node, one for each edge and one more: a
-- round leaves a node or looks at one edge, and the search is shown to end. Sifting up gets as many rounds as the position, and
-- sifting down as many as the heap has entries: the position shrinks or grows in each.
-- Draining the delay queue gets a round for each entry and one more. All are shown to be enough.
--
-- Following the pages gets a round for each row and one more. The texts of cursors are taken as
-- what they encode, and the hash of a request's body as an argument.
--
-- Not modelled: the choice of PostgreSQL among rows that the ORDER BY leaves equal (the model keeps
-- the order of the table), the ORM's identity map, the HTTP framework with its validation, the
-- processes themselves (signal handlers, threads, sessions), the executors' effects, and the
-- configuration.
pub mod Common
pub mod State
pub mod Retry
pub mod Heap
pub mod Lru
pub mod RateLimit
pub mod Dag
pub mod Queue
pub mod Pages
pub mod Workflows
pub mod Worker
pub mod Api
