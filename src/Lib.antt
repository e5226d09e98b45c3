-- ===== src/Lib.antt =====
-- Verification library of CodeFixer, a service that takes tickets, lets agents repair the code they
-- are about and delivers the change. Modelled are the stores its components coordinate through,
-- which are SQLite tables, the routing and the intake of tickets, the pipeline of a run with the
-- executor and the scheduler around it, and the coordinator of the delivery. The intake writes tasks
-- and queued runs to the tables of Tasks; the scheduler polls, takes queued runs from them and
-- executes each by a pipeline, which ends the run there and calls Delivery. Paths are relative to
-- backend/src/codefixer.
--
-- Parts and files:
--   Base      equality and list helpers; Base.Table is SQL over lists of rows (SELECT, UPDATE, DELETE,
--             COUNT), Base.Query and Base.Keys its laws, Base.Result exceptions and transactions,
--             Base.Text Python's texts, Base.Integers the integers.
--   Slots     infrastructure/llm_slots.py, the queue for the slots of agent processes: Table (rows),
--             Store (the methods of LlmSlotStore), then Invariant, Releases, Numbers, Grants,
--             Acquire, Reach, Fairness, Turns, Expiry and Answers with the proofs.
--   Leases    infrastructure/leases.py, the exclusive leases of workers: an acquisition is its SELECT
--             (look) and its write; Workers has the interleavings, Attempts and Exclusion the proofs.
--   Cohorts   infrastructure/baseline_cohorts.py, the runs that share one baseline revision: Table,
--             Store (the methods of BaselineCohortStore), Calls (histories), Baseline.
--   Tasks     infrastructure/task_store.py, domain/tasks.py and orchestration/recovery.py: Table, Store
--             (runs and tasks), Ingest (tickets), Stages (stages and cursors), Recovery; Consistency,
--             Moves, Busy, Creation, Restated, Cancel, Lifecycle, Restart and Intake carry the proofs
--             to Steps and Exclusion; Tickets is about the table of tickets, Restarted about the recovery,
--             Attempts about stages and cursors.
--   Delivery  application/services/delivery.py and stability.py, application/ports/delivery.py and
--             infrastructure/delivery_store.py: Coordinator (the final actions and the fallback),
--             Stability, Store (recorded actions and targets); Outcomes and Intents with the proofs.
--   Pipeline  orchestration/pipeline.py, factory.py and Scheduler._execute: Session (a monad over the
--             tables with the exceptions), Adapters, Stages, Run and Body (ChangedPipeline), Execute
--             (RunExecutor); Rules and Safe are rules for an invariant of actions, Ends, Calm,
--             StagesKept, RunKept, Settles, Returns, Claims, Runs, Executed and Idle the proofs.
--   Routing   application/services/routing.py and ingestion.py: Value (JSON), Match (conditions,
--             versions), Route (route_ticket), Ingestion; Scans, Choice, Kinds, Recorded and Counts
--             with the proofs.
--   Scheduler orchestration/scheduler.py: Intervals (how often a provider is polled, and when the health
--             of a project is checked), Ticks (tick); Lowest, Capacity, Starts and Oldest with
--             the proofs.
--   Health    infrastructure/project_health_store.py; Answers with the proof.
--
-- Correspondence: a table is a list of rows in insertion order and a row a record with the table's
-- columns. A method is a function of its arguments, the clock and the tables; it returns the result or
-- error and the tables after it. A transaction that raises leaves the tables as they were.
-- LlmSlotStore and BaselineCohortStore begin one by BEGIN IMMEDIATE, so that concurrent callers are a
-- sequence of calls. The other stores use `with self.connection`, where sqlite3 begins at the first
-- write and a SELECT before it stands outside. Of these an acquisition of a lease is two steps, with
-- other workers' steps between them; every other call is one step, and a sequence of calls has no
-- second caller inside a call. A time is a number of microseconds: the code compares datetimes, or
-- their ISO texts in UTC, in the same order.
-- A generated id (uuid4), the SHA-256 of a ticket's name or content, the parsing of a date and the
-- existence of a manifest file are arguments, and so is the str.strip of Cohorts. All loops are
-- recursion on lists or on the capacity; no fuel is used. An adapter of the pipeline is a function of
-- the tables: it returns or raises, and other callers may change the tables meanwhile; a theorem says
-- what it assumes of them.
--
-- Not modelled: the HTTP API, the frontend, the adapters of ticket systems, repositories and agents,
-- which call external programs and services; the reading of the configuration and of files; the texts
-- written for agents and users; and columns that no decision reads.
pub mod Base
pub mod Slots
pub mod Leases
pub mod Cohorts
pub mod Tasks
pub mod Delivery
pub mod Pipeline
pub mod Routing
pub mod Scheduler
pub mod Health
