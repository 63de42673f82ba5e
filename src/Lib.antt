-- ===== src/Lib.antt =====
-- The core of the money machine. Its orchestration: durable jobs that workers claim under leases, that a
-- scheduler promotes and takes back, that an engine starts, retries, cancels and reconciles for its
-- operator, and that events and portfolio decisions let grow from one another. Its rules on listings:
-- when one may be published, has matured, is culled, held, repaired or multiplied, and how a change of
-- one is receipted. Its control state: the file that records the sessions of the programme, and the
-- commands that move it on. And the registry of its agents' tools.
--
-- The state of the orchestration is in PostgreSQL. An operation is a function from the database that
-- its session sees to a new database, a value, or the exception that it raises (Errors); a transaction
-- that raises is rolled back, so that no database comes with an exception. A table is the list of its rows and
-- a query a function on it (Base). `FOR UPDATE SKIP LOCKED` takes, as an argument, which rows other
-- transactions have locked. A UUID is a number, and so is a moment, in microseconds. New UUIDs, the
-- clock, hashes, the configuration files, the providers' answers and what the agent runner does are
-- arguments too.
--
-- The parts, with the source of each (paths from the repository's root):
--   Domain, Errors, Tables: src/money_machine/domain/enums.py and domain/events.py; the exceptions
--     of the orchestration; the rows of persistence/tables.py, with the flush of a changed row.
--   Guard: orchestration/transition_guard.py and state_machine.py, the legal changes of state of
--     jobs and of products. Guard.Run has sequences of guarded changes.
--   Retry: orchestration/retry.py, the backoff and the decision whether a job may run again.
--   Leases: orchestration/leases.py, `claim_ready_job`, `heartbeat`, `release_lease` and
--     `reclaim_expired_leases`.
--   Dependencies: orchestration/dependency_resolver.py, when a job is ready, its promotion, and how
--     success and failure spread.
--   Idempotency: orchestration/idempotency.py, reservations, effect attempts and receipts.
--   Reconciliation: orchestration/reconciliation.py, the budgeted questions to a provider.
--   Scheduler: orchestration/scheduler.py, the passes, the timers and the cycle.
--   Engine: orchestration/engine.py, the operator's commands; Engine.Specs has the configuration.
--   Portfolio: `PortfolioDecision` of domain/models/portfolio.py.
--   Successors: orchestration/successor_factory.py, the jobs and workflows that follow.
--   Dispatcher: orchestration/event_dispatcher.py and persistence/repositories/events.py.
--   Worker: orchestration/worker.py, one turn of the loop.
--   Control: control/state.py. Control has the validators of the two transitions, Control.Closing the
--     parts of the completion's, Control.Contract the prompts and evidence keys of the sessions,
--     Control.Fields the state, Control.Json and
--     Control.Parsing the tests on the file's JSON value, Control.Repository the checks against Git,
--     Control.Files the lock, the replacement of the file and the two commands.
--   Ramp: assets/publishing_ramp_decision.py, whether one more listing may be published.
--   Maturity: assets/maturity_clock.py, the live days of a listing.
--   Eligibility: assets/portfolio_eligibility.py, the cohorts, `evaluate_portfolio` in
--     Eligibility.Decide and `schedule_new_front` in Eligibility.Slots. Eligibility.Rules states the
--     classes of listings independently of it.
--   Receipts: assets/mutation_receipt.py, the receipt book and `commit_listing_mutation`, with the
--     validation of `EffectReference` of domain/models/common.py. pydantic's `strip_whitespace` is the
--     argument `trim`.
--   ClosedLoop: assets/closed_loop_store.py, the trigger ledger and the confirmation of a cull; it reads
--     the results of Eligibility.
--   Tools: agents/tool_registry.py, the catalogue and the gate of reviews.
--   Results: an operation outside the database returns a value or the error that it raises.
--   System: the transactions of all these as steps, and the invariant of the job table. A turn of the
--     worker is a step where the agent has an implementation and its run writes no job.
--   Samples, and the module Tests of each part: small databases and runs on them.
--
-- Every loop of the source runs over a list and is structural recursion here; there is no fuel. The
-- infinite loop of the worker stands as a single turn, and any number of transactions as the relation
-- Reaches of System.Steps.
--
-- Left out: the JSON payloads and `created_at`; the version counter of a job, which only guards a
-- write against a concurrent writer; logging; foreign keys to tables that are not modelled;
-- amounts on receipts; the commissioning gates of the worker, which read files; the agents, the
-- providers' clients, the other assets, the API and the command line. Git and the file system are
-- the arguments Repository and Call of Control, so that in the commands a state file either is
-- read as a state or is none, and json.loads gives the value that Control.Parsing tests. Sessions,
-- revisions, counts and scores are natural numbers, and the settings of the ramp and the cull
-- percentage integers; the text of the percentage is not parsed. The further arguments of a tool's
-- handler are left out, and so are the label tests of portfolio_eligibility.py.
pub mod Base
pub mod ClosedLoop
pub mod Control
pub mod Dependencies
pub mod Dispatcher
pub mod Domain
pub mod Eligibility
pub mod Engine
pub mod Errors
pub mod Guard
pub mod Idempotency
pub mod Leases
pub mod Maturity
pub mod Portfolio
pub mod Ramp
pub mod Receipts
pub mod Reconciliation
pub mod Results
pub mod Retry
pub mod Samples
pub mod Scheduler
pub mod Successors
pub mod System
pub mod Tables
pub mod Tools
pub mod Worker
