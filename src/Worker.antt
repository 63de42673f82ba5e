-- ===== src/Worker.antt =====
-- src/money_machine/orchestration/worker.py: the claim and the execution of one job. `run` is what
-- the agent runner does with a job in a session.
pub mod Turns
mod Tests
use money_machine.Base.{ℕ, String, Bool, Option, none, some, List, [], ◌∷◌}
use money_machine.Domain.{JobStatus, AgentRunStatus, EventName}
use money_machine.Domain.JobStatus.{succeeded, failed, blocked}
use money_machine.Domain.AgentRunStatus.{success, failure}
use money_machine.Errors.{Outcome, ok, err, ◌>>=◌, ◌>>◌}
use money_machine.Tables.{Job, Database, save_job, minutes}
use money_machine.Leases.{claim_ready_job, heartbeat, release_lease}
use money_machine.Dependencies.{with_status}
use money_machine.Successors.Config.{WorkflowsConfig, Derivation}
use money_machine.Dispatcher.{dispatch}

-- How a run ends: with no implementation of the job's agent, with a result and the session's
-- database, with AgentNotCommissionedError, or with any other exception.
pub data Run : Type 0 where
  no_implementation not_commissioned failed_to_run : Run
  finished : AgentRunStatus → List EventName → Database → Run

unfoldable pub final_status : AgentRunStatus → JobStatus
final_status success = succeeded
final_status failure = failed
final_status _ = blocked

-- `except Exception`: the unit of work is rolled back to what it began with
abbrev pub or_rollback :
    Database
    → Outcome (Option AgentRunStatus × Database)
    → Outcome (Option AgentRunStatus × Database)
or_rollback before (ok answer) = ok answer
or_rollback before (err e) = ok (none, before)

module _ (config : WorkflowsConfig) (derive : Derivation) where
  unfoldable pub dispatch_all : Job → ℕ → List EventName → Database → Outcome Database
  dispatch_all job now [] db = ok db
  dispatch_all job now (event_name ∷ events) db = do
    (_, db') ←
        dispatch config derive event_name "Job" job.id (some job.workflow_id) (some job.id) now db
    dispatch_all job now events db'

  unfoldable pub finish :
      Job
      → String
      → ℕ
      → AgentRunStatus
      → List EventName
      → Database
      → Outcome (Option AgentRunStatus × Database)
  finish job worker_id now status events db = do
    db1 ← heartbeat job.id worker_id now none db
    db2 ← release_lease job.id worker_id now (final_status status) db1
    db3 ← dispatch_all job now events db2
    ok (some status, db3)

  -- `before` is the database that the unit of work began with, `db` the one with the claim. What the
  -- exception handlers themselves raise goes on.
  unfoldable pub after_run :
      Job → String → ℕ → Database → Database → Run → Outcome (Option AgentRunStatus × Database)
  after_run job worker_id now before db no_implementation =
      ok (none, save_job (with_status failed now job) db)
  after_run job worker_id now before db (finished status events db') =
      or_rollback before (finish job worker_id now status events db')
  after_run job worker_id now before db not_commissioned = do
    db' ← release_lease job.id worker_id now failed (save_job (with_status failed now job) db)
    ok (none, db')
  after_run job worker_id now before db failed_to_run = ok (none, before)

  abbrev pub execute_claimed :
      (Job → Database → Run)
      → String
      → ℕ
      → Database
      → Option Job × Database
      → Outcome (Option AgentRunStatus × Database)
  execute_claimed run worker_id now before (none, db) = ok (none, db)
  execute_claimed run worker_id now before (some job, db) =
      after_run job worker_id now before db (run job db)

  -- one turn of the loop: a claim and, where it took a job, its execution
  unfoldable pub work_once :
      (ℕ → Bool)
      → (Job → Database → Run)
      → String
      → ℕ
      → Database
      → Outcome (Option AgentRunStatus × Database)
  work_once locked run worker_id now db = do
    claim ← claim_ready_job locked worker_id now (minutes 5) db
    execute_claimed run worker_id now db claim
