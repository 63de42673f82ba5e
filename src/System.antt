-- ===== src/System.antt =====
-- The orchestration as a whole: the invariant of the job table, and the steps that its transactions
-- take, over the operations of src/money_machine/orchestration.
pub mod Rows
pub mod Batches
pub mod Writes
pub mod Adds
pub mod Turns
pub mod Steps
mod Tests
use money_machine.Base.{ℕ, ◌+◌, ◌≤◌, ◌<◌, ◌≡◌, ◌≢◌, Bool, not, Option, is_none, All}
use money_machine.Domain.{JobStatus, is_status}
use money_machine.Domain.JobStatus.{running, failed, terminal_failure}
use money_machine.Tables.{Job, Database}

-- A job has an owner, a lease and a heartbeat exactly while it is RUNNING, and has spent fewer
-- attempts than it may, or no more than that many if it is FAILED or TERMINAL_FAILURE.
pub record IsSound (job : Job) : Type 0 where
  pub owned : is_none job.lease_owner ≡ not (is_status job.status running)
  pub leased : is_none job.lease_expires_at ≡ not (is_status job.status running)
  pub beating : is_none job.heartbeat_at ≡ not (is_status job.status running)
  pub within : job.attempt ≤ job.max_attempts
  pub left : job.status ≢ failed → job.status ≢ terminal_failure → job.attempt < job.max_attempts

abbrev pub AllSound : Database → Type 0
AllSound db = All IsSound db.jobs
