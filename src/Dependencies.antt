-- ===== src/Dependencies.antt =====
-- src/money_machine/orchestration/dependency_resolver.py.
pub mod Reasons
pub mod Readiness
pub mod Propagation
mod Tests
pub use Reasons.{Reason}
use money_machine.Base.{
  ℕ, String, Bool, true, false, not, ◌&&◌, ◌||◌, Option, none, some, List, [], ◌∷◌, map, length,
  select, exists, save_all, ltb, str_eq, is_none, ◌==◌, if◌then◌else◌,
}
use money_machine.Domain.{JobStatus, ProductLifecycleState, is_status, is_state}
use money_machine.Domain.JobStatus.{pending, ready, blocked, succeeded}
use money_machine.Domain.ProductLifecycleState.{rejected, deactivated}
use money_machine.Errors.{
  Outcome, ok, err, resolution, resolution_failed, guard, require, ◌>>=◌, ◌>>◌,
}
use money_machine.Guard.{require_job_transition}
use money_machine.Tables.{
  Job, JobDependency, WorkflowRun, IdempotencyRecord, Database, job_key, get_job, get_workflow,
  save_job,
}
use Reasons.{
  not_found, not_pending, not_due, dependencies_open, workflow_ended, lifecycle_ended, key_taken,
  error_for,
}

-- the subquery on the predecessor's status; it is NULL, which is not true, where there is none
abbrev pub is_unfinished : Option Job → Bool
is_unfinished none = false
is_unfinished (some job) = not (is_status job.status succeeded)

abbrev pub is_open_dependency : Database → ℕ → JobDependency → Bool
is_open_dependency db job_id d =
    d.job_id == job_id && (is_none d.satisfied_at || is_unfinished (get_job d.depends_on_job_id db))

unfoldable pub check_dependencies_satisfied : ℕ → Database → Bool
unfolding exists
check_dependencies_satisfied job_id db = not (exists (is_open_dependency db job_id) db.dependencies)

unfoldable pub check_workflow_active : ℕ → Database → Bool
check_workflow_active workflow_id db = elim (get_workflow workflow_id db) [
  | none ↦ false
  | some workflow ↦ is_none workflow.completed_at
]

abbrev pub is_reserved_by_other : ℕ → String → IdempotencyRecord → Bool
is_reserved_by_other job_id key r = str_eq r.idempotency_key key && not (r.job_id == job_id)

unfoldable pub check_idempotency_collision : ℕ → String → Database → Bool
unfolding exists
check_idempotency_collision job_id key db = exists (is_reserved_by_other job_id key) db.reservations

unfoldable pub check_product_lifecycle_valid : ℕ → Database → Bool
check_product_lifecycle_valid workflow_id db = elim (get_workflow workflow_id db) [
  | none ↦ false
  | some workflow ↦
      not (is_state workflow.product_state rejected || is_state workflow.product_state deactivated)
]

-- The checks behind those of the job's own row. A reason is returned where the job is not ready.
unfoldable pub evaluate_row : Job → ℕ → Database → Option Reason
evaluate_row job now db =
    if not (is_status job.status pending)
    then some not_pending
    else if ltb now job.scheduled_at
    then some not_due
    else if not (check_dependencies_satisfied job.id db)
    then some dependencies_open
    else if not (check_workflow_active job.workflow_id db)
    then some workflow_ended
    else if not (check_product_lifecycle_valid job.workflow_id db)
    then some lifecycle_ended
    else if not (str_eq job.idempotency_key "")
        && check_idempotency_collision job.id job.idempotency_key db
    then some (key_taken job.idempotency_key)
    else none

-- `none` is the answer `(True, …)`
unfoldable pub evaluate_job_readiness : ℕ → ℕ → Database → Option Reason
unfolding evaluate_row
evaluate_job_readiness job_id now db = elim (get_job job_id db) [
  | none ↦ some not_found
  | some job ↦ evaluate_row job now db
]

-- `raise` the exception that the reason's text selects
abbrev raise_for : Option Reason → Outcome (Unit {0})
raise_for none = ok tt
raise_for (some reason) = err (resolution (error_for reason))

abbrev pub with_status : JobStatus → ℕ → Job → Job
with_status status now job = record job { status = status; updated_at = now }

unfoldable pub promote_pending_to_ready : ℕ → ℕ → Database → Outcome (Job × Database)
promote_pending_to_ready job_id now db = do
  job ← require (get_job job_id db) (resolution resolution_failed)
  guard (is_status job.status pending) (resolution resolution_failed)
  raise_for (evaluate_job_readiness job_id now db)
  require_job_transition pending ready
  let job' = with_status ready now job
  ok (job', save_job job' db)

-- the PENDING jobs that wait for the failed one
unfoldable pub is_dependent : ℕ → Database → Job → Bool
unfolding exists
is_dependent failed_job_id db job =
    exists (λ d. d.job_id == job.id && d.depends_on_job_id == failed_job_id) db.dependencies
    && is_status job.status pending

unfoldable pub block_each : ℕ → List Job → Outcome (List Job)
block_each now [] = ok []
block_each now (job ∷ jobs) = do
  require_job_transition pending blocked
  rest ← block_each now jobs
  ok (with_status blocked now job ∷ rest)

unfoldable pub propagate_dependency_failure : ℕ → ℕ → Database → Outcome (List ℕ × Database)
unfolding block_each is_dependent
propagate_dependency_failure failed_job_id now db = do
  blocked_jobs ← block_each now (select (is_dependent failed_job_id db) db.jobs)
  ok (map job_key blocked_jobs, record db { jobs = save_all job_key blocked_jobs db.jobs })

abbrev pub awaits : ℕ → JobDependency → Bool
awaits succeeded_job_id d = d.depends_on_job_id == succeeded_job_id && is_none d.satisfied_at

abbrev pub satisfy : ℕ → ℕ → JobDependency → JobDependency
satisfy succeeded_job_id now d =
    if awaits succeeded_job_id d then record d { satisfied_at = some now } else d

unfoldable pub satisfy_dependency : ℕ → ℕ → Database → ℕ × Database
satisfy_dependency succeeded_job_id now db = (
  length (select (awaits succeeded_job_id) db.dependencies),
  record db { dependencies = map (satisfy succeeded_job_id now) db.dependencies },
)
