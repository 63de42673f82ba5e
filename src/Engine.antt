-- ===== src/Engine.antt =====
-- src/money_machine/orchestration/engine.py. The workflow configuration is an argument, and so is
-- what derives a job's UUID from its workflow and its type.
pub mod Specs
pub mod Retrying
pub mod Cancelling
pub mod Starting
pub mod Reconciling
mod Tests
use money_machine.Engine.Specs.{
  JobSpec, WorkflowSpec, find_workflow, or_here, find_spec, first_mode, is_same_job, insert_jobs,
  new_workflow,
}
use Prim.Native.String.{◌++◌}
use money_machine.Base.{
  ℕ, ◌+◌, String, Bool, true, false, not, ◌&&◌, ◌||◌, Option, none, some, List, [], ◌∷◌, length,
  select, exists, get, save, save_all, latest, str_eq, is_none, ◌==◌, if◌then◌else◌,
}
use money_machine.Domain.{
  JobStatus, RetryClass, SideEffectClass, AutonomyMode, ProductLifecycleState, EffectState,
  is_status,
}
use money_machine.Domain.JobStatus.{
  pending, ready, succeeded, failed, cancelled, uncertain_external_effect,
}
use money_machine.Domain.RetryClass.{reconcile_first}
use money_machine.Domain.EffectState.{confirmed, absent, unknown}
use money_machine.Errors.{
  Outcome, ok, value_error, integrity_error, engine, engine_failed, workflow_not_found,
  job_not_found, invalid_retry, guard, require, ◌>>=◌, ◌>>◌,
}
use money_machine.Guard.{require_job_transition}
use money_machine.Tables.{
  WorkflowRun, Job, EffectAttempt, Database, job_key, workflow_key, effect_key, get_job,
  get_workflow, save_job, minutes,
}
use money_machine.Retry.{RetryDecision, default_backoff, evaluate_retry}
use money_machine.Leases.{claim_ready_job}
use money_machine.Dependencies.{with_status}
use money_machine.Dependencies.Reasons.{contains}
use money_machine.Idempotency.{attempt_number, has_evidence, is_resolved}
use money_machine.Scheduler.{CycleCounts, run_scheduler_cycle, has_job_key}

unfoldable pub infer_object_type : String → String
infer_object_type job_type =
    if contains "Provisioning" job_type || contains "Environment" job_type
    then "shops"
    else "workflow_runs"

abbrev is_empty : List String → Bool
is_empty [] = true
is_empty (x ∷ xs) = false

module _ (derive_id : ℕ → String → ℕ) (uuid_text : ℕ → String) where
  abbrev pub entry_key : ℕ → String → String
  entry_key workflow_id job_type = "ENTRY:" ++ job_type ++ ":" ++ uuid_text workflow_id

  abbrev pub entry_job : ℕ → ℕ → JobSpec → String → Job
  entry_job workflow_id now spec job_type = record {
    id = derive_id workflow_id job_type;
    workflow_id = workflow_id;
    job_type = job_type;
    object_type = infer_object_type job_type;
    object_id = workflow_id;
    owner_agent_id = spec.owner_agent_id;
    status = pending;
    scheduled_at = now;
    attempt = 0;
    max_attempts = 3;
    idempotency_key = entry_key workflow_id job_type;
    side_effect_class = spec.side_effect_class;
    retry_class = spec.retry_class;
    allowed_mode = first_mode spec.allowed_modes;
    lease_owner = none;
    lease_expires_at = none;
    heartbeat_at = none;
    updated_at = now;
  }

  unfoldable pub entry_jobs : ℕ → ℕ → List JobSpec → List String → Outcome (List Job)
  entry_jobs workflow_id now specs [] = ok []
  entry_jobs workflow_id now specs (job_type ∷ job_types) = do
    spec ← require (find_spec job_type specs) value_error
    jobs ← entry_jobs workflow_id now specs job_types
    ok (entry_job workflow_id now spec job_type ∷ jobs)

  unfoldable pub spawn_entry_jobs :
      List WorkflowSpec → ℕ → String → List String → ℕ → Database → Outcome Database
  spawn_entry_jobs workflows workflow_id workflow_type entry_job_types now db = do
    spec ← require (find_workflow workflow_type workflows) value_error
    news ← entry_jobs workflow_id now spec.jobs entry_job_types
    jobs ← insert_jobs news db.jobs
    ok (record db { jobs = jobs })

  -- `id` is the UUID of the new workflow.
  unfoldable pub start_workflow :
      List WorkflowSpec
      → ℕ
      → String
      → ProductLifecycleState
      → ℕ
      → ℕ
      → Database
      → Outcome (WorkflowRun × Database)
  start_workflow workflows id workflow_type product_state shop_id now db = do
    spec ← require (find_workflow workflow_type workflows) value_error
    guard (not (is_empty spec.entry_job_types)) value_error
    let workflow = new_workflow id workflow_type product_state shop_id now
    let started = record db { workflows = workflow ∷ db.workflows }
    db' ← spawn_entry_jobs workflows workflow.id workflow_type spec.entry_job_types now started
    ok (workflow, db')

abbrev pub is_effect_of : ℕ → EffectAttempt → Bool
is_effect_of job_id e = e.job_id == job_id

-- the query for the latest effect attempt of a job
unfoldable pub latest_effect_of : ℕ → Database → Option EffectAttempt
latest_effect_of job_id db = latest attempt_number (select (is_effect_of job_id) db.effects)

unfoldable pub reconciliation_resolved : RetryClass → ℕ → Database → Bool
reconciliation_resolved reconcile_first job_id db = is_resolved (latest_effect_of job_id db)
reconciliation_resolved _ job_id db = false

abbrev pub retried : ℕ → ℕ → Job → Job
retried scheduled_at now job = record job {
  status = ready;
  scheduled_at = scheduled_at;
  updated_at = now;
}

-- A decision that allows a retry always has a moment for it; without one the column would be set
-- to NULL, which the schema forbids.
unfoldable pub retry_failed_job : ℕ → ℕ → Database → Outcome (Job × Database)
retry_failed_job job_id now db = do
  job ← require (get_job job_id db) (engine job_not_found)
  guard (is_status job.status failed) (engine invalid_retry)
  decision ←
      evaluate_retry job.retry_class job.attempt job.max_attempts default_backoff now
        (reconciliation_resolved job.retry_class job_id db)
  guard decision.can_retry (engine invalid_retry)
  require_job_transition failed ready
  scheduled_at ← require decision.scheduled_at integrity_error
  let job' = retried scheduled_at now job
  ok (job', save_job job' db)

unfoldable pub is_cancellable : ℕ → Job → Bool
is_cancellable workflow_id job =
    job.workflow_id == workflow_id && (is_status job.status pending || is_status job.status ready)

unfoldable pub cancel_each : ℕ → List Job → Outcome (List Job)
cancel_each now [] = ok []
cancel_each now (job ∷ jobs) = do
  require_job_transition job.status cancelled
  rest ← cancel_each now jobs
  ok (with_status cancelled now job ∷ rest)

-- The flush of a changed workflow counts its version up.
abbrev pub completed : ℕ → WorkflowRun → WorkflowRun
completed now workflow = record workflow { completed_at = some now; version = workflow.version + 1 }

unfoldable pub cancel_workflow : ℕ → ℕ → Database → Outcome (WorkflowRun × ℕ × Database)
cancel_workflow workflow_id now db = do
  workflow ← require (get_workflow workflow_id db) (engine workflow_not_found)
  let workflow' = completed now workflow
  jobs ← cancel_each now (select (is_cancellable workflow_id) db.jobs)
  ok (
    workflow',
    length jobs,
    record db {
      workflows = save workflow_key workflow' db.workflows;
      jobs = save_all job_key jobs db.jobs;
    },
  )

-- `effect_state in ("CONFIRMED", "ABSENT")`; every other text stands here as `unknown`
abbrev pub is_conclusive : EffectState → Bool
is_conclusive unknown = false
is_conclusive _ = true

abbrev pub reconciled_status : EffectState → JobStatus
reconciled_status confirmed = succeeded
reconciled_status _ = failed

abbrev pub observed : EffectState → Option String → ℕ → EffectAttempt → EffectAttempt
observed effect_state provider_object_id now effect = record effect {
  effect_state = effect_state;
  provider_object_id = provider_object_id;
  observed_at = now;
}

-- The flush checks the evidence of the changed row.
unfoldable pub reconcile_uncertain_effect :
    ℕ → EffectState → Option String → ℕ → Database → Outcome (EffectAttempt × Database)
reconcile_uncertain_effect job_id effect_state provider_object_id now db = do
  guard (is_conclusive effect_state) (engine engine_failed)
  job ← require (get_job job_id db) (engine job_not_found)
  guard (is_status job.status uncertain_external_effect) (engine engine_failed)
  effect ← require (latest_effect_of job_id db) (engine engine_failed)
  let effect' = observed effect_state provider_object_id now effect
  require_job_transition job.status (reconciled_status effect_state)
  guard (has_evidence effect_state provider_object_id) integrity_error
  ok (
    effect',
    record db {
      effects = save effect_key effect' db.effects;
      jobs = save job_key (with_status (reconciled_status effect_state) now job) db.jobs;
    },
  )

abbrev pub run_scheduler_once : (ℕ → Bool) → ℕ → Database → Outcome (CycleCounts × Database)
run_scheduler_once locked now db = run_scheduler_cycle locked now 50 50 50 db

abbrev pub run_worker_once : (ℕ → Bool) → String → ℕ → Database → Outcome (Option Job × Database)
run_worker_once locked worker_id now db = claim_ready_job locked worker_id now (minutes 5) db
