-- ===== src/Engine/Specs.antt =====
-- src/money_machine/orchestration/engine.py: what `start_workflow` reads of the workflow configuration, and
-- the flush of new jobs.
use money_machine.Base.{
  ℕ, String, Bool, not, ◌||◌, Option, none, some, List, [], ◌∷◌, exists, str_eq, ◌==◌,
  if◌then◌else◌,
}
use money_machine.Domain.{RetryClass, SideEffectClass, AutonomyMode, ProductLifecycleState}
use money_machine.Errors.{Outcome, ok, integrity_error, guard, ◌>>◌}
use money_machine.Tables.{WorkflowRun, Job}
use money_machine.Scheduler.{has_job_key}

-- what `start_workflow` reads of a job's configuration
pub record JobSpec : Type 0 where
  pub job_type : String
  pub owner_agent_id : String
  pub side_effect_class : SideEffectClass
  pub retry_class : RetryClass
  pub allowed_modes : List AutonomyMode

-- what it reads of a workflow's configuration
pub record WorkflowSpec : Type 0 where
  pub workflow_type : String
  pub entry_job_types : List String
  pub jobs : List JobSpec

unfoldable pub find_workflow : String → List WorkflowSpec → Option WorkflowSpec
find_workflow workflow_type [] = none
find_workflow workflow_type (w ∷ ws) =
    if str_eq w.workflow_type workflow_type then some w else find_workflow workflow_type ws

-- the `dict` of the specs by their type, in which a later spec overwrites an earlier one
abbrev pub or_here : JobSpec → String → Option JobSpec → Option JobSpec
or_here spec job_type (some later) = some later
or_here spec job_type none = if str_eq spec.job_type job_type then some spec else none

unfoldable pub find_spec : String → List JobSpec → Option JobSpec
find_spec job_type [] = none
find_spec job_type (spec ∷ specs) = or_here spec job_type (find_spec job_type specs)

abbrev pub first_mode : List AutonomyMode → AutonomyMode
first_mode [] = AutonomyMode.simulation
first_mode (mode ∷ modes) = mode

-- The flush of new jobs, whose UUID and idempotency key are each unique.
abbrev pub is_same_job : Job → Job → Bool
is_same_job new job = job.id == new.id || has_job_key new.idempotency_key job

unfoldable pub insert_jobs : List Job → List Job → Outcome (List Job)
unfolding exists
insert_jobs [] jobs = ok jobs
insert_jobs (new ∷ news) jobs = do
  guard (not (exists (is_same_job new) jobs)) integrity_error
  insert_jobs news (new ∷ jobs)

abbrev pub new_workflow : ℕ → String → ProductLifecycleState → ℕ → ℕ → WorkflowRun
new_workflow id workflow_type product_state shop_id now = record {
  id = id;
  shop_id = shop_id;
  workflow_type = workflow_type;
  product_state = product_state;
  parent_workflow_id = none;
  parent_decision_id = none;
  started_at = now;
  completed_at = none;
  version = 1;
}
