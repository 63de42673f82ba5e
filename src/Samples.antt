-- ===== src/Samples.antt =====
-- Small databases, for the tests.
use money_machine.Base.{ℕ, Bool, false, none, some, List, [], ◌∷◌}
use money_machine.Domain.{
  JobStatus, RetryClass, SideEffectClass, AutonomyMode, ProductLifecycleState, EffectState,
  DecisionType,
}
use money_machine.Portfolio.{PortfolioDecision}
use money_machine.Engine.Specs.{JobSpec, WorkflowSpec}
use money_machine.Successors.{successor_workflow, observed_parent, dedupe_job}
use money_machine.Successors.Config.{WorkflowsConfig, Derivation}
use money_machine.Tables.{Job, WorkflowRun, IdempotencyRecord, EffectAttempt, Database}

abbrev pub sample_job : ℕ → JobStatus → Job
sample_job id status = record {
  id = id;
  workflow_id = 1;
  job_type = "DedupeJob";
  object_type = "products";
  object_id = 1;
  owner_agent_id = "A06";
  status = status;
  scheduled_at = 10;
  attempt = 0;
  max_attempts = 3;
  idempotency_key = "k";
  side_effect_class = SideEffectClass.none;
  retry_class = RetryClass.safe;
  allowed_mode = AutonomyMode.simulation;
  lease_owner = none;
  lease_expires_at = none;
  heartbeat_at = none;
  updated_at = 0;
}

-- RUNNING under a lease of "w" until 100
abbrev pub running_job : ℕ → Job
running_job id = record (sample_job id JobStatus.running) {
  lease_owner = some "w";
  lease_expires_at = some 100;
  heartbeat_at = some 50;
}

abbrev pub sample_workflow : ℕ → ProductLifecycleState → WorkflowRun
sample_workflow id state = record {
  id = id;
  shop_id = 7;
  workflow_type = "ProductLifecycleWorkflow";
  product_state = state;
  parent_workflow_id = none;
  parent_decision_id = none;
  started_at = 0;
  completed_at = none;
  version = 1;
}

abbrev pub sample_reservation : ℕ → IdempotencyRecord
sample_reservation job_id = record {
  id = 50;
  idempotency_key = "k";
  job_id = job_id;
  operation = "etsy.publish";
  side_effect_class = SideEffectClass.external_write;
  reserved_at = 5;
  completed_at = none;
}

abbrev pub sample_effect : ℕ → EffectState → ℕ → EffectAttempt
sample_effect job_id state number = record {
  id = 60;
  idempotency_key = "k";
  job_id = job_id;
  agent_run_id = none;
  provider = "etsy";
  operation = "etsy.publish";
  effect_state = state;
  provider_object_id = none;
  reconciliation_attempt = number;
  observed_at = 6;
  recorded_at = 6;
}

-- the jobs in a workflow that is building
abbrev pub sample_db : List Job → Database
sample_db jobs = record {
  workflows = sample_workflow 1 ProductLifecycleState.building ∷ [];
  jobs = jobs;
  dependencies = [];
  events = [];
  reservations = [];
  effects = [];
  receipts = [];
  triggers = [];
}

abbrev pub unlocked : ℕ → Bool
unlocked id = false

abbrev pub sample_decision : PortfolioDecision
sample_decision = record {
  decision_id = 3;
  workflow_id = 1;
  decision = DecisionType.multiply;
  metrics_snapshot_ids = 8 ∷ 9 ∷ [];
  repair_job_id = none;
  deactivation_job_id = none;
  successor_workflow_id = some 2;
  successor_spec_id = some 4;
}

abbrev pub sample_derivation : Derivation
sample_derivation = record {
  product_job_id = λ product job_type. 79;
  successor_job_id = λ workflow parent job_type. 78;
  entry_job_id = λ workflow spec job_type. 77;
  uuid_text = λ id. "u";
}

abbrev pub sample_spec : JobSpec
sample_spec = record {
  job_type = "ProductQAJob";
  owner_agent_id = "A08";
  side_effect_class = SideEffectClass.none;
  retry_class = RetryClass.safe;
  allowed_modes = AutonomyMode.simulation ∷ [];
}

abbrev pub sample_workflow_spec : WorkflowSpec
sample_workflow_spec = record {
  workflow_type = "ProductLifecycleWorkflow";
  entry_job_types = "ProductQAJob" ∷ [];
  jobs = sample_spec ∷ [];
}

-- every event leads to the QA job
abbrev pub sample_config : WorkflowsConfig
sample_config = record {
  event_successor_map = λ event. some ("ProductQAJob" ∷ []);
  workflows = sample_workflow_spec ∷ [];
}

-- a workflow whose product has won, and the database after its MULTIPLY
abbrev pub winning : Database
winning = record (sample_db []) {
  workflows = sample_workflow 1 ProductLifecycleState.successor_spec ∷ [];
}

abbrev pub multiplied : Database
multiplied = record winning {
  workflows =
      successor_workflow 2 7 1 3 ProductLifecycleState.dedupe_check 31
      ∷ observed_parent (sample_workflow 1 ProductLifecycleState.successor_spec)
      ∷ [];
  jobs = dedupe_job sample_derivation 2 4 30 ∷ [];
}
