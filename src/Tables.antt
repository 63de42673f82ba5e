-- ===== src/Tables.antt =====
-- The rows of src/money_machine/persistence/tables.py that the orchestration reads and writes. A
-- UUID is a number, a moment is a number of microseconds, and a nullable column is an `Option`.
-- The JSON payloads, `created_at` and the version counter of a job are left out.
use money_machine.Base.{ℕ, ◌*◌, String, Bool, Option, List, get, save}
use money_machine.Domain.{
  JobStatus, RetryClass, SideEffectClass, AutonomyMode, ProductLifecycleState, EffectState,
  EventName,
}

abbrev pub seconds : ℕ → ℕ
seconds n = n * 1000000

abbrev pub minutes : ℕ → ℕ
minutes n = seconds (n * 60)

pub record WorkflowRun : Type 0 where
  pub id : ℕ
  pub shop_id : ℕ
  pub workflow_type : String
  pub product_state : ProductLifecycleState
  pub parent_workflow_id : Option ℕ
  pub parent_decision_id : Option ℕ
  pub started_at : ℕ
  pub completed_at : Option ℕ
  pub version : ℕ

pub record Job : Type 0 where
  pub id : ℕ
  pub workflow_id : ℕ
  pub job_type : String
  pub object_type : String
  pub object_id : ℕ
  pub owner_agent_id : String
  pub status : JobStatus
  pub scheduled_at : ℕ
  pub attempt : ℕ
  pub max_attempts : ℕ
  pub idempotency_key : String
  pub side_effect_class : SideEffectClass
  pub retry_class : RetryClass
  pub allowed_mode : AutonomyMode
  pub lease_owner : Option String
  pub lease_expires_at : Option ℕ
  pub heartbeat_at : Option ℕ
  pub updated_at : ℕ

pub record JobDependency : Type 0 where
  pub job_id : ℕ
  pub depends_on_job_id : ℕ
  pub satisfied_at : Option ℕ

-- What a dedupe key is made of, in place of the text that it is printed to: a UUID has no colon in
-- it and is none of the words between them, so that different parts give different texts.
pub data DedupeKey : Type 0 where
  job_stalled : (job_id now : ℕ) → DedupeKey
  semantic : (event_name : EventName) (aggregate_id : ℕ) (workflow_id job_id : Option ℕ) → DedupeKey
  job_completion : (aggregate_id job_id : ℕ) → DedupeKey
  product_completion : (aggregate_id : ℕ) → DedupeKey

pub record Event : Type 0 where
  pub event_name : EventName
  pub aggregate_type : String
  pub aggregate_id : ℕ
  pub workflow_id : Option ℕ
  pub job_id : Option ℕ
  pub dedupe_key : DedupeKey
  pub occurred_at : ℕ

pub record IdempotencyRecord : Type 0 where
  pub id : ℕ
  pub idempotency_key : String
  pub job_id : ℕ
  pub operation : String
  pub side_effect_class : SideEffectClass
  pub reserved_at : ℕ
  pub completed_at : Option ℕ

pub record EffectAttempt : Type 0 where
  pub id : ℕ
  pub idempotency_key : String
  pub job_id : ℕ
  pub agent_run_id : Option ℕ
  pub provider : String
  pub operation : String
  pub effect_state : EffectState
  pub provider_object_id : Option String
  pub reconciliation_attempt : ℕ
  pub observed_at : ℕ
  pub recorded_at : ℕ

pub record ScheduledTrigger : Type 0 where
  pub shop_id : ℕ
  pub trigger_kind : String
  pub trigger_key : String
  pub cron_expression : String
  pub next_fire_at : ℕ
  pub active : Bool

pub record Receipt : Type 0 where
  pub job_id : ℕ
  pub idempotency_key : String
  pub provider : String
  pub operation : String
  pub side_effect_class : SideEffectClass
  pub autonomy_mode : AutonomyMode
  pub effect_state : EffectState
  pub provider_object_id : Option String
  pub recorded_at : ℕ

-- What a session sees: the tables, with the changes of its own transaction flushed.
pub record Database : Type 0 where
  pub workflows : List WorkflowRun
  pub jobs : List Job
  pub dependencies : List JobDependency
  pub events : List Event
  pub reservations : List IdempotencyRecord
  pub effects : List EffectAttempt
  pub receipts : List Receipt
  pub triggers : List ScheduledTrigger

-- the primary keys
abbrev pub job_key : Job → ℕ
job_key j = j.id

abbrev pub workflow_key : WorkflowRun → ℕ
workflow_key w = w.id

abbrev pub effect_key : EffectAttempt → ℕ
effect_key e = e.id

-- `session.get(Job, job_id)`
abbrev pub get_job : ℕ → Database → Option Job
get_job k db = get job_key k db.jobs

abbrev pub get_workflow : ℕ → Database → Option WorkflowRun
get_workflow k db = get workflow_key k db.workflows

-- the flush of one changed job
abbrev pub save_job : Job → Database → Database
save_job j db = record db { jobs = save job_key j db.jobs }
