-- ===== src/Successors.antt =====
-- src/money_machine/orchestration/successor_factory.py. The configuration is an argument, and so are
-- the hashes that derive UUIDs.
pub mod Config
pub mod Multiply
pub mod Growth
mod Tests
use money_machine.Successors.Config.{WorkflowsConfig, Derivation, spec_in, or_else, find_job_def}
use Prim.Native.String.{◌++◌}
use money_machine.Base.{
  ℕ, ◌+◌, String, Bool, true, false, not, ◌&&◌, ◌||◌, Option, none, some, List, [], ◌∷◌, exists,
  get, save, str_eq, is_none, ◌==◌, if◌then◌else◌,
}
use money_machine.Domain.{
  JobStatus, RetryClass, SideEffectClass, AutonomyMode, ProductLifecycleState, DecisionType,
  EventName,
}
use money_machine.Domain.JobStatus.{pending}
use money_machine.Domain.ProductLifecycleState.{observing}
use money_machine.Domain.DecisionType.{multiply}
use money_machine.Errors.{
  Outcome, ok, err, value_error, integrity_error, guard, require, ◌>>=◌, ◌>>◌,
}
use money_machine.Guard.{require_product_transition, require_successor_spawn}
use money_machine.Tables.{WorkflowRun, Job, Database, job_key, workflow_key, get_job, get_workflow}
use money_machine.Dependencies.Reasons.{mentions}
use money_machine.Portfolio.{PortfolioDecision}
use money_machine.Engine.Specs.{JobSpec, WorkflowSpec, first_mode, insert_jobs}

-- `SuccessorFactory._infer_object_type`
unfoldable pub infer_object_type : String → String
infer_object_type t =
    if mentions "dedupe" t || mentions "spec" t || mentions "niche" t
    then "product_specs"
    else if mentions "build" t || mentions "qa" t || mentions "variant" t
    then "products"
    else if mentions "decision" t || mentions "evaluation" t || mentions "slot" t
    then "decisions"
    else if mentions "research" t || mentions "collection" t
    then "research_runs"
    else if mentions "listing" t || mentions "copy" t || mentions "asset" t
    then "listing_versions"
    else if mentions "incident" t || mentions "repair" t
    then "incidents"
    else if mentions "metric" t || mentions "review" t
    then "metrics_snapshots"
    else "workflow_runs"

abbrev pub is_draft_listing : String → Bool
is_draft_listing job_type = str_eq job_type "DraftListingJob"

-- the insertion of one job, and its UUID
abbrev pub add_job : Job → Database → Outcome (ℕ × Database)
add_job job db = do jobs ← insert_jobs (job ∷ []) db.jobs; ok (job.id, record db { jobs = jobs })

module _ (config : WorkflowsConfig) (derive : Derivation) where
  abbrev or_none : Option ℕ → String
  or_none none = "none"
  or_none (some id) = derive.uuid_text id

  abbrev pub successor_job : ℕ → String → ℕ → ℕ → String → JobSpec → Job
  successor_job id key workflow_id occurred_at job_type spec = record {
    id = id;
    workflow_id = workflow_id;
    job_type = job_type;
    object_type = infer_object_type job_type;
    object_id = workflow_id;
    owner_agent_id = spec.owner_agent_id;
    status = pending;
    scheduled_at = occurred_at;
    attempt = 0;
    max_attempts = 3;
    idempotency_key = key;
    side_effect_class = spec.side_effect_class;
    retry_class = spec.retry_class;
    allowed_mode = first_mode spec.allowed_modes;
    lease_owner = none;
    lease_expires_at = none;
    heartbeat_at = none;
    updated_at = occurred_at;
  }

  -- one row per product; an existing row is the answer
  abbrev pub create_draft_listing :
      ℕ → Option ℕ → String → ℕ → JobSpec → Database → Outcome (ℕ × Database)
  create_draft_listing workflow_id none job_type occurred_at spec db = err value_error
  create_draft_listing workflow_id (some aggregate_id) job_type occurred_at spec db =
      let id = derive.product_job_id aggregate_id job_type in
      let key = job_type ++ ":" ++ derive.uuid_text aggregate_id in
      if is_none (get_job id db)
      then add_job (successor_job id key workflow_id occurred_at job_type spec) db
      else ok (id, db)

  unfoldable pub create_successor_job :
      ℕ → Option ℕ → Option ℕ → String → ℕ → Database → Outcome (ℕ × Database)
  create_successor_job workflow_id parent_job_id aggregate_id job_type occurred_at db = do
    spec ← require (find_job_def job_type config.workflows) value_error
    if is_draft_listing job_type
        then create_draft_listing workflow_id aggregate_id job_type occurred_at spec db
        else (do
          let id = derive.successor_job_id workflow_id parent_job_id job_type
          let key = job_type ++ ":" ++ derive.uuid_text workflow_id ++ ":" ++ or_none parent_job_id
          add_job (successor_job id key workflow_id occurred_at job_type spec) db)

  -- A `Job` aggregate skips the draft listing.
  abbrev skips : String → Option String → Bool
  skips job_type none = false
  skips job_type (some aggregate_type) = is_draft_listing job_type && str_eq aggregate_type "Job"

  unfoldable pub create_each :
      ℕ
      → Option ℕ
      → Option ℕ
      → Option String
      → ℕ
      → List String
      → Database
      → Outcome (List ℕ × Database)
  create_each workflow_id parent_job_id aggregate_id aggregate_type occurred_at [] db = ok ([], db)
  create_each workflow_id parent_job_id aggregate_id aggregate_type occurred_at (t ∷ ts) db =
      if skips t aggregate_type
      then create_each workflow_id parent_job_id aggregate_id aggregate_type occurred_at ts db
      else (do
        (id, db') ← create_successor_job workflow_id parent_job_id aggregate_id t occurred_at db
        (ids, db'') ←
            create_each workflow_id parent_job_id aggregate_id aggregate_type occurred_at ts db'
        ok (id ∷ ids, db''))

  unfoldable pub create_successors :
      EventName
      → ℕ
      → Option ℕ
      → Option ℕ
      → Option String
      → ℕ
      → Database
      → Outcome (List ℕ × Database)
  create_successors event_name workflow_id parent_job_id aggregate_id aggregate_type occurred_at
        db =
      do
        job_types ← require (config.event_successor_map event_name) value_error
        create_each workflow_id parent_job_id aggregate_id aggregate_type occurred_at job_types db

abbrev pub successor_workflow : ℕ → ℕ → ℕ → ℕ → ProductLifecycleState → ℕ → WorkflowRun
successor_workflow id shop_id parent_workflow_id parent_decision_id entry_state started_at =
    record {
      id = id;
      shop_id = shop_id;
      workflow_type = "ProductLifecycleWorkflow";
      product_state = entry_state;
      parent_workflow_id = some parent_workflow_id;
      parent_decision_id = some parent_decision_id;
      started_at = started_at;
      completed_at = none;
      version = 1;
    }

-- The new row is flushed under a UUID that is unique.
unfoldable pub create_successor_workflow :
    ℕ → ProductLifecycleState → ℕ → ℕ → ℕ → ℕ → Database → Outcome (ℕ × Database)
create_successor_workflow parent_id parent_state decision_id successor_id shop_id started_at db = do
  entry_state ← require_successor_spawn parent_state parent_id successor_id
  guard (is_none (get_workflow successor_id db)) integrity_error
  let w = successor_workflow successor_id shop_id parent_id decision_id entry_state started_at
  ok (successor_id, record db { workflows = w ∷ db.workflows })

abbrev pub is_multiply : DecisionType → Bool
is_multiply multiply = true
is_multiply _ = false

abbrev pub observed_parent : WorkflowRun → WorkflowRun
observed_parent w = record w { product_state = observing; version = w.version + 1 }

module _ (derive : Derivation) where
  abbrev pub dedupe_job : ℕ → ℕ → ℕ → Job
  dedupe_job workflow_id spec_id occurred_at = record {
    id = derive.entry_job_id workflow_id spec_id "DedupeJob";
    workflow_id = workflow_id;
    job_type = "DedupeJob";
    object_type = "product_specs";
    object_id = spec_id;
    owner_agent_id = "A06";
    status = pending;
    scheduled_at = occurred_at;
    attempt = 0;
    max_attempts = 3;
    idempotency_key = "DEDUPE:" ++ derive.uuid_text spec_id;
    side_effect_class = SideEffectClass.none;
    retry_class = RetryClass.safe;
    allowed_mode = AutonomyMode.simulation;
    lease_owner = none;
    lease_expires_at = none;
    heartbeat_at = none;
    updated_at = occurred_at;
  }

  unfoldable pub create_successor_entry_job : ℕ → ℕ → ℕ → Database → Outcome (ℕ × Database)
  create_successor_entry_job workflow_id spec_id occurred_at db = do
    let job = dedupe_job workflow_id spec_id occurred_at
    jobs ← insert_jobs (job ∷ []) db.jobs
    ok (job.id, record db { jobs = jobs })

  -- from the guard on: the parent's step to OBSERVING, the successor's workflow and its entry job
  unfoldable pub spawn_from :
      PortfolioDecision → ℕ → ℕ → WorkflowRun → ℕ → ℕ → Database → Outcome (List ℕ × Database)
  spawn_from d successor_id spec_id parent occurred_at started_at db = do
    _ ← require_successor_spawn parent.product_state d.workflow_id successor_id
    require_product_transition parent.product_state observing
    let db1 = record db { workflows = save workflow_key (observed_parent parent) db.workflows }
    (new_id, db2) ←
        create_successor_workflow d.workflow_id parent.product_state d.decision_id successor_id
          parent.shop_id started_at db1
    (job_id, db3) ← create_successor_entry_job new_id spec_id occurred_at db2
    ok (job_id ∷ [], db3)

  -- A valid MULTIPLY decision has a successor's workflow and spec; one without them cannot be built,
  -- and is answered here like the ValueError that its construction raises. `started_at` is the clock.
  unfoldable pub create_multiply_successor :
      PortfolioDecision → ℕ → ℕ → Database → Outcome (List ℕ × Database)
  create_multiply_successor d occurred_at started_at db =
      if not (is_multiply d.decision) then ok ([], db) else (do
        successor_id ← require d.successor_workflow_id value_error
        spec_id ← require d.successor_spec_id value_error
        parent ← require (get_workflow d.workflow_id db) value_error
        spawn_from d successor_id spec_id parent occurred_at started_at db)
