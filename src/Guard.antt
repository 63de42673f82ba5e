-- ===== src/Guard.antt =====
-- src/money_machine/orchestration/transition_guard.py and state_machine.py: the tables of allowed
-- transitions and the guards that every change of state goes through.

pub mod Run
pub mod Jobs
pub mod Products
use money_machine.Base.{ℕ, Bool, true, false, not, List, [], ◌∷◌, length, exists, ◌==◌}
use money_machine.Domain.{JobStatus, ProductLifecycleState, DecisionType, is_status, is_state}
use money_machine.Domain.JobStatus.{
  pending, blocked, ready, running, failed, uncertain_external_effect, succeeded, terminal_failure,
  cancelled,
}
use money_machine.Domain.ProductLifecycleState.{
  discovered, researching, research_complete, qualifying, qualified, rejected, teardown_pending,
  teardown_complete, spec_ready, dedupe_check, reconcepting, building, build_qa, build_repair,
  variant_build, variant_qa, merchandising, asset_build, asset_qa, drafting, draft_ready, preflight,
  listing_repair, ready_to_publish, published, post_publish_qa, incident_repair, observing, mature,
  evaluating, repairing, deactivating, deactivated, successor_spec,
}
use money_machine.Errors.{Outcome, ok, err, invalid_transition, guard, ◌>>◌}

-- `JOB_TRANSITIONS`
pub job_transitions : JobStatus → List JobStatus
job_transitions pending = blocked ∷ ready ∷ cancelled ∷ []
job_transitions blocked = ready ∷ cancelled ∷ []
job_transitions ready = running ∷ cancelled ∷ []
job_transitions running = succeeded ∷ failed ∷ blocked ∷ uncertain_external_effect ∷ []
job_transitions failed = ready ∷ terminal_failure ∷ []
job_transitions uncertain_external_effect = succeeded ∷ failed ∷ blocked ∷ []
job_transitions succeeded = []
job_transitions terminal_failure = []
job_transitions cancelled = []

-- `PRODUCT_TRANSITIONS`
pub product_transitions : ProductLifecycleState → List ProductLifecycleState
product_transitions discovered = researching ∷ []
product_transitions researching = research_complete ∷ []
product_transitions research_complete = qualifying ∷ []
product_transitions qualifying = qualified ∷ rejected ∷ []
product_transitions qualified = teardown_pending ∷ []
product_transitions rejected = []
product_transitions teardown_pending = teardown_complete ∷ []
product_transitions teardown_complete = spec_ready ∷ []
product_transitions spec_ready = dedupe_check ∷ []
product_transitions dedupe_check = reconcepting ∷ building ∷ []
product_transitions reconcepting = spec_ready ∷ []
product_transitions building = build_qa ∷ []
product_transitions build_qa = build_repair ∷ variant_build ∷ []
product_transitions build_repair = build_qa ∷ []
product_transitions variant_build = variant_qa ∷ []
product_transitions variant_qa = variant_build ∷ merchandising ∷ []
product_transitions merchandising = asset_build ∷ []
product_transitions asset_build = asset_qa ∷ []
product_transitions asset_qa = asset_build ∷ drafting ∷ []
product_transitions drafting = draft_ready ∷ []
product_transitions draft_ready = preflight ∷ []
product_transitions preflight = listing_repair ∷ ready_to_publish ∷ []
product_transitions listing_repair = preflight ∷ []
product_transitions ready_to_publish = published ∷ []
product_transitions published = post_publish_qa ∷ []
product_transitions post_publish_qa = incident_repair ∷ observing ∷ []
product_transitions incident_repair = post_publish_qa ∷ []
product_transitions observing = mature ∷ []
product_transitions mature = evaluating ∷ []
product_transitions evaluating = observing ∷ repairing ∷ deactivating ∷ successor_spec ∷ []
product_transitions repairing = observing ∷ []
product_transitions deactivating = deactivated ∷ []
product_transitions deactivated = []
product_transitions successor_spec = observing ∷ []

-- `target in JOB_TRANSITIONS[source]`
unfoldable pub require_job_transition : JobStatus → JobStatus → Outcome (Unit {0})
unfolding job_transitions exists
require_job_transition source target =
    guard (exists (is_status target) (job_transitions source)) invalid_transition

unfoldable pub require_product_transition :
    ProductLifecycleState → ProductLifecycleState → Outcome (Unit {0})
unfolding product_transitions exists
require_product_transition source target =
    guard (exists (is_state target) (product_transitions source)) invalid_transition

-- `JobStateMachine.can_transition`, which turns the exception into `False`
unfoldable pub can_transition : JobStatus → JobStatus → Bool
unfolding require_job_transition
can_transition source target = elim (require_job_transition source target) [
  | ok _ ↦ true
  | err _ ↦ false
]

-- `JobStateMachine.is_terminal`
unfoldable pub is_terminal : JobStatus → Bool
unfolding job_transitions
is_terminal status = length (job_transitions status) == 0

-- `PORTFOLIO_DECISION_PATHS`
unfoldable pub portfolio_decision_path : DecisionType → List ProductLifecycleState
portfolio_decision_path DecisionType.hold = evaluating ∷ observing ∷ []
portfolio_decision_path DecisionType.repair = evaluating ∷ repairing ∷ observing ∷ []
portfolio_decision_path DecisionType.cull = evaluating ∷ deactivating ∷ deactivated ∷ []
portfolio_decision_path DecisionType.multiply = evaluating ∷ successor_spec ∷ observing ∷ []

-- `SUCCESSOR_WORKFLOW_ENTRY_STATE` and `SUCCESSOR_SPAWN_SOURCE_STATE`
abbrev pub successor_workflow_entry_state : ProductLifecycleState
successor_workflow_entry_state = dedupe_check

abbrev pub successor_spawn_source_state : ProductLifecycleState
successor_spawn_source_state = successor_spec

unfoldable pub require_successor_spawn :
    ProductLifecycleState → ℕ → ℕ → Outcome ProductLifecycleState
require_successor_spawn parent_state parent_workflow_id successor_workflow_id = do
  guard (is_state parent_state successor_spawn_source_state) invalid_transition
  guard (not (parent_workflow_id == successor_workflow_id)) invalid_transition
  ok successor_workflow_entry_state
