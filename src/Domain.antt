-- ===== src/Domain.antt =====
-- The taxonomies of src/money_machine/domain/enums.py.
use money_machine.Base.{ℕ, Bool, ◌==◌}

pub data JobStatus : Type 0 where
  pending blocked ready running succeeded failed terminal_failure cancelled : JobStatus
  uncertain_external_effect : JobStatus

pub data RetryClass : Type 0 where
  safe idempotent reconcile_first manual_resume never : RetryClass

pub data SideEffectClass : Type 0 where
  none external_read external_write external_spend external_message : SideEffectClass

pub data AgentRunStatus : Type 0 where
  success failure blocked uncertain_external_effect : AgentRunStatus

pub data DecisionType : Type 0 where
  hold repair cull multiply : DecisionType

pub data ProductLifecycleState : Type 0 where
  discovered researching research_complete qualifying qualified rejected : ProductLifecycleState
  teardown_pending teardown_complete spec_ready dedupe_check reconcepting : ProductLifecycleState
  building build_qa build_repair variant_build variant_qa merchandising : ProductLifecycleState
  asset_build asset_qa drafting draft_ready preflight listing_repair : ProductLifecycleState
  ready_to_publish published post_publish_qa incident_repair observing : ProductLifecycleState
  mature evaluating repairing deactivating deactivated successor_spec : ProductLifecycleState

pub data AutonomyMode : Type 0 where
  simulation draft live : AutonomyMode

-- the outcomes of an attempted external effect (orchestration/reconciliation.py)
pub data EffectState : Type 0 where
  confirmed absent unknown : EffectState

-- src/money_machine/domain/events.py
pub data EventName : Type 0 where
  account_connected research_completed niche_shortlisted product_qualified : EventName
  product_rejected teardown_completed product_spec_created dedupe_passed : EventName
  dedupe_failed build_completed build_qa_passed build_qa_failed variants_completed : EventName
  assets_completed draft_created preflight_passed preflight_failed listing_published : EventName
  post_publish_verified metrics_captured listing_matured listing_held : EventName
  listing_repair_requested listing_culled winner_detected successor_created : EventName
  customer_issue_received broken_link_detected repair_completed job_failed : EventName
  job_stalled credential_required environment_audited shop_bootstrapped : EventName
  niche_selected competitor_purchased variant_links_verified screenshots_captured : EventName
  listing_copy_completed delivery_files_completed pricing_completed : EventName
  proof_feedback_captured schedule_configured build_slot_deferred : EventName
  monthly_review_completed scale_decided listing_cull_requested repair_applied : EventName

-- `==` on a `StrEnum`: the members are told apart by their places in the declaration.
abbrev status_index : JobStatus → ℕ
status_index JobStatus.pending = 0
status_index JobStatus.blocked = 1
status_index JobStatus.ready = 2
status_index JobStatus.running = 3
status_index JobStatus.succeeded = 4
status_index JobStatus.failed = 5
status_index JobStatus.terminal_failure = 6
status_index JobStatus.cancelled = 7
status_index JobStatus.uncertain_external_effect = 8

abbrev pub is_status : JobStatus → JobStatus → Bool
is_status a b = status_index a == status_index b

abbrev state_index : ProductLifecycleState → ℕ
state_index ProductLifecycleState.discovered = 0
state_index ProductLifecycleState.researching = 1
state_index ProductLifecycleState.research_complete = 2
state_index ProductLifecycleState.qualifying = 3
state_index ProductLifecycleState.qualified = 4
state_index ProductLifecycleState.rejected = 5
state_index ProductLifecycleState.teardown_pending = 6
state_index ProductLifecycleState.teardown_complete = 7
state_index ProductLifecycleState.spec_ready = 8
state_index ProductLifecycleState.dedupe_check = 9
state_index ProductLifecycleState.reconcepting = 10
state_index ProductLifecycleState.building = 11
state_index ProductLifecycleState.build_qa = 12
state_index ProductLifecycleState.build_repair = 13
state_index ProductLifecycleState.variant_build = 14
state_index ProductLifecycleState.variant_qa = 15
state_index ProductLifecycleState.merchandising = 16
state_index ProductLifecycleState.asset_build = 17
state_index ProductLifecycleState.asset_qa = 18
state_index ProductLifecycleState.drafting = 19
state_index ProductLifecycleState.draft_ready = 20
state_index ProductLifecycleState.preflight = 21
state_index ProductLifecycleState.listing_repair = 22
state_index ProductLifecycleState.ready_to_publish = 23
state_index ProductLifecycleState.published = 24
state_index ProductLifecycleState.post_publish_qa = 25
state_index ProductLifecycleState.incident_repair = 26
state_index ProductLifecycleState.observing = 27
state_index ProductLifecycleState.mature = 28
state_index ProductLifecycleState.evaluating = 29
state_index ProductLifecycleState.repairing = 30
state_index ProductLifecycleState.deactivating = 31
state_index ProductLifecycleState.deactivated = 32
state_index ProductLifecycleState.successor_spec = 33

abbrev pub is_state : ProductLifecycleState → ProductLifecycleState → Bool
is_state a b = state_index a == state_index b

abbrev event_index : EventName → ℕ
event_index EventName.account_connected = 0
event_index EventName.research_completed = 1
event_index EventName.niche_shortlisted = 2
event_index EventName.product_qualified = 3
event_index EventName.product_rejected = 4
event_index EventName.teardown_completed = 5
event_index EventName.product_spec_created = 6
event_index EventName.dedupe_passed = 7
event_index EventName.dedupe_failed = 8
event_index EventName.build_completed = 9
event_index EventName.build_qa_passed = 10
event_index EventName.build_qa_failed = 11
event_index EventName.variants_completed = 12
event_index EventName.assets_completed = 13
event_index EventName.draft_created = 14
event_index EventName.preflight_passed = 15
event_index EventName.preflight_failed = 16
event_index EventName.listing_published = 17
event_index EventName.post_publish_verified = 18
event_index EventName.metrics_captured = 19
event_index EventName.listing_matured = 20
event_index EventName.listing_held = 21
event_index EventName.listing_repair_requested = 22
event_index EventName.listing_culled = 23
event_index EventName.winner_detected = 24
event_index EventName.successor_created = 25
event_index EventName.customer_issue_received = 26
event_index EventName.broken_link_detected = 27
event_index EventName.repair_completed = 28
event_index EventName.job_failed = 29
event_index EventName.job_stalled = 30
event_index EventName.credential_required = 31
event_index EventName.environment_audited = 32
event_index EventName.shop_bootstrapped = 33
event_index EventName.niche_selected = 34
event_index EventName.competitor_purchased = 35
event_index EventName.variant_links_verified = 36
event_index EventName.screenshots_captured = 37
event_index EventName.listing_copy_completed = 38
event_index EventName.delivery_files_completed = 39
event_index EventName.pricing_completed = 40
event_index EventName.proof_feedback_captured = 41
event_index EventName.schedule_configured = 42
event_index EventName.build_slot_deferred = 43
event_index EventName.monthly_review_completed = 44
event_index EventName.scale_decided = 45
event_index EventName.listing_cull_requested = 46
event_index EventName.repair_applied = 47

abbrev pub is_event : EventName → EventName → Bool
is_event a b = event_index a == event_index b
