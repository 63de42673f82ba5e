-- ===== src/Control/Contract.antt =====
-- The tables at the top of src/money_machine/control/state.py: the prompt file of each session and the
-- evidence that each session has to record.
use money_machine.Base.{ℕ, String, Option, none, some, List, [], ◌∷◌, ◌==◌, if◌then◌else◌}

-- `SESSION_PROMPTS`
abbrev session_prompts : List (ℕ × String)
session_prompts =
    (0, "03_SESSION_00_DISCOVERY_AND_REPO_BOOTSTRAP.md")
    ∷ (1, "04_SESSION_01_PLAYBOOK_MAPPING_AND_ARCHITECTURE.md")
    ∷ (2, "05_SESSION_02_ENGINEERING_FOUNDATION_AND_DATABASE.md")
    ∷ (3, "06_SESSION_03_DURABLE_ORCHESTRATOR.md")
    ∷ (4, "07_SESSION_04_AGENT_RUNTIME_AND_ROSTER.md")
    ∷ (5, "08_SESSION_05_MARKET_RESEARCH_TO_PRODUCT_SPEC.md")
    ∷ (6, "09_SESSION_06_NOTION_INTEGRATION_FOUNDATION.md")
    ∷ (7, "10_SESSION_07_PRODUCT_BUILD_VARIANTS_AND_QA.md")
    ∷ (8, "11_SESSION_08_MERCHANDISING_AND_ASSET_FACTORY.md")
    ∷ (9, "12_SESSION_09_ETSY_DRAFT_PUBLISH_AND_PREFLIGHT.md")
    ∷ (10, "13_SESSION_10_ANALYTICS_CULL_MULTIPLY_CLOSED_LOOP.md")
    ∷ (11, "14_SESSION_11_CUSTOMER_SUPPORT_AND_REPAIR.md")
    ∷ (12, "15_SESSION_12_OPERATOR_CONSOLE_AND_POSTHOG.md")
    ∷ (13, "16_SESSION_13_E2E_HARDENING_AND_FAILURE_RECOVERY.md")
    ∷ (14, "17_SESSION_14_DEPLOYMENT.md")
    ∷ (15, "18_SESSION_15_LIVE_COMMISSIONING_AND_HANDOVER.md")
    ∷ []

abbrev evidence_of_session_00 : List String
evidence_of_session_00 =
    "canonical_root_verified" ∷ "canonical_scaffold_verified" ∷ "sources_byte_identical"
    ∷ "pdf_pages_1_through_82_mapped" ∷ "required_playbook_items_mapped" ∷ "prompt_pack_verified"
    ∷ "git_ignore_audit_passed" ∷ "environment_versions_recorded"
    ∷ "git_evidence_semantics_verified" ∷ "python_checks_passed" ∷ "web_checks_passed"
    ∷ "compose_postgres_healthy" ∷ "api_health_live" ∷ "scripts_parse" ∷ "clean_bootstrap_passed"
    ∷ "implementation_review_approved" ∷ "adversarial_review_clear" ∷ "bootstrap_commit_recorded"
    ∷ "evidence_closure_commit_recorded" ∷ []

abbrev evidence_of_session_01 : List String
evidence_of_session_01 =
    "playbook_steps_mapped" ∷ "architecture_and_adrs_complete" ∷ "state_event_job_enums_in_code"
    ∷ "typed_contracts_pass_validation" ∷ "configuration_encodes_playbook_defaults"
    ∷ "integration_strategy_explicit" ∷ "adversarial_review_resolved"
    ∷ "control_files_and_checkpoint_current" ∷ "evidence_closure_commit_recorded" ∷ []

abbrev evidence_of_session_02 : List String
evidence_of_session_02 =
    "fresh_bootstrap_path_documented" ∷ "database_schema_and_migrations_work"
    ∷ "seeds_are_idempotent" ∷ "runtime_containers_start" ∷ "ci_configuration_complete"
    ∷ "foundation_tests_pass" ∷ "control_files_and_checkpoint_current"
    ∷ "evidence_closure_commit_recorded" ∷ []

abbrev evidence_of_session_03 : List String
evidence_of_session_03 =
    "orchestration_state_machine_implemented" ∷ "lease_and_worker_claiming_implemented"
    ∷ "retry_and_reconciliation_implemented" ∷ "event_driven_successors_transactional"
    ∷ "scheduler_timers_durable" ∷ "worker_scheduler_fail_closed"
    ∷ "concurrency_recovery_tests_pass" ∷ "control_files_and_checkpoint_current"
    ∷ "evidence_closure_commit_recorded" ∷ []

abbrev evidence_of_session_04 : List String
evidence_of_session_04 =
    "provider_abstraction_implemented" ∷ "prompt_registry_and_hashes_implemented"
    ∷ "agent_runner_integrated_with_jobs" ∷ "sixteen_agents_registered"
    ∷ "uncommissioned_agents_documented" ∷ "contract_and_runtime_tests_pass"
    ∷ "control_files_and_checkpoint_current" ∷ "evidence_closure_commit_recorded" ∷ []

abbrev evidence_of_session_05 : List String
evidence_of_session_05 =
    "etsy_adapters_implemented" ∷ "research_agent_implemented" ∷ "shortlist_analysis_implemented"
    ∷ "scoring_agent_implemented" ∷ "teardown_workflow_implemented"
    ∷ "product_spec_generation_implemented" ∷ "dedupe_agent_implemented"
    ∷ "workflow_linking_complete" ∷ "control_files_and_checkpoint_current"
    ∷ "evidence_closure_commit_recorded" ∷ []

abbrev evidence_of_session_06 : List String
evidence_of_session_06 =
    "notion_capability_inspected" ∷ "platform_compatibility_documented"
    ∷ "notion_adapter_interface_defined" ∷ "fixture_adapter_implemented"
    ∷ "adapter_router_implemented" ∷ "adapter_unit_tests_pass"
    ∷ "control_files_and_checkpoint_current" ∷ "evidence_closure_commit_recorded" ∷ []

abbrev evidence_of_session_07 : List String
evidence_of_session_07 =
    "notion_product_builder_implemented" ∷ "shared_databases_built" ∷ "home_dashboard_built"
    ∷ "notification_dashboard_built" ∷ "identity_hubs_built" ∷ "variant_builder_implemented"
    ∷ "product_qa_implemented" ∷ "product_fact_ledger_persisted" ∷ "build_workflow_linked"
    ∷ "product_build_tests_pass" ∷ "control_files_and_checkpoint_current"
    ∷ "evidence_closure_commit_recorded" ∷ []

abbrev evidence_of_session_08 : List String
evidence_of_session_08 =
    "merchandising_agent_implemented" ∷ "claim_validation_implemented" ∷ "design_tokens_implemented"
    ∷ "creative_asset_agent_implemented" ∷ "screenshot_acquisition_implemented"
    ∷ "link_validation_implemented" ∷ "asset_lineage_recorded" ∷ "asset_storage_implemented"
    ∷ "merchandising_workflow_linked" ∷ "merchandising_asset_tests_pass"
    ∷ "control_files_and_checkpoint_current" ∷ "evidence_closure_commit_recorded" ∷ []

-- `SESSION_EVIDENCE_KEYS`
abbrev session_evidence_keys : List (ℕ × List String)
session_evidence_keys =
    (0, evidence_of_session_00)
    ∷ (1, evidence_of_session_01)
    ∷ (2, evidence_of_session_02)
    ∷ (3, evidence_of_session_03)
    ∷ (4, evidence_of_session_04)
    ∷ (5, evidence_of_session_05)
    ∷ (6, evidence_of_session_06)
    ∷ (7, evidence_of_session_07)
    ∷ (8, evidence_of_session_08)
    ∷ []

entry_of {ℓ} : {A : Type ℓ} → ℕ → List (ℕ × A) → Option A
entry_of session [] = none
entry_of session ((n, a) ∷ entries) = if n == session then some a else entry_of session entries

unfoldable pub prompt_of : ℕ → Option String
unfolding entry_of
prompt_of session = entry_of session session_prompts

unfoldable pub evidence_keys_of : ℕ → Option (List String)
unfolding entry_of
evidence_keys_of session = entry_of session session_evidence_keys
