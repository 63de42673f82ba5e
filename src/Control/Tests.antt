-- ===== src/Control/Tests.antt =====
-- Session 1 is completed and session 2 activated, in a file whose commits form one line.
use money_machine.Base.{
  ℕ, ◌+◌, String, ◌≡◌, refl, Bool, true, false, none, some, List, [], ◌∷◌, arith, leb,
  if◌then◌else◌, eq_iff, str_eq, same_keys, contains_str, lookup, without, dict_eq, list_eq, select,
  range,
}
use money_machine.Results.{done}
use money_machine.Control.{
  validate_activation_transition, validate_completion_transition,
  require_completed_session_evidence, require_fresh_evidence,
}
use money_machine.Control.Closing.{
  is_sha, missing_evidence, require_session_advance, require_contract, require_closed_evidence,
  require_blockers, require_prior_commits, require_commits, is_member,
}
use money_machine.Control.Contract.{prompt_of, evidence_keys_of}
use money_machine.Control.Fields.{ControlState, same_field, require_each_same, require_same_fields}
use money_machine.Control.Completion.{Completed, ClosedBy, completion-Completed}
use money_machine.Control.Sessions.{
  here, activate, complete, IsInOrder, Alternates, Reaches-one_by_one,
}
use money_machine.Control.Files.{
  Disk, Call, written, apply_completion_transition, apply_transition, under_lock, vetted,
  write_vetted, atomic_write,
}
use money_machine.Control.Replacement.{Applied, apply_transition-Applied}
use money_machine.Control.Repository.{
  Repository, state, verify_completion_repository, validate_git_evidence, validate_repo_identity,
  resolve_commit, assert_repo_at_closure, check_document, same_state,
}
use money_machine.Control.History.{
  Commands, at_start, completed, Holds, HeadDescends, commands_keep_order, head_descends,
}

abbrev first_sha : String
first_sha = "0000000000000000000000000000000000000000"

abbrev second_sha : String
second_sha = "1111111111111111111111111111111111111111"

abbrev third_sha : String
third_sha = "2222222222222222222222222222222222222222"

abbrev evidence : Bool → Bool → List (String × Bool)
evidence work closure =
    ("playbook_steps_mapped", work)
    ∷ ("architecture_and_adrs_complete", work)
    ∷ ("state_event_job_enums_in_code", work)
    ∷ ("typed_contracts_pass_validation", work)
    ∷ ("configuration_encodes_playbook_defaults", work)
    ∷ ("integration_strategy_explicit", work)
    ∷ ("adversarial_review_resolved", work)
    ∷ ("control_files_and_checkpoint_current", work)
    ∷ ("evidence_closure_commit_recorded", closure)
    ∷ []

abbrev next_evidence : List (String × Bool)
next_evidence =
    ("fresh_bootstrap_path_documented", false)
    ∷ ("database_schema_and_migrations_work", false)
    ∷ ("seeds_are_idempotent", false)
    ∷ ("runtime_containers_start", false)
    ∷ ("ci_configuration_complete", false)
    ∷ ("foundation_tests_pass", false)
    ∷ ("control_files_and_checkpoint_current", false)
    ∷ ("evidence_closure_commit_recorded", false)
    ∷ []

abbrev at_work : ControlState
at_work = record {
  programme = "money machine";
  version = "1";
  repo_root = "/repo";
  windows_repo_root = "C:/repo";
  branch = "main";
  head_sha = some second_sha;
  bootstrap_commit_sha = some first_sha;
  evidence_closure_commit_sha = some second_sha;
  last_verified_commit = some first_sha;
  state_revision = 4;
  session_status = "incomplete";
  current_session = 1;
  completed_sessions = 0 ∷ [];
  services = [];
  commissioned_agents = [];
  tests = [];
  environment_versions = [];
  blockers = [];
  next_session = none;
  next_prompt = "";
  required_completion_evidence = evidence true false;
  transition_contract = [];
  updated_at = "monday";
  others = [];
}

abbrev closed : ControlState
closed = record at_work {
  state_revision = 5;
  session_status = "complete";
  completed_sessions = 0 ∷ 1 ∷ [];
  next_session = some 2;
  next_prompt = "05_SESSION_02_ENGINEERING_FOUNDATION_AND_DATABASE.md";
  head_sha = some third_sha;
  evidence_closure_commit_sha = some third_sha;
  required_completion_evidence = evidence true true;
  updated_at = "tuesday";
}

abbrev reopened : ControlState
reopened = record closed {
  state_revision = 6;
  session_status = "incomplete";
  current_session = 2;
  required_completion_evidence = next_evidence;
  updated_at = "wednesday";
}

closed_accepted : validate_completion_transition at_work closed ≡ done tt
unfolding validate_completion_transition require_session_advance require_contract without
    require_closed_evidence missing_evidence require_blockers is_member is_sha require_commits
    require_prior_commits prompt_of require_each_same same_field require_same_fields list_eq dict_eq
    range contains_str same_keys evidence_keys_of select lookup
closed_accepted = refl

reopened_accepted : validate_activation_transition closed reopened ≡ done tt
unfolding validate_activation_transition require_completed_session_evidence require_fresh_evidence
    prompt_of require_each_same same_field require_same_fields list_eq dict_eq range contains_str
    same_keys evidence_keys_of select lookup
reopened_accepted = refl

completion-Completed_example : Completed at_work closed × ClosedBy at_work closed
completion-Completed_example = completion-Completed at_work closed closed_accepted

Reaches-one_by_one_example :
    (reopened.current_session ≡ at_work.current_session + 1)
    × (reopened.state_revision ≡ at_work.state_revision + 1 + 1)
    × Alternates reopened 1 1
Reaches-one_by_one_example =
    Reaches-one_by_one (activate (complete here closed_accepted) reopened_accepted) refl

-- the place of a commit in the line
abbrev place_of : String → ℕ
place_of sha = if str_eq sha first_sha then 0 else if str_eq sha second_sha then 1 else 2

abbrev git : Repository
git = record {
  is_dir = λ root. true;
  is_state_path = λ root. true;
  toplevel_is = λ root. some true;
  current_branch = some "main";
  head_commit = some third_sha;
  is_clean = some true;
  rev_parse = λ commit. some commit;
  subject = λ commit. some "chore(bootstrap): initialise money machine autonomous monorepo";
  is_ancestor = λ a b. some (leb (place_of a) (place_of b));
  document = λ commit. some (state at_work);
}

abbrev call : Call
call = record {
  paths_resolve = true;
  is_same_file = false;
  can_lock = true;
  candidate = some closed;
  write_end = written;
  can_unlock = true;
}

abbrev disk : Disk
disk = record { state = some at_work; is_locked = false }

abbrev disk' : Disk
disk' = record { state = some closed; is_locked = false }

apply_completion_transition_test :
    apply_completion_transition git git call disk ≡ (done closed, disk')
unfolding validate_completion_transition require_session_advance require_contract without
    require_closed_evidence missing_evidence require_blockers is_member is_sha require_commits
    require_prior_commits prompt_of require_each_same same_field require_same_fields list_eq dict_eq
    range contains_str same_keys evidence_keys_of select lookup apply_completion_transition
    apply_transition under_lock vetted write_vetted atomic_write verify_completion_repository
    validate_git_evidence validate_repo_identity resolve_commit assert_repo_at_closure
    check_document same_state
apply_completion_transition_test = refl

abbrev IsLater : String → String → Type 0
IsLater a b = leb (place_of b) (place_of a) ≡ true

run : Commands IsLater disk (apply_completion_transition git git call disk).1
run = completed git git call (λ a b h. ground arith) at_start

apply_transition-Applied_example :
    let (answer, left) = apply_completion_transition git git call disk in
    Applied validate_completion_transition
      (verify_completion_repository git git)
      call
      disk
      answer
      left
unfolding apply_completion_transition
apply_transition-Applied_example =
    apply_transition-Applied validate_completion_transition (verify_completion_repository git git)
      call disk

at_work-IsInOrder : IsInOrder at_work
unfolding evidence_keys_of same_keys contains_str range
at_work-IsInOrder = record {
  contract = (_, refl, refl);
  working = λ h. refl;
  closed = λ h. absurd (ground (arith, eq_iff "incomplete" "complete"));
}

commands_keep_order_example : Holds IsInOrder (apply_completion_transition git git call disk).1
commands_keep_order_example = commands_keep_order run (at_work, refl, at_work-IsInOrder)

is_later_trans : (a b c : String) → IsLater a b → IsLater b c → IsLater a c
is_later_trans a b c h k = ground arith

head_descends_example :
    Holds (HeadDescends IsLater second_sha) (apply_completion_transition git git call disk).1
head_descends_example =
    head_descends IsLater second_sha is_later_trans run (at_work, refl, (second_sha, refl, refl))
