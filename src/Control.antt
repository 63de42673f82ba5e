-- ===== src/Control.antt =====
-- src/money_machine/control/state.py: the validators of the two transitions of the implementation
-- state. A session is activated, worked on, and completed. Control.Contract has the tables,
-- Control.Fields the state, Control.Repository the checks against Git and Control.Files the state file.
pub mod Closing
pub mod Contract
pub mod Fields
pub mod Json
pub mod Parsing
pub mod Typing
pub mod Repository
pub mod Files
mod Kept
pub mod Activation
pub mod Completion
pub mod Sessions
pub mod Replacement
pub mod History
mod Tests
use money_machine.Control.Closing.{
  require_session_advance, next_session_contract_key, names_session, require_contract,
  closure_evidence_key, missing_evidence, keeps_evidence, require_closed_evidence, is_outer_gates,
  is_member, require_blockers, codes, is_hex, is_sha, sha_eq, require_prior_commits,
  require_commits,
}
use Prim.Native.Char.{code}
use money_machine.Base.{
  ℕ, ◌+◌, String, Bool, true, false, not, ◌&&◌, ◌||◌, Option, none, some, List, [], ◌∷◌, ◌++◌,
  length, select, all_of, list_eq, option_eq, ◌==◌, leb, str_eq, if◌then◌else◌, is_none, Dict, keys,
  lookup, without, dict_eq, same_keys, range,
}
use money_machine.Results.{Result, done, refused, check, present, ◌>>=◌, ◌>>◌}
use money_machine.Control.Contract.{prompt_of, evidence_keys_of}
use money_machine.Control.Fields.{
  all_values_are, ControlState, Blocker, blocker_eq, contract_entry_eq, as_number, ContractEntry,
  nat_eq, bool_eq, same_field, require_each_same, require_same_fields, Refusal, Field,
}
use money_machine.Control.Fields.Refusal.{
  not_complete, no_next_session, no_prompt, next_does_not_follow, wrong_current, not_incomplete,
  revision_not_next, updated_at_same, not_contiguous, wrong_next_prompt, no_contract,
  wrong_evidence_keys, evidence_missing, evidence_claimed, status_not_advanced, wrong_completed,
  wrong_next_session, contract_changed, contract_not_next, evidence_incomplete, evidence_changed,
  outer_gates_missing, blockers_changed, bad_bootstrap, wrong_verified, bad_closure, wrong_head,
  closure_not_null, closure_reused, shas_equal, head_not_closure,
}

-- the fields that are not in `_ACTIVATION_MUTABLE_FIELDS`
abbrev pub kept_by_activation : List Field
kept_by_activation =
    Field.blockers ∷ Field.bootstrap_commit_sha ∷ Field.branch ∷ Field.commissioned_agents
    ∷ Field.completed_sessions ∷ Field.environment_versions ∷ Field.evidence_closure_commit_sha
    ∷ Field.head_sha ∷ Field.last_verified_commit ∷ Field.next_prompt ∷ Field.next_session
    ∷ Field.programme ∷ Field.repo_root ∷ Field.services ∷ Field.tests ∷ Field.transition_contract
    ∷ Field.version ∷ Field.windows_repo_root ∷ Field.others ∷ []

-- the fields that are not in `_COMPLETION_MUTABLE_FIELDS`
abbrev pub kept_by_completion : List Field
kept_by_completion =
    Field.bootstrap_commit_sha ∷ Field.branch ∷ Field.commissioned_agents ∷ Field.current_session
    ∷ Field.environment_versions ∷ Field.last_verified_commit ∷ Field.programme ∷ Field.repo_root
    ∷ Field.services ∷ Field.tests ∷ Field.version ∷ Field.windows_repo_root ∷ Field.others ∷ []

-- `_IDENTITY_FIELDS`
abbrev identity_fields : List Field
identity_fields =
    Field.programme ∷ Field.version ∷ Field.repo_root ∷ Field.branch ∷ Field.current_session ∷ []

unfoldable pub require_completed_session_evidence : ControlState → Result Refusal (Unit {0})
require_completed_session_evidence previous = do
  contract ← present (evidence_keys_of previous.current_session) no_contract
  check (same_keys (keys previous.required_completion_evidence) contract) wrong_evidence_keys
  check (all_values_are true previous.required_completion_evidence) evidence_missing

-- the end of the activation: the new session's evidence, of which nothing is claimed
unfoldable pub require_fresh_evidence : ℕ → ControlState → Result Refusal (Unit {0})
require_fresh_evidence next current = do
  contract ← present (evidence_keys_of next) no_contract
  check (same_keys (keys current.required_completion_evidence) contract) wrong_evidence_keys
  check (all_values_are false current.required_completion_evidence) evidence_claimed

unfoldable pub validate_activation_transition :
    ControlState → ControlState → Result Refusal (Unit {0})
validate_activation_transition previous current = do
  check (str_eq previous.session_status "complete") not_complete
  next ← present previous.next_session no_next_session
  prompt ← present (prompt_of next) no_prompt
  check (next == previous.current_session + 1) next_does_not_follow
  check (current.current_session == next) wrong_current
  check (str_eq current.session_status "incomplete") not_incomplete
  require_same_fields kept_by_activation previous current
  check (current.state_revision == previous.state_revision + 1) revision_not_next
  check (not (str_eq current.updated_at previous.updated_at)) updated_at_same
  check (list_eq nat_eq previous.completed_sessions (range next)) not_contiguous
  check (str_eq previous.next_prompt prompt) wrong_next_prompt
  require_completed_session_evidence previous
  require_fresh_evidence next current

unfoldable pub validate_completion_transition :
    ControlState → ControlState → Result Refusal (Unit {0})
validate_completion_transition previous current = do
  prompt ← present (prompt_of previous.current_session) no_prompt
  prompt' ← present (prompt_of (previous.current_session + 1)) no_prompt
  check (str_eq previous.session_status "incomplete" && str_eq current.session_status "complete")
      status_not_advanced
  require_each_same identity_fields previous current
  require_same_fields kept_by_completion previous current
  require_session_advance prompt' previous current
  require_contract previous current
  require_closed_evidence previous current
  require_blockers previous current
  require_commits previous current
