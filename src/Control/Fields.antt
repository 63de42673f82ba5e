-- ===== src/Control/Fields.antt =====
-- The implementation state of src/money_machine/control/state.py and the comparison of its fields. The
-- fields are those of the class ControlState; `others` holds any further ones of the file, with their
-- values as text. Sessions and revisions are natural numbers.
use money_machine.Base.{
  ℕ, String, Bool, true, false, not, ◌&&◌, Option, List, [], ◌∷◌, ◌==◌, str_eq, Dict, keys, list_eq,
  all_of, option_eq, dict_eq, same_keys,
}
use money_machine.Results.{Result, done, check, ◌>>◌}

pub record Blocker : Type 0 where
  pub code : String
  pub scope : String
  pub detail : String

abbrev pub blocker_eq : Blocker → Blocker → Bool
blocker_eq b b' = str_eq b.code b'.code && (str_eq b.scope b'.scope && str_eq b.detail b'.detail)

-- a value of the transition contract
pub data ContractEntry : Type 0 where
  flag : Bool → ContractEntry
  count : ℕ → ContractEntry

-- the number that Python compares: `True == 1`
abbrev pub as_number : ContractEntry → ℕ
as_number (flag true) = 1
as_number (flag false) = 0
as_number (count n) = n

abbrev pub contract_entry_eq : ContractEntry → ContractEntry → Bool
contract_entry_eq a b = as_number a == as_number b

pub record ControlState : Type 0 where
  pub programme : String
  pub version : String
  pub repo_root : String
  pub windows_repo_root : String
  pub branch : String
  pub head_sha : Option String
  pub bootstrap_commit_sha : Option String
  pub evidence_closure_commit_sha : Option String
  pub last_verified_commit : Option String
  pub state_revision : ℕ
  pub session_status : String
  pub current_session : ℕ
  pub completed_sessions : List ℕ
  pub services : Dict String
  pub commissioned_agents : List String
  pub tests : Dict String
  pub environment_versions : Dict String
  pub blockers : List Blocker
  pub next_session : Option ℕ
  pub next_prompt : String
  pub required_completion_evidence : Dict Bool
  pub transition_contract : Dict ContractEntry
  pub updated_at : String
  pub others : Dict String

pub data Field : Type 0 where
  programme version repo_root windows_repo_root branch head_sha bootstrap_commit_sha : Field
  evidence_closure_commit_sha last_verified_commit state_revision session_status : Field
  current_session completed_sessions services commissioned_agents tests : Field
  environment_versions blockers next_session next_prompt : Field
  required_completion_evidence transition_contract updated_at others : Field

abbrev pub bool_eq : Bool → Bool → Bool
bool_eq true b = b
bool_eq false true = false
bool_eq false false = true

abbrev pub nat_eq : ℕ → ℕ → Bool
nat_eq a b = a == b

-- `previous[field] == current[field]`
unfoldable pub same_field : Field → ControlState → ControlState → Bool
same_field programme p c = str_eq p.programme c.programme
same_field version p c = str_eq p.version c.version
same_field repo_root p c = str_eq p.repo_root c.repo_root
same_field windows_repo_root p c = str_eq p.windows_repo_root c.windows_repo_root
same_field branch p c = str_eq p.branch c.branch
same_field head_sha p c = option_eq str_eq p.head_sha c.head_sha
same_field bootstrap_commit_sha p c = option_eq str_eq p.bootstrap_commit_sha c.bootstrap_commit_sha
same_field evidence_closure_commit_sha p c =
    option_eq str_eq p.evidence_closure_commit_sha c.evidence_closure_commit_sha
same_field last_verified_commit p c = option_eq str_eq p.last_verified_commit c.last_verified_commit
same_field state_revision p c = p.state_revision == c.state_revision
same_field session_status p c = str_eq p.session_status c.session_status
same_field current_session p c = p.current_session == c.current_session
same_field completed_sessions p c = list_eq nat_eq p.completed_sessions c.completed_sessions
same_field services p c = dict_eq str_eq p.services c.services
same_field commissioned_agents p c = list_eq str_eq p.commissioned_agents c.commissioned_agents
same_field tests p c = dict_eq str_eq p.tests c.tests
same_field environment_versions p c = dict_eq str_eq p.environment_versions c.environment_versions
same_field blockers p c = list_eq blocker_eq p.blockers c.blockers
same_field next_session p c = option_eq nat_eq p.next_session c.next_session
same_field next_prompt p c = str_eq p.next_prompt c.next_prompt
same_field required_completion_evidence p c =
    dict_eq bool_eq p.required_completion_evidence c.required_completion_evidence
same_field transition_contract p c =
    dict_eq contract_entry_eq p.transition_contract c.transition_contract
same_field updated_at p c = str_eq p.updated_at c.updated_at
same_field others p c = dict_eq str_eq p.others c.others

-- why a transition is refused, one constructor for each message of the source
pub data Refusal : Type 0 where
  not_complete no_next_session no_prompt next_does_not_follow wrong_current : Refusal
  not_incomplete fields_differ revision_not_next updated_at_same not_contiguous : Refusal
  wrong_next_prompt no_contract wrong_evidence_keys evidence_missing : Refusal
  evidence_claimed status_not_advanced wrong_completed wrong_next_session : Refusal
  contract_changed contract_not_next evidence_incomplete evidence_changed : Refusal
  outer_gates_missing blockers_changed bad_bootstrap wrong_verified bad_closure : Refusal
  wrong_head closure_not_null closure_reused shas_equal head_not_closure : Refusal
  no_repository wrong_path wrong_worktree wrong_branch shas_required not_a_commit : Refusal
  git_failed wrong_subject head_required not_an_ancestor head_moved not_clean bad_document : Refusal
  claims_itself wrong_document unreadable same_path lock_held write_failed : Refusal
  changed : Field → Refusal

-- the loop over the fields that have to stay as they are, in the order of their names
unfoldable pub require_each_same :
    List Field → ControlState → ControlState → Result Refusal (Unit {0})
require_each_same [] previous current = done tt
require_each_same (field ∷ fields) previous current = do
  check (same_field field previous current) (changed field)
  require_each_same fields previous current

-- `_require_same_fields`, given the fields that are not mutable
unfoldable pub require_same_fields :
    List Field → ControlState → ControlState → Result Refusal (Unit {0})
unfolding same_keys
require_same_fields fields previous current = do
  check (same_keys (keys previous.others) (keys current.others)) fields_differ
  require_each_same fields previous current

abbrev pub value_is : Bool → String × Bool → Bool
value_is true entry = entry.1
value_is false entry = not entry.1

-- `all(evidence.values())` and `not any(evidence.values())`
abbrev pub all_values_are : Bool → Dict Bool → Bool
all_values_are b evidence = all_of (value_is b) evidence
