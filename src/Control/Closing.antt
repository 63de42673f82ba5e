-- ===== src/Control/Closing.antt =====
-- src/money_machine/control/state.py: the parts of `validate_completion_transition`, one for each group of
-- its tests.
use Prim.Native.Char.{code}
use money_machine.Base.{
  ℕ, ◌+◌, String, Bool, true, false, not, ◌&&◌, ◌||◌, Option, none, some, List, [], ◌∷◌, ◌++◌,
  length, select, all_of, list_eq, option_eq, ◌==◌, leb, str_eq, if◌then◌else◌, is_none, Dict, keys,
  lookup, without, dict_eq, same_keys, range,
}
use money_machine.Results.{Result, check, present, ◌>>=◌, ◌>>◌}
use money_machine.Control.Contract.{evidence_keys_of}
use money_machine.Control.Fields.{
  value_is, ControlState, Blocker, blocker_eq, contract_entry_eq, as_number, ContractEntry, nat_eq,
  bool_eq, Refusal,
}
use money_machine.Control.Fields.Refusal.{
  revision_not_next, updated_at_same, not_contiguous, wrong_next_prompt, no_contract,
  wrong_evidence_keys, evidence_missing, wrong_completed, wrong_next_session, contract_changed,
  contract_not_next, evidence_incomplete, evidence_changed, outer_gates_missing, blockers_changed,
  bad_bootstrap, wrong_verified, bad_closure, wrong_head, closure_not_null, closure_reused,
  shas_equal, head_not_closure,
}

-- the sessions, the next prompt and the revision of a completion
unfoldable pub require_session_advance :
    String → ControlState → ControlState → Result Refusal (Unit {0})
require_session_advance prompt previous current = do
  check (current.state_revision == previous.state_revision + 1) revision_not_next
  check (list_eq nat_eq previous.completed_sessions (range previous.current_session)) not_contiguous
  check
      (list_eq nat_eq current.completed_sessions
        (range previous.current_session ++ (previous.current_session ∷ [])))
      wrong_completed
  check (option_eq nat_eq current.next_session (some (current.current_session + 1)))
      wrong_next_session
  check (str_eq current.next_prompt prompt) wrong_next_prompt
  check (not (str_eq current.updated_at previous.updated_at)) updated_at_same

-- `_NEXT_SESSION_CONTRACT_KEY`
abbrev pub next_session_contract_key : String
next_session_contract_key = "completion_requires_next_session"

-- the value of the contract under the key is the next session
abbrev pub names_session : Option ContractEntry → Option ℕ → Bool
names_session (some entry) (some session) = as_number entry == session
names_session none none = true
names_session _ _ = false

unfoldable pub require_contract : ControlState → ControlState → Result Refusal (Unit {0})
require_contract previous current = do
  check
      (dict_eq contract_entry_eq (without next_session_contract_key previous.transition_contract)
        (without next_session_contract_key current.transition_contract))
      contract_changed
  check
      (is_none (lookup next_session_contract_key previous.transition_contract)
        || names_session (lookup next_session_contract_key current.transition_contract)
            current.next_session)
      contract_not_next

-- `_CLOSURE_EVIDENCE_KEY`
abbrev pub closure_evidence_key : String
closure_evidence_key = "evidence_closure_commit_recorded"

-- the evidence that has not been recorded
unfoldable pub missing_evidence : Dict Bool → List String
missing_evidence evidence = keys (select (value_is false) evidence)

-- `current_evidence[key] == expected`
abbrev pub keeps_evidence : Dict Bool → String × Bool → Bool
keeps_evidence current entry =
    option_eq bool_eq (lookup entry.0 current)
      (some (if str_eq entry.0 closure_evidence_key then true else entry.1))

unfoldable pub require_closed_evidence : ControlState → ControlState → Result Refusal (Unit {0})
require_closed_evidence previous current = do
  let before = previous.required_completion_evidence
  let after = current.required_completion_evidence
  contract ← present (evidence_keys_of previous.current_session) no_contract
  check (same_keys (keys before) contract && same_keys (keys after) (keys before))
      wrong_evidence_keys
  check (list_eq str_eq (missing_evidence before) (closure_evidence_key ∷ [])) evidence_missing
  check (all_of (keeps_evidence after) before) evidence_changed
  check (list_eq str_eq (missing_evidence after) []) evidence_incomplete

-- `_OUTER_GATES_BLOCKER`
abbrev pub is_outer_gates : Blocker → Bool
is_outer_gates blocker = str_eq blocker.code "SESSION_00_OUTER_GATES_PENDING"

unfoldable pub is_member : List Blocker → Blocker → Bool
is_member [] blocker = false
is_member (b ∷ blockers) blocker = blocker_eq b blocker || is_member blockers blocker

unfoldable pub require_blockers : ControlState → ControlState → Result Refusal (Unit {0})
require_blockers previous current =
    if previous.current_session == 0
    then (do
      check (length (select is_outer_gates previous.blockers) == 1) outer_gates_missing
      check
          (list_eq blocker_eq current.blockers
            (select (λ blocker. not (is_outer_gates blocker)) previous.blockers))
          blockers_changed)
    else check
        (list_eq blocker_eq current.blockers
          (select (is_member current.blockers) previous.blockers))
        blockers_changed

pub is_hex : ℕ → Bool
is_hex c = leb b'0' c && leb c b'9' || leb b'a' c && leb c b'f'

abbrev pub codes : String → List ℕ
codes String.[] = []
codes (String.◌∷◌ c s) = code c ∷ codes s

-- `SHA_PATTERN.fullmatch(sha or "")`
unfoldable pub is_sha : Option String → Bool
unfolding is_hex
is_sha none = false
is_sha (some sha) = length (codes sha) == 40 && all_of is_hex (codes sha)

abbrev pub sha_eq : Option String → Option String → Bool
sha_eq a b = option_eq str_eq a b

-- the commits before the transition: the bootstrap commit, or the closure of the session before
unfoldable pub require_prior_commits : ControlState → ControlState → Result Refusal (Unit {0})
require_prior_commits previous current =
    if previous.current_session == 0
    then (do
      check (sha_eq previous.head_sha previous.bootstrap_commit_sha) wrong_head
      check (is_none previous.evidence_closure_commit_sha) closure_not_null)
    else (do
      check (is_sha previous.evidence_closure_commit_sha) bad_closure
      check (sha_eq previous.head_sha previous.evidence_closure_commit_sha) wrong_head
      check (not (sha_eq current.evidence_closure_commit_sha previous.evidence_closure_commit_sha))
          closure_reused)

unfoldable pub require_commits : ControlState → ControlState → Result Refusal (Unit {0})
require_commits previous current = do
  check (is_sha previous.bootstrap_commit_sha) bad_bootstrap
  check (sha_eq previous.last_verified_commit previous.bootstrap_commit_sha) wrong_verified
  check (is_sha current.evidence_closure_commit_sha) bad_closure
  require_prior_commits previous current
  check (not (sha_eq previous.bootstrap_commit_sha current.evidence_closure_commit_sha)) shas_equal
  check (sha_eq current.head_sha current.evidence_closure_commit_sha) head_not_closure
