-- ===== src/Control/Parsing.antt =====
-- `_parse_state` of src/money_machine/control/state.py: the tests on a state file's JSON value. The value
-- is an argument, none where the file cannot be read or is no JSON.
use money_machine.Base.{
  String, Bool, false, ◌&&◌, ◌||◌, Option, none, some, List, [], ◌∷◌, all_of, Dict, keys, lookup,
  contains_str,
}
use money_machine.Results.{Result, done, check, present, ◌>>=◌, ◌>>◌}
use money_machine.Control.Json.{
  Json, object, members, is_text, is_null, is_flag, is_int, is_array_of, is_object_of, has_keys,
}

-- the messages of `_parse_state`, with the field that they name
pub data ParseRefusal : Type 0 where
  unreadable not_an_object missing_fields : ParseRefusal
  wrong_type : String → ParseRefusal

-- `_REQUIRED_FIELDS`
abbrev pub required_fields : List String
required_fields =
    "programme" ∷ "version" ∷ "repo_root" ∷ "windows_repo_root" ∷ "branch" ∷ "head_sha"
    ∷ "bootstrap_commit_sha" ∷ "evidence_closure_commit_sha" ∷ "last_verified_commit"
    ∷ "state_revision" ∷ "session_status" ∷ "current_session" ∷ "completed_sessions" ∷ "services"
    ∷ "commissioned_agents" ∷ "tests" ∷ "environment_versions" ∷ "blockers" ∷ "next_session"
    ∷ "next_prompt" ∷ "required_completion_evidence" ∷ "transition_contract" ∷ "updated_at" ∷ []

-- `isinstance(decoded, dict)`
unfoldable pub as_object : Json → Option (Dict Json)
as_object (object ms) = some (members ms)
as_object _ = none

-- a test on `raw[field]`
unfoldable pub passes : (Json → Bool) → Option Json → Bool
passes test none = false
passes test (some j) = test j

unfoldable pub check_each : (Json → Bool) → List String → Dict Json → Result ParseRefusal (Unit {0})
check_each test [] raw = done tt
check_each test (field ∷ fields) raw = do
  check (passes test (lookup field raw)) (wrong_type field)
  check_each test fields raw

abbrev pub is_text_or_null : Json → Bool
is_text_or_null j = is_text j || is_null j

abbrev pub is_int_or_null : Json → Bool
is_int_or_null j = is_null j || is_int j

abbrev pub blocker_keys : List String
blocker_keys = "code" ∷ "scope" ∷ "detail" ∷ []

abbrev pub is_blocker : Json → Bool
is_blocker j = has_keys blocker_keys j && is_object_of is_text j

abbrev pub is_entry : Json → Bool
is_entry j = is_flag j || is_int j

-- the fields of each test, in the order of the tests
abbrev pub text_fields : List String
text_fields =
    "programme" ∷ "version" ∷ "repo_root" ∷ "windows_repo_root" ∷ "branch" ∷ "session_status"
    ∷ "next_prompt" ∷ "updated_at" ∷ []

abbrev pub nullable_fields : List String
nullable_fields =
    "head_sha" ∷ "bootstrap_commit_sha" ∷ "evidence_closure_commit_sha" ∷ "last_verified_commit"
    ∷ []

abbrev pub int_fields : List String
int_fields = "state_revision" ∷ "current_session" ∷ []

abbrev pub mapping_fields : List String
mapping_fields = "services" ∷ "tests" ∷ "environment_versions" ∷ []

-- the tests on the values of the fields
unfoldable pub check_types : Dict Json → Result ParseRefusal (Unit {0})
check_types raw = do
  check_each is_text text_fields raw
  check_each is_text_or_null nullable_fields raw
  check_each is_int int_fields raw
  check_each is_int_or_null ("next_session" ∷ []) raw
  check_each (is_array_of is_int) ("completed_sessions" ∷ []) raw
  check_each (is_object_of is_flag) ("required_completion_evidence" ∷ []) raw
  check_each (is_object_of is_text) mapping_fields raw
  check_each (is_array_of is_text) ("commissioned_agents" ∷ []) raw
  check_each (is_array_of is_blocker) ("blockers" ∷ []) raw
  check_each (is_object_of is_entry) ("transition_contract" ∷ []) raw

unfoldable pub parse_state : Option Json → Result ParseRefusal (Dict Json)
parse_state file = do
  decoded ← present file unreadable
  raw ← present (as_object decoded) not_an_object
  check (all_of (λ field. contains_str field (keys raw)) required_fields) missing_fields
  check_types raw
  done raw
