-- ===== src/Control/Typing.antt =====
-- The form that the state file of src/money_machine/control/state.py must have, written from the class
-- ControlState, and what `_parse_state` accepts.
mod Tests
use money_machine.Base.{
  String, Bool, true, false, ◌&&◌, ◌||◌, ◌≡◌, refl, subst, ◌⊎◌, inl, inr, ◌↔◌, Option, none, some,
  List, [], ◌∷◌, All, all_of, Dict, keys, lookup, contains_str, str_eq, eq_iff, str_eq-eq, arith,
  Option-cases, Bool-cases,
}
use money_machine.Results.{Result, done, refused, check, present, ◌>>=◌, ◌>>◌}
use money_machine.Control.Json.{
  Json, Members, null, object, members, is_text, is_null, is_flag, is_int, is_array_of,
  is_object_of, has_keys, IsText, IsFlag, IsInt, IsArrayOf, IsObjectOf, HasKeys, Decides,
  is_text-Decides, is_null-Decides, is_flag-Decides, is_int-Decides, is_array_of-Decides,
  is_object_of-Decides, has_keys-Decides, or-Decides, and-Decides,
}
use money_machine.Control.Parsing.{
  ParseRefusal, required_fields, as_object, passes, check_each, is_text_or_null, is_int_or_null,
  blocker_keys, is_blocker, is_entry, text_fields, nullable_fields, int_fields, mapping_fields,
  check_types, parse_state,
}

-- The value that a field has, in a form.
abbrev pub Has : (Json → Type 0) → Dict Json → String → Type 0
Has P raw field = (j : Json) × (lookup field raw ≡ some j) × P j

abbrev IsTextOrNull : Json → Type 0
IsTextOrNull j = IsText j ⊎ (j ≡ null)

abbrev IsIntOrNull : Json → Type 0
IsIntOrNull j = (j ≡ null) ⊎ IsInt j

abbrev IsBlocker : Json → Type 0
IsBlocker j = HasKeys blocker_keys j × IsObjectOf IsText j

abbrev IsEntry : Json → Type 0
IsEntry j = IsFlag j ⊎ IsInt j

-- The fields that the class ControlState declares, with their types.
pub record IsControlState (raw : Dict Json) : Type 0 where
  pub programme : Has IsText raw "programme"
  pub version : Has IsText raw "version"
  pub repo_root : Has IsText raw "repo_root"
  pub windows_repo_root : Has IsText raw "windows_repo_root"
  pub branch : Has IsText raw "branch"
  pub head_sha : Has IsTextOrNull raw "head_sha"
  pub bootstrap_commit_sha : Has IsTextOrNull raw "bootstrap_commit_sha"
  pub evidence_closure_commit_sha : Has IsTextOrNull raw "evidence_closure_commit_sha"
  pub last_verified_commit : Has IsTextOrNull raw "last_verified_commit"
  pub state_revision : Has IsInt raw "state_revision"
  pub session_status : Has IsText raw "session_status"
  pub current_session : Has IsInt raw "current_session"
  pub completed_sessions : Has (IsArrayOf IsInt) raw "completed_sessions"
  pub services : Has (IsObjectOf IsText) raw "services"
  pub commissioned_agents : Has (IsArrayOf IsText) raw "commissioned_agents"
  pub tests : Has (IsObjectOf IsText) raw "tests"
  pub environment_versions : Has (IsObjectOf IsText) raw "environment_versions"
  pub blockers : Has (IsArrayOf IsBlocker) raw "blockers"
  pub next_session : Has IsIntOrNull raw "next_session"
  pub next_prompt : Has IsText raw "next_prompt"
  pub required_completion_evidence : Has (IsObjectOf IsFlag) raw "required_completion_evidence"
  pub transition_contract : Has (IsObjectOf IsEntry) raw "transition_contract"
  pub updated_at : Has IsText raw "updated_at"

module _ {test : Json → Bool} {P : Json → Type 0} (decides : Decides test P) (raw : Dict Json) where
  passes-Has : (field : String) → passes test (lookup field raw) ≡ true → Has P raw field
  unfolding passes
  passes-Has field h = elim (Option-cases (lookup field raw)) [
    | inl missing ↦ absurd (ground arith)
    | inr (j, found) ↦ (j, found, (decides j).0 (ground arith))
  ]

  Has-passes : (field : String) → Has P raw field → passes test (lookup field raw) ≡ true
  unfolding passes
  Has-passes field (j, found, holds) = ground (arith, (decides j).1 holds)

  check_each-All :
      (fields : List String) → check_each test fields raw ≡ done tt → All (Has P raw) fields
  unfolding check_each
  check_each-All [] h = tt
  check_each-All (field ∷ fields) h =
      (passes-Has field (ground arith), check_each-All fields (ground arith))

  All-check_each :
      (fields : List String) → All (Has P raw) fields → check_each test fields raw ≡ done tt
  unfolding check_each
  All-check_each [] h = refl
  All-check_each (field ∷ fields) (h, hs) =
      ground (arith, Has-passes field h, All-check_each fields hs)

is_text_or_null-Decides : Decides is_text_or_null IsTextOrNull
is_text_or_null-Decides = or-Decides is_text-Decides is_null-Decides

is_int_or_null-Decides : Decides is_int_or_null IsIntOrNull
is_int_or_null-Decides = or-Decides is_null-Decides is_int-Decides

is_blocker-Decides : Decides is_blocker IsBlocker
is_blocker-Decides =
    and-Decides (has_keys-Decides blocker_keys)
      (is_object_of-Decides is_text IsText is_text-Decides)

is_entry-Decides : Decides is_entry IsEntry
is_entry-Decides = or-Decides is_flag-Decides is_int-Decides

is_ints-Decides : Decides (is_array_of is_int) (IsArrayOf IsInt)
is_ints-Decides = is_array_of-Decides is_int IsInt is_int-Decides

is_texts-Decides : Decides (is_array_of is_text) (IsArrayOf IsText)
is_texts-Decides = is_array_of-Decides is_text IsText is_text-Decides

is_blockers-Decides : Decides (is_array_of is_blocker) (IsArrayOf IsBlocker)
is_blockers-Decides = is_array_of-Decides is_blocker IsBlocker is_blocker-Decides

is_flags-Decides : Decides (is_object_of is_flag) (IsObjectOf IsFlag)
is_flags-Decides = is_object_of-Decides is_flag IsFlag is_flag-Decides

is_mapping-Decides : Decides (is_object_of is_text) (IsObjectOf IsText)
is_mapping-Decides = is_object_of-Decides is_text IsText is_text-Decides

is_contract-Decides : Decides (is_object_of is_entry) (IsObjectOf IsEntry)
is_contract-Decides = is_object_of-Decides is_entry IsEntry is_entry-Decides

check_types-IsControlState : (raw : Dict Json) → check_types raw ≡ done tt → IsControlState raw
unfolding check_types
check_types-IsControlState raw h =
    let texts = check_each-All is_text-Decides raw text_fields (ground arith) in
    let nullable = check_each-All is_text_or_null-Decides raw nullable_fields (ground arith) in
    let ints = check_each-All is_int-Decides raw int_fields (ground arith) in
    let next = check_each-All is_int_or_null-Decides raw ("next_session" ∷ []) (ground arith) in
    let completed = check_each-All is_ints-Decides raw ("completed_sessions" ∷ []) (ground arith) in
    let evidence =
      check_each-All is_flags-Decides raw ("required_completion_evidence" ∷ []) (ground arith) in
    let mappings = check_each-All is_mapping-Decides raw mapping_fields (ground arith) in
    let agents = check_each-All is_texts-Decides raw ("commissioned_agents" ∷ []) (ground arith) in
    let blockers = check_each-All is_blockers-Decides raw ("blockers" ∷ []) (ground arith) in
    let contract =
      check_each-All is_contract-Decides raw ("transition_contract" ∷ []) (ground arith) in
    record {
      programme = texts.0;
      version = texts.1.0;
      repo_root = texts.1.1.0;
      windows_repo_root = texts.1.1.1.0;
      branch = texts.1.1.1.1.0;
      head_sha = nullable.0;
      bootstrap_commit_sha = nullable.1.0;
      evidence_closure_commit_sha = nullable.1.1.0;
      last_verified_commit = nullable.1.1.1.0;
      state_revision = ints.0;
      session_status = texts.1.1.1.1.1.0;
      current_session = ints.1.0;
      completed_sessions = completed.0;
      services = mappings.0;
      commissioned_agents = agents.0;
      tests = mappings.1.0;
      environment_versions = mappings.1.1.0;
      blockers = blockers.0;
      next_session = next.0;
      next_prompt = texts.1.1.1.1.1.1.0;
      required_completion_evidence = evidence.0;
      transition_contract = contract.0;
      updated_at = texts.1.1.1.1.1.1.1.0;
    }

IsControlState-check_types : (raw : Dict Json) → IsControlState raw → check_types raw ≡ done tt
unfolding check_types
IsControlState-check_types raw s = ground (
  arith,
  All-check_each is_text-Decides raw text_fields (
    s.programme,
    (
      s.version,
      (
        s.repo_root,
        (s.windows_repo_root, (s.branch, (s.session_status, (s.next_prompt, (s.updated_at, tt))))),
      ),
    ),
  ),
  All-check_each is_text_or_null-Decides raw nullable_fields (
    s.head_sha,
    (s.bootstrap_commit_sha, (s.evidence_closure_commit_sha, (s.last_verified_commit, tt))),
  ),
  All-check_each is_int-Decides raw int_fields (s.state_revision, (s.current_session, tt)),
  All-check_each is_int_or_null-Decides raw ("next_session" ∷ []) (s.next_session, tt),
  All-check_each is_ints-Decides raw ("completed_sessions" ∷ []) (s.completed_sessions, tt),
  All-check_each is_flags-Decides raw ("required_completion_evidence" ∷ [])
      (s.required_completion_evidence, tt),
  All-check_each is_mapping-Decides raw mapping_fields
      (s.services, (s.tests, (s.environment_versions, tt))),
  All-check_each is_texts-Decides raw ("commissioned_agents" ∷ []) (s.commissioned_agents, tt),
  All-check_each is_blockers-Decides raw ("blockers" ∷ []) (s.blockers, tt),
  All-check_each is_contract-Decides raw ("transition_contract" ∷ []) (s.transition_contract, tt),
)

lookup-contains :
    (field : String) (raw : Dict Json) (j : Json)
    → lookup field raw ≡ some j
    → contains_str field (keys raw) ≡ true
unfolding lookup contains_str
lookup-contains field [] j h = cc
lookup-contains field ((key, k) ∷ raw) j h = elim (Bool-cases (str_eq key field)) [
  | inl same ↦ ground arith
  | inr other ↦ ground (arith, lookup-contains field raw j)
]

Has-contains :
    {P : Json → Type 0} (raw : Dict Json) (field : String)
    → Has P raw field
    → contains_str field (keys raw) ≡ true
Has-contains raw field (j, found, holds) = lookup-contains field raw j found

IsControlState-required :
    (raw : Dict Json)
    → IsControlState raw
    → all_of (λ field. contains_str field (keys raw)) required_fields ≡ true
IsControlState-required raw s = ground (
  arith,
  Has-contains raw "programme" s.programme,
  Has-contains raw "version" s.version,
  Has-contains raw "repo_root" s.repo_root,
  Has-contains raw "windows_repo_root" s.windows_repo_root,
  Has-contains raw "branch" s.branch,
  Has-contains raw "head_sha" s.head_sha,
  Has-contains raw "bootstrap_commit_sha" s.bootstrap_commit_sha,
  Has-contains raw "evidence_closure_commit_sha" s.evidence_closure_commit_sha,
  Has-contains raw "last_verified_commit" s.last_verified_commit,
  Has-contains raw "state_revision" s.state_revision,
  Has-contains raw "session_status" s.session_status,
  Has-contains raw "current_session" s.current_session,
  Has-contains raw "completed_sessions" s.completed_sessions,
  Has-contains raw "services" s.services,
  Has-contains raw "commissioned_agents" s.commissioned_agents,
  Has-contains raw "tests" s.tests,
  Has-contains raw "environment_versions" s.environment_versions,
  Has-contains raw "blockers" s.blockers,
  Has-contains raw "next_session" s.next_session,
  Has-contains raw "next_prompt" s.next_prompt,
  Has-contains raw "required_completion_evidence" s.required_completion_evidence,
  Has-contains raw "transition_contract" s.transition_contract,
  Has-contains raw "updated_at" s.updated_at,
)

as_object-members :
    (j : Json) {raw : Dict Json}
    → as_object j ≡ some raw
    → (ms : Members) × (j ≡ object ms) × (raw ≡ members ms)
unfolding as_object
as_object-members (object ms) h = (ms, refl, ground arith)
as_object-members j h = absurd (ground arith)

-- A state file is accepted exactly where it holds a JSON object each of whose declared fields is there
-- with its declared type; further fields may stand beside them, and the object is passed on as it is. So
-- the cast to ControlState that follows the tests never claims a field or a type that is not there.
pub parse_state_iff :
    (file : Option Json) (raw : Dict Json)
    → (parse_state file ≡ done raw)
      ↔ ((ms : Members) × (file ≡ some (object ms)) × (raw ≡ members ms) × IsControlState raw)
unfolding parse_state as_object
parse_state_iff file raw = (
  (λ h. elim (Option-cases file) [
    | inl missing ↦ absurd (ground arith)
    | inr (j, found) ↦ elim (Option-cases (as_object j)) [
      | inl no_object ↦ absurd (ground arith)
      | inr (fields, is_object) ↦
          let (ms, shape, content) = as_object-members j is_object in
          let same : fields ≡ raw = ground arith in
          let typed : check_types fields ≡ done tt = ground arith in
          (ms, cc, cc, subst IsControlState same (check_types-IsControlState fields typed))
    ]
  ]),
  (λ (ms, found, content, s).
      let opened : as_object (object ms) ≡ some raw = rw content refl in
      let required = IsControlState-required raw s in
      let typed = IsControlState-check_types raw s in ground arith),
)
