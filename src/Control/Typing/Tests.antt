-- ===== src/Control/Typing/Tests.antt =====
-- A state file of the first session, and one that lacks a field.
use money_machine.Base.{◌≡◌, refl, ◌↔◌, true, some, pos, contains_str, lookup}
use money_machine.Results.{done, refused}
use money_machine.Control.Json.{
  Members, null, flag, number, text, array, object, end, empty, member, members, is_text, is_null,
  is_flag, is_int, is_array_of, is_object_of,
}
use money_machine.Control.Parsing.{
  parse_state, missing_fields, as_object, passes, check_each, check_types,
}
use money_machine.Control.Typing.{IsControlState, parse_state_iff}

abbrev sample : Members
sample = member "programme" (text "money-machine") (
    member "version" (text "1") (
      member "repo_root" (text "/repo") (
        member "windows_repo_root" (text "C:/repo") (
          member "branch" (text "main") (
            member "head_sha" null (
              member "bootstrap_commit_sha" null (
                member "evidence_closure_commit_sha" null (
                  member "last_verified_commit" null (
                    member "state_revision" (number (pos 1)) (
                      member "session_status" (text "incomplete") (
                        member "current_session" (number (pos 0)) (
                          member "completed_sessions" (array end) (
                            member "services" (object empty) (
                              member "commissioned_agents" (array end) (
                                member "tests" (object empty) (
                                  member "environment_versions" (object empty) (
                                    member "blockers" (array end) (
                                      member "next_session" (number (pos 1)) (
                                        member "next_prompt" (text "P01") (
                                          member "required_completion_evidence"
                                            (object (member "clean" (flag true) empty))
                                            (member "transition_contract" (object empty) (
                                              member "updated_at" (text "2026-10-16")
                                                empty))))))))))))))))))))))

parse_state_test : parse_state (some (object sample)) ≡ done (members sample)
unfolding parse_state as_object contains_str check_types check_each passes lookup is_text is_null
    is_int is_array_of is_object_of is_flag
parse_state_test = refl

missing_test : parse_state (some (object empty)) ≡ refused missing_fields
unfolding parse_state as_object contains_str
missing_test = refl

parse_state_iff_example : (parse_state (some (object sample)) ≡ done (members sample)) ↔ (
    (ms : Members) × (some (object sample) ≡ some (object ms))
    × (members sample ≡ members ms)
    × IsControlState (members sample))
parse_state_iff_example = parse_state_iff (some (object sample)) (members sample)
