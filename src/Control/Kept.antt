-- ===== src/Control/Kept.antt =====
-- What an accepted comparison of fields says of two states.
use money_machine.Base.{
  String, some, ◌≡◌, true, List, [], ◌∷◌, arith, All, str_eq, str_eq-eq, ==-eq, list_eq-eq,
  option_eq-eq, keys, same_keys,
}
use money_machine.Results.{done}
use money_machine.Control.Contract.{evidence_keys_of}
use money_machine.Control.Fields.{
  ControlState, Field, same_field, require_each_same, require_same_fields, nat_eq,
}

-- The evidence of the state is that of its session.
abbrev pub HasContract : ControlState → Type 0
HasContract s =
    (contract : List String) × (evidence_keys_of s.current_session ≡ some contract)
    × (same_keys (keys s.required_completion_evidence) contract ≡ true)

-- the field is the same in both states
abbrev pub IsSame : ControlState → ControlState → Field → Type 0
IsSame p c field = same_field field p c ≡ true

require_each_same-IsSame :
    (fields : List Field) (p c : ControlState)
    → require_each_same fields p c ≡ done tt
    → All (IsSame p c) fields
unfolding require_each_same
require_each_same-IsSame [] p c h = tt
require_each_same-IsSame (field ∷ fields) p c h =
    ground (arith, require_each_same-IsSame fields p c)

pub require_same_fields-IsSame :
    (fields : List Field) (p c : ControlState)
    → require_same_fields fields p c ≡ done tt
    → All (IsSame p c) fields
unfolding require_same_fields
require_same_fields-IsSame fields p c h = ground (arith, require_each_same-IsSame fields p c)

module _ (p c : ControlState) where
  pub same-completed_sessions :
      IsSame p c Field.completed_sessions → c.completed_sessions ≡ p.completed_sessions
  unfolding same_field
  same-completed_sessions h = cc (list_eq-eq nat_eq ==-eq _ _ h)

  pub same-current_session :
      IsSame p c Field.current_session → c.current_session ≡ p.current_session
  unfolding same_field
  same-current_session h = ground arith

  pub same-bootstrap_commit_sha :
      IsSame p c Field.bootstrap_commit_sha → c.bootstrap_commit_sha ≡ p.bootstrap_commit_sha
  unfolding same_field
  same-bootstrap_commit_sha h =
      cc (option_eq-eq str_eq str_eq-eq p.bootstrap_commit_sha c.bootstrap_commit_sha h)

  pub same-evidence_closure_commit_sha :
      IsSame p c Field.evidence_closure_commit_sha
      → c.evidence_closure_commit_sha ≡ p.evidence_closure_commit_sha
  unfolding same_field
  same-evidence_closure_commit_sha h =
      cc (
        option_eq-eq str_eq str_eq-eq p.evidence_closure_commit_sha c.evidence_closure_commit_sha h)

  pub same-head_sha : IsSame p c Field.head_sha → c.head_sha ≡ p.head_sha
  unfolding same_field
  same-head_sha h = cc (option_eq-eq str_eq str_eq-eq p.head_sha c.head_sha h)
