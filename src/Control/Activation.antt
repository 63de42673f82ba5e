-- ===== src/Control/Activation.antt =====
-- What an accepted activation of a session says.
use money_machine.Base.{
  ℕ, ◌+◌, ◌≡◌, true, false, some, arith, str_eq-eq, list_eq, list_eq-eq, ==-eq, range, All, inl,
  inr, Option-cases,
}
use money_machine.Results.{done}
use money_machine.Control.{
  validate_activation_transition, kept_by_activation, require_fresh_evidence,
  require_completed_session_evidence,
}
use money_machine.Control.Fields.{all_values_are}
use money_machine.Control.Kept.{HasContract, IsSame, require_same_fields-IsSame}
use money_machine.Control.Contract.{evidence_keys_of}
use money_machine.Control.Fields.{ControlState, nat_eq, require_same_fields}

-- What an accepted activation says.
pub record Activated (p c : ControlState) : Type 0 where
  pub was_complete : p.session_status ≡ "complete"
  pub is_incomplete : c.session_status ≡ "incomplete"
  pub next : p.next_session ≡ some (p.current_session + 1)
  pub current : c.current_session ≡ p.current_session + 1
  pub revision : c.state_revision ≡ p.state_revision + 1
  pub completed_before : p.completed_sessions ≡ range (p.current_session + 1)
  pub evidence_before : all_values_are true p.required_completion_evidence ≡ true
  pub evidence_after : all_values_are false c.required_completion_evidence ≡ true
  pub contract : HasContract c
  pub kept : All (IsSame p c) kept_by_activation

require_fresh_evidence-HasContract :
    (n : ℕ) (c : ControlState)
    → require_fresh_evidence n c ≡ done tt
    → c.current_session ≡ n
    → HasContract c × (all_values_are false c.required_completion_evidence ≡ true)
unfolding require_fresh_evidence
require_fresh_evidence-HasContract n c h e = elim (Option-cases (evidence_keys_of n)) [
  | inl missing ↦ absurd (ground arith)
  | inr (contract, found) ↦ ((contract, rw e found, ground arith), ground arith)
]

require_completed_session_evidence-all :
    (p : ControlState)
    → require_completed_session_evidence p ≡ done tt
    → all_values_are true p.required_completion_evidence ≡ true
unfolding require_completed_session_evidence
require_completed_session_evidence-all p h = ground arith

pub activation-Activated :
    (p c : ControlState) → validate_activation_transition p c ≡ done tt → Activated p c
unfolding validate_activation_transition
activation-Activated p c h =
    let next : p.next_session ≡ some (p.current_session + 1) = ground arith in
    let fresh : require_fresh_evidence (p.current_session + 1) c ≡ done tt = ground arith in
    let before : require_completed_session_evidence p ≡ done tt = ground arith in
    let completed : list_eq nat_eq p.completed_sessions (range (p.current_session + 1)) ≡ true =
      ground arith in
    let same : require_same_fields kept_by_activation p c ≡ done tt = ground arith in
    let current : c.current_session ≡ p.current_session + 1 = ground arith in
    let (contract, none_claimed) = require_fresh_evidence-HasContract _ c fresh current in
    record {
      was_complete = str_eq-eq _ _ (ground arith);
      is_incomplete = str_eq-eq _ _ (ground arith);
      next = next;
      current = current;
      revision = ground arith;
      completed_before = list_eq-eq nat_eq ==-eq _ _ completed;
      evidence_before = require_completed_session_evidence-all p before;
      evidence_after = none_claimed;
      contract = contract;
      kept = require_same_fields-IsSame _ p c same;
    }
