-- ===== src/Portfolio/Paths.antt =====
-- Which decisions are valid.
use money_machine.Base.{
  ℕ, ◌≡◌, refl, ◌≢◌, ◌↔◌, true, false, none, some, List, [], ◌∷◌, arith, All, exists, ◌==◌,
  Bool-cases, inl, inr,
}
use money_machine.Domain.{DecisionType}
use money_machine.Domain.DecisionType.{hold, repair, cull, multiply}
use money_machine.Errors.{ok}
use money_machine.Portfolio.{PortfolioDecision, all_different, check_path, validate_decision_path}

-- no id stands twice in the list
abbrev pub AllDifferent : List ℕ → Type 0
AllDifferent [] = Unit
AllDifferent (id ∷ ids) = All (λ x. x ≢ id) ids × AllDifferent ids

-- the ids that a decision of each type has
abbrev pub HasPath : DecisionType → PortfolioDecision → Type 0
HasPath hold d =
    (d.repair_job_id ≡ none)
    × (d.deactivation_job_id ≡ none)
    × (d.successor_workflow_id ≡ none)
    × (d.successor_spec_id ≡ none)
HasPath repair d =
    (d.repair_job_id ≢ none)
    × (d.deactivation_job_id ≡ none)
    × (d.successor_workflow_id ≡ none)
    × (d.successor_spec_id ≡ none)
HasPath cull d =
    (d.repair_job_id ≡ none)
    × (d.deactivation_job_id ≢ none)
    × (d.successor_workflow_id ≡ none)
    × (d.successor_spec_id ≡ none)
HasPath multiply d =
    (d.repair_job_id ≡ none)
    × (d.deactivation_job_id ≡ none)
    × ((w : ℕ) × (d.successor_workflow_id ≡ some w) × (w ≢ d.workflow_id))
    × (d.successor_spec_id ≢ none)

exists-All : (id : ℕ) (ids : List ℕ) → (exists (λ x. x == id) ids ≡ false) ↔ All (λ x. x ≢ id) ids
unfolding exists
exists-All id [] = (λ h. tt, λ h. refl)
exists-All id (x ∷ ids) =
    (λ h. ground (arith, (exists-All id ids).0), λ h. ground (arith, (exists-All id ids).1))

all_different-AllDifferent : (ids : List ℕ) → (all_different ids ≡ true) ↔ AllDifferent ids
unfolding all_different
all_different-AllDifferent [] = (λ h. tt, λ h. refl)
all_different-AllDifferent (id ∷ ids) = (
  λ h. ground (arith, (all_different-AllDifferent ids).0, (exists-All id ids).0),
  λ h. ground (arith, (all_different-AllDifferent ids).1, (exists-All id ids).1),
)

check_path_iff : (t : DecisionType) (d : PortfolioDecision) → (check_path t d ≡ ok tt) ↔ HasPath t d
unfolding check_path
check_path_iff hold d = (λ h. ground arith, λ h. ground arith)
check_path_iff repair d = (λ h. ground arith, λ h. ground arith)
check_path_iff cull d = (λ h. ground arith, λ h. ground arith)
check_path_iff multiply d = (λ h. ground arith, λ h. ground arith)

-- A decision is valid exactly when its snapshot ids are all different and it has the ids of its own
-- path and no others: none for HOLD, the repair job for REPAIR, the deactivation job for CULL, and for
-- MULTIPLY a successor's spec and a successor's workflow that is not its own.
pub validate_decision_path_iff :
    (d : PortfolioDecision)
    → (validate_decision_path d ≡ ok tt)
      ↔ (AllDifferent d.metrics_snapshot_ids × HasPath d.decision d)
unfolding validate_decision_path
validate_decision_path_iff d =
    let path = check_path_iff d.decision d in
    let different = all_different-AllDifferent d.metrics_snapshot_ids in
    (
      (λ h. elim (Bool-cases (all_different d.metrics_snapshot_ids)) [
        | inl yes_all ↦ (different.0 yes_all, path.0 (rw yes_all at h))
        | inr repeated ↦ absurd (ground arith)
      ]),
      (λ h. rw (different.1 h.0, path.1 h.1)),
    )
