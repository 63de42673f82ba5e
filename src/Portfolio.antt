-- ===== src/Portfolio.antt =====
-- `PortfolioDecision` of src/money_machine/domain/models/portfolio.py. The listing, the product, the
-- texts and the evidence, which nothing here reads, are left out.
pub mod Paths
use money_machine.Base.{
  ℕ, Bool, true, false, not, ◌&&◌, ◌||◌, Option, none, some, List, [], ◌∷◌, exists, is_none, ◌==◌,
  if◌then◌else◌,
}
use money_machine.Domain.{DecisionType}
use money_machine.Domain.DecisionType.{hold, repair, cull, multiply}
use money_machine.Errors.{Outcome, ok, value_error, guard, ◌>>=◌, ◌>>◌}

pub record PortfolioDecision : Type 0 where
  pub decision_id : ℕ
  pub workflow_id : ℕ
  pub decision : DecisionType
  pub metrics_snapshot_ids : List ℕ
  pub repair_job_id : Option ℕ
  pub deactivation_job_id : Option ℕ
  pub successor_workflow_id : Option ℕ
  pub successor_spec_id : Option ℕ

-- `len(set(ids)) == len(ids)`
unfoldable pub all_different : List ℕ → Bool
all_different [] = true
all_different (id ∷ ids) = let rest = all_different ids in not (exists (λ x. x == id) ids) && rest

abbrev is_id : Option ℕ → ℕ → Bool
is_id none id = false
is_id (some x) id = x == id

unfoldable pub check_path : DecisionType → PortfolioDecision → Outcome (Unit {0})
check_path hold d =
    guard
      (is_none d.repair_job_id
        && is_none d.deactivation_job_id
        && is_none d.successor_workflow_id
        && is_none d.successor_spec_id)
      value_error
check_path repair d = do
  guard (not (is_none d.repair_job_id)) value_error
  guard
      (is_none d.deactivation_job_id
        && is_none d.successor_workflow_id
        && is_none d.successor_spec_id)
      value_error
check_path cull d = do
  guard (not (is_none d.deactivation_job_id)) value_error
  guard (is_none d.repair_job_id && is_none d.successor_workflow_id && is_none d.successor_spec_id)
      value_error
check_path multiply d = do
  guard (not (is_none d.successor_workflow_id)) value_error
  guard (not (is_none d.successor_spec_id)) value_error
  guard (not (is_id d.successor_workflow_id d.workflow_id)) value_error
  guard (is_none d.repair_job_id && is_none d.deactivation_job_id) value_error

unfoldable pub validate_decision_path : PortfolioDecision → Outcome (Unit {0})
validate_decision_path d = do
  guard (all_different d.metrics_snapshot_ids) value_error
  check_path d.decision d
