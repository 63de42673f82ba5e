-- ===== src/Eligibility/Models.antt =====
-- src/money_machine/assets/portfolio_eligibility.py: the listings of a round, their metrics and the results.
-- Times are seconds, and the counts of a snapshot natural numbers.
use money_machine.Base.{ℕ, Bool, Option, List}
use money_machine.Domain.{DecisionType, EventName}

pub record SnapshotView : Type 0 where
  pub snapshot_id : ℕ
  pub views : ℕ
  pub favourites : ℕ
  pub orders : ℕ
  pub gross_revenue : ℕ
  pub reconciled : Bool

pub record ListingCandidate : Type 0 where
  pub listing_id : ℕ
  pub product_id : ℕ
  pub spec_id : ℕ
  pub workflow_id : ℕ
  pub shop_id : ℕ
  pub live_days : ℕ
  pub in_window : Bool
  pub has_defect : Bool
  pub snapshot : Option SnapshotView

-- `lineage_kind`, `stops_at`, `build_step` and `job_types` have one value each, or none: the first two
-- stand as one flag, and the last two, always empty, are left out.
pub record PortfolioResult : Type 0 where
  pub listing_id : ℕ
  pub decision_id : ℕ
  pub decision : DecisionType
  pub decided_at : ℕ
  pub snapshot_id : ℕ
  pub event_names : List EventName
  pub deactivation_job_id : Option ℕ
  pub deactivation_executed : Bool
  pub repair_job_id : Option ℕ
  pub next_collection_at : Option ℕ
  pub successor_spec_id : Option ℕ
  pub is_successor : Bool
  pub successor_workflow_id : Option ℕ
  pub parent_spec_id : Option ℕ
  pub parent_product_id : Option ℕ
  pub parent_decision_id : Option ℕ
  pub parent_workflow_id : Option ℕ

-- `_Score`, compared from the left
pub record Score : Type 0 where
  pub orders : ℕ
  pub gross_revenue : ℕ
  pub favourites : ℕ
  pub views : ℕ
