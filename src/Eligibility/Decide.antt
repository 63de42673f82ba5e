-- ===== src/Eligibility/Decide.antt =====
-- The decision on each listing of a round: `evaluate_portfolio` and what it calls for one listing.
use money_machine.Base.{
  ℕ, ◌+◌, String, Bool, true, false, not, ◌&&◌, Option, none, some, List, [], ◌∷◌, ltb, ◌==◌,
  if◌then◌else◌, ℤ,
}
use money_machine.Results.{Result, done, check, ◌>>=◌, ◌>>◌}
use money_machine.Domain.{DecisionType}
use money_machine.Domain.DecisionType.{hold, repair, cull, multiply}
use money_machine.Domain.EventName.{
  listing_held, listing_repair_requested, listing_cull_requested, winner_detected,
}
use money_machine.Eligibility.{EligibilityError, naive_time, cull_ids, multiply_ids, is_in}
use money_machine.Eligibility.Models.{SnapshotView, ListingCandidate, PortfolioResult}

-- `_classify`
unfoldable pub classify : ListingCandidate → SnapshotView → List ℕ → List ℕ → Option DecisionType
classify listing snapshot culled winners =
    if listing.has_defect
    then some repair
    else if ltb listing.live_days 30
    then none
    else if ltb 0 snapshot.views && snapshot.orders == 0
    then some repair
    else if is_in culled listing.listing_id
    then some cull
    else if is_in winners listing.listing_id
    then some multiply
    else if listing.in_window
    then some hold
    else none

is_snapshot : Option SnapshotView → ℕ → Bool
is_snapshot none id = false
is_snapshot (some snapshot) id = snapshot.snapshot_id == id

is_later : Option ℕ → ℕ → Bool
is_later none decided_at = false
is_later (some next) decided_at = ltb decided_at next

unfoldable pub suppressed_by : ListingCandidate → DecisionType → PortfolioResult → ℕ → Bool
unfolding is_snapshot is_later
suppressed_by listing hold prior decided_at = is_later prior.next_collection_at decided_at
suppressed_by listing repair prior decided_at = is_snapshot listing.snapshot prior.snapshot_id
suppressed_by listing cull prior decided_at = false
suppressed_by listing multiply prior decided_at = false

-- `_suppressed`
unfoldable pub suppressed : ListingCandidate → Option PortfolioResult → ℕ → Bool
unfolding suppressed_by
suppressed listing none decided_at = false
suppressed listing (some prior) decided_at = suppressed_by listing prior.decision prior decided_at

-- `priors_by_listing.get(listing_id)`: of several results for a listing the last counts
unfoldable pub prior_of : ℕ → List PortfolioResult → Option PortfolioResult
prior_of id [] = none
prior_of id (prior ∷ priors) = elim (prior_of id priors) [
  | some later ↦ some later
  | none ↦ if prior.listing_id == id then some prior else none
]

-- `DecisionType.value`
decision_value : DecisionType → String
decision_value hold = "HOLD"
decision_value repair = "REPAIR"
decision_value cull = "CULL"
decision_value multiply = "MULTIPLY"

-- `_COLLECTION_GAP`: seven days
abbrev pub collection_gap : ℕ
collection_gap = 604800

-- `results.append(...)`, unless the listing has been passed over
unfoldable pub add_result : Option PortfolioResult → List PortfolioResult → List PortfolioResult
add_result none results = results
add_result (some result) results = result ∷ results

-- `derive` is the UUID5 of a name and some ids, which is a hash.
module _ (derive : String → List ℕ → ℕ) where
  -- `_record` with no optional part
  unfoldable pub plain : ListingCandidate → SnapshotView → DecisionType → ℕ → PortfolioResult
  unfolding decision_value
  plain listing snapshot decision decided_at = record {
    listing_id = listing.listing_id;
    decision_id = derive (decision_value decision) (listing.listing_id ∷ snapshot.snapshot_id ∷ []);
    decision = decision;
    decided_at = decided_at;
    snapshot_id = snapshot.snapshot_id;
    event_names = [];
    deactivation_job_id = none;
    deactivation_executed = false;
    repair_job_id = none;
    next_collection_at = none;
    successor_spec_id = none;
    is_successor = false;
    successor_workflow_id = none;
    parent_spec_id = none;
    parent_product_id = none;
    parent_decision_id = none;
    parent_workflow_id = none;
  }

  -- `_build`
  unfoldable pub build : ListingCandidate → SnapshotView → DecisionType → ℕ → PortfolioResult
  unfolding plain
  build listing snapshot hold decided_at = record (plain listing snapshot hold decided_at) {
    event_names = listing_held ∷ [];
    next_collection_at = some (decided_at + collection_gap);
  }
  build listing snapshot repair decided_at = record (plain listing snapshot repair decided_at) {
    event_names = listing_repair_requested ∷ [];
    repair_job_id = some (derive "repair" (listing.listing_id ∷ snapshot.snapshot_id ∷ []));
  }
  build listing snapshot cull decided_at = record (plain listing snapshot cull decided_at) {
    event_names = listing_cull_requested ∷ [];
    deactivation_job_id =
        some (derive "deactivation" (listing.listing_id ∷ snapshot.snapshot_id ∷ []));
  }
  build listing snapshot multiply decided_at =
      let base = plain listing snapshot multiply decided_at in
      record base {
        event_names = winner_detected ∷ [];
        successor_spec_id =
            some (derive "successor-spec" (listing.spec_id ∷ listing.listing_id ∷ []));
        is_successor = true;
        successor_workflow_id =
            some (derive "successor-workflow" (listing.workflow_id ∷ listing.listing_id ∷ []));
        parent_spec_id = some listing.spec_id;
        parent_product_id = some listing.product_id;
        parent_decision_id = some base.decision_id;
        parent_workflow_id = some listing.workflow_id;
      }

  -- the end of the loop body: a decision is recorded where there is one
  unfoldable pub recorded :
      ListingCandidate → SnapshotView → ℕ → Option DecisionType → Option PortfolioResult
  recorded listing snapshot decided_at none = none
  recorded listing snapshot decided_at (some decision) =
      some (build listing snapshot decision decided_at)

  -- the loop body for a listing and its snapshot
  unfoldable pub decide_on :
      List ℕ
      → List ℕ
      → List PortfolioResult
      → ℕ
      → ListingCandidate
      → Option SnapshotView
      → Option PortfolioResult
  unfolding recorded
  decide_on culled winners priors decided_at listing none = none
  decide_on culled winners priors decided_at listing (some snapshot) =
      if not snapshot.reconciled
      then none
      else if suppressed listing (prior_of listing.listing_id priors) decided_at
      then none
      else recorded listing snapshot decided_at (classify listing snapshot culled winners)

  -- the loop body
  unfoldable pub decide :
      List ℕ → List ℕ → List PortfolioResult → ℕ → ListingCandidate → Option PortfolioResult
  unfolding decide_on
  decide culled winners priors decided_at listing =
      decide_on culled winners priors decided_at listing listing.snapshot

  unfoldable pub decide_all :
      List ℕ → List ℕ → List PortfolioResult → ℕ → List ListingCandidate → List PortfolioResult
  decide_all culled winners priors decided_at [] = []
  decide_all culled winners priors decided_at (listing ∷ listings) =
      add_result (decide culled winners priors decided_at listing)
        (decide_all culled winners priors decided_at listings)

  -- `evaluate_portfolio`, with the percentage that is read from its text
  unfoldable pub evaluate_portfolio :
      List ListingCandidate
      → ℕ
      → Bool
      → List PortfolioResult
      → ℤ
      → Result EligibilityError (List PortfolioResult)
  evaluate_portfolio listings decided_at has_zone priors percent = do
    check has_zone naive_time
    culled ← cull_ids percent listings
    done (decide_all culled (multiply_ids listings culled) priors decided_at listings)
