-- ===== src/Guard/Products.antt =====
-- The product lifecycle: no product is published but through every quality gate.
use mathlib.Core.Path.{fun_ext}
use money_machine.Base.{
  ℕ, suc, ◌≤◌, ◌<◌, ◌≡◌, refl, Bool, true, List, [], ◌∷◌, arith, All, exists, ◌==◌,
}
use money_machine.Domain.{ProductLifecycleState, DecisionType, is_state}
use money_machine.Domain.ProductLifecycleState.{
  discovered, researching, research_complete, qualifying, qualified, rejected, teardown_pending,
  teardown_complete, spec_ready, dedupe_check, reconcepting, building, build_qa, build_repair,
  variant_build, variant_qa, merchandising, asset_build, asset_qa, drafting, draft_ready, preflight,
  listing_repair, ready_to_publish, published, post_publish_qa, incident_repair, observing, mature,
  evaluating, repairing, deactivating, deactivated, successor_spec,
}
use money_machine.Errors.{Outcome, ok, err, value_error}
use money_machine.Guard.{
  require_product_transition, portfolio_decision_path, successor_workflow_entry_state,
}
use money_machine.Guard.Run.{advance, advance_visits_rank}

-- how far along the pipeline a state is; a repair loop falls back
stage : ProductLifecycleState → ℕ
stage discovered = 0
stage researching = 1
stage research_complete = 2
stage qualifying = 3
stage qualified = 4
stage rejected = 0
stage teardown_pending = 5
stage teardown_complete = 6
stage spec_ready = 7
stage dedupe_check = 8
stage reconcepting = 6
stage building = 9
stage build_qa = 10
stage build_repair = 9
stage variant_build = 11
stage variant_qa = 12
stage merchandising = 13
stage asset_build = 14
stage asset_qa = 15
stage drafting = 16
stage draft_ready = 17
stage preflight = 18
stage listing_repair = 17
stage ready_to_publish = 19
stage published = 20
stage post_publish_qa = 21
stage incident_repair = 22
stage observing = 22
stage mature = 23
stage evaluating = 24
stage repairing = 21
stage deactivating = 25
stage deactivated = 26
stage successor_spec = 25

stage-climbs :
    (s t : ProductLifecycleState) → require_product_transition s t ≡ ok tt → stage t ≤ suc (stage s)
unfolding require_product_transition stage
stage-climbs discovered t h = ground arith
stage-climbs _ t h = ground arith

-- the gates behind DEDUPE_CHECK
abbrev pub build_gates : List ProductLifecycleState
build_gates = build_qa ∷ variant_qa ∷ asset_qa ∷ preflight ∷ ready_to_publish ∷ []

abbrev pub quality_gates : List ProductLifecycleState
quality_gates = qualifying ∷ qualified ∷ dedupe_check ∷ build_gates

pub visited : ProductLifecycleState → List ProductLifecycleState → Bool
unfolding exists
visited gate path = exists (is_state gate) path

module _ (gate : ProductLifecycleState)
    (alone : (u : ProductLifecycleState) → (stage u == stage gate) ≡ is_state gate u) where
  -- A run that starts below a stage where the gate stands alone, and ends at it or above, visits
  -- the gate.
  visits_gate :
      (s t : ProductLifecycleState) (path : List ProductLifecycleState)
      → advance require_product_transition s path ≡ ok t
      → stage s < stage gate
      → stage gate ≤ stage t
      → visited gate path ≡ true
  unfolding visited
  visits_gate s t path h below above = rw (← fun_ext alone) (
      advance_visits_rank require_product_transition stage stage-climbs path s t (stage gate) h
        below above)

qualifying-alone :
    (u : ProductLifecycleState) → (stage u == stage qualifying) ≡ is_state qualifying u
unfolding stage
qualifying-alone discovered = refl
qualifying-alone _ = refl

qualified-alone : (u : ProductLifecycleState) → (stage u == stage qualified) ≡ is_state qualified u
unfolding stage
qualified-alone discovered = refl
qualified-alone _ = refl

dedupe_check-alone :
    (u : ProductLifecycleState) → (stage u == stage dedupe_check) ≡ is_state dedupe_check u
unfolding stage
dedupe_check-alone discovered = refl
dedupe_check-alone _ = refl

build_qa-alone : (u : ProductLifecycleState) → (stage u == stage build_qa) ≡ is_state build_qa u
unfolding stage
build_qa-alone discovered = refl
build_qa-alone _ = refl

variant_qa-alone :
    (u : ProductLifecycleState) → (stage u == stage variant_qa) ≡ is_state variant_qa u
unfolding stage
variant_qa-alone discovered = refl
variant_qa-alone _ = refl

asset_qa-alone : (u : ProductLifecycleState) → (stage u == stage asset_qa) ≡ is_state asset_qa u
unfolding stage
asset_qa-alone discovered = refl
asset_qa-alone _ = refl

preflight-alone : (u : ProductLifecycleState) → (stage u == stage preflight) ≡ is_state preflight u
unfolding stage
preflight-alone discovered = refl
preflight-alone _ = refl

ready_to_publish-alone :
    (u : ProductLifecycleState) → (stage u == stage ready_to_publish) ≡ is_state ready_to_publish u
unfolding stage
ready_to_publish-alone discovered = refl
ready_to_publish-alone _ = refl

-- From a state below every build gate.
through_build_gates :
    (s : ProductLifecycleState) (path : List ProductLifecycleState)
    → advance require_product_transition s path ≡ ok published
    → stage s < 10
    → All (λ gate. visited gate path ≡ true) build_gates
unfolding stage
through_build_gates s path h below = (
  through build_qa build_qa-alone (omega arith) (omega arith),
  (
    through variant_qa variant_qa-alone (omega arith) (omega arith),
    (
      through asset_qa asset_qa-alone (omega arith) (omega arith),
      (
        through preflight preflight-alone (omega arith) (omega arith),
        (through ready_to_publish ready_to_publish-alone (omega arith) (omega arith), tt),
      ),
    ),
  ),
)
  where
    through :
        (gate : ProductLifecycleState)
        → ((u : ProductLifecycleState) → (stage u == stage gate) ≡ is_state gate u)
        → stage s < stage gate
        → stage gate ≤ stage published
        → visited gate path ≡ true
    through gate alone = visits_gate gate alone s published path h

-- A product that the guard has taken from DISCOVERED to PUBLISHED has stood at every quality gate
-- on the way, whatever repair loops it took.
pub published_through_gates :
    (path : List ProductLifecycleState)
    → advance require_product_transition discovered path ≡ ok published
    → All (λ gate. visited gate path ≡ true) quality_gates
unfolding stage
published_through_gates path h = (
  visits_gate qualifying qualifying-alone discovered published path h (omega arith) (omega arith),
  (
    visits_gate qualified qualified-alone discovered published path h (omega arith) (omega arith),
    (
      visits_gate dedupe_check dedupe_check-alone discovered published path h (omega arith)
          (omega arith),
      through_build_gates discovered path h (omega arith),
    ),
  ),
)

-- A successor, which enters its own workflow behind the earlier gates, is published only after
-- BUILD_QA, VARIANT_QA, ASSET_QA, PREFLIGHT and READY_TO_PUBLISH.
pub successor_through_gates :
    (path : List ProductLifecycleState)
    → advance require_product_transition successor_workflow_entry_state path ≡ ok published
    → All (λ gate. visited gate path ≡ true) build_gates
unfolding stage
successor_through_gates path h = through_build_gates dedupe_check path h (omega arith)

abbrev final_state : DecisionType → ProductLifecycleState
final_state DecisionType.cull = deactivated
final_state _ = observing

-- a path with its first state as the start
abbrev walk : List ProductLifecycleState → Outcome ProductLifecycleState
walk [] = err value_error
walk (s ∷ path) = advance require_product_transition s path

-- Every portfolio decision is a legal run of the lifecycle, and ends in DEACTIVATED for CULL and
-- in OBSERVING for the others.
pub portfolio_decision_path_legal :
    (d : DecisionType) → walk (portfolio_decision_path d) ≡ ok (final_state d)
unfolding portfolio_decision_path require_product_transition advance
portfolio_decision_path_legal DecisionType.hold = refl
portfolio_decision_path_legal _ = refl
