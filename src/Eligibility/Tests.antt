-- ===== src/Eligibility/Tests.antt =====
-- Rounds on a shop with six listings, and a slot.
use money_machine.Base.{
  ◌↔◌, ℕ, suc, ◌+◌, ◌*◌, ◌<◌, ◌≤◌, ◌≡◌, refl, ◌≢◌, ◌⊎◌, String, true, false, some, List, [], ◌∷◌,
  arith, All, length, pos, select, exists,
}
use money_machine.Domain.DecisionType.{hold, multiply}
use money_machine.Results.{done}
use money_machine.Eligibility.{
  cohort, cull_group, cull_pool, cull_ids, cull_shops, multiply_ids, multiply_shops, unique_winner,
  winner_of, ranks_before, score_ltb, in_percentile_cohort, shops_of,
}
use money_machine.Eligibility.Models.{SnapshotView, ListingCandidate, PortfolioResult}
use money_machine.Eligibility.Sorting.{sort_by}
use money_machine.Eligibility.Cull.{cull_group-lt}
use money_machine.Eligibility.Winner.{IsWinner, unique_winner-IsWinner}
use money_machine.Eligibility.Decide.{
  evaluate_portfolio, decide_all, decide, decide_on, recorded, add_result, build, plain, classify,
  suppressed, suppressed_by, prior_of,
}
use money_machine.Eligibility.Explaining.{Explained, IsComplete}
use money_machine.Eligibility.Results.{
  IsFinal, evaluate_portfolio-Explained, evaluate_portfolio-done, evaluate_portfolio_repeated,
}

abbrev listing : ℕ → ℕ → ListingCandidate
listing id orders = record {
  listing_id = id;
  product_id = 10 + id;
  spec_id = 20 + id;
  workflow_id = 30 + id;
  shop_id = 1;
  live_days = 40;
  in_window = true;
  has_defect = false;
  snapshot = some (record {
    snapshot_id = 50 + id;
    views = 9;
    favourites = 2;
    orders = orders;
    gross_revenue = 100 * orders;
    reconciled = true;
  });
}

abbrev shop : List ListingCandidate
shop = listing 1 4 ∷ listing 2 1 ∷ listing 3 2 ∷ listing 4 8 ∷ listing 5 3 ∷ listing 6 5 ∷ []

abbrev small_shop : List ListingCandidate
small_shop = listing 1 4 ∷ listing 2 1 ∷ []

abbrev derive : String → List ℕ → ℕ
derive kind [] = 0
derive kind (id ∷ ids) = suc (id + derive kind ids)

derived_is_new : (w l : ℕ) → derive "successor-workflow" (w ∷ l ∷ []) ≢ w
derived_is_new w l e = absurd (omega (arith, e))

culled_two : cull_group (pos 50) shop ≡ done (listing 2 1 ∷ listing 3 2 ∷ [])
unfolding cull_group cull_pool sort_by ranks_before score_ltb select
culled_two = refl

cull_group-lt_example :
    ◌≡◌ {A = List ListingCandidate} (listing 2 1 ∷ listing 3 2 ∷ []) []
    ⊎ ((5 ≤ length shop)
        × (length {A = ListingCandidate} (listing 2 1 ∷ listing 3 2 ∷ []) * 100 < length shop * 50))
cull_group-lt_example = cull_group-lt 50 shop culled_two

won : unique_winner shop ≡ some 4
unfolding unique_winner winner_of sort_by ranks_before score_ltb
won = refl

unique_winner-IsWinner_example :
    (unique_winner shop ≡ some 4)
    ↔ ((best : ListingCandidate) × (best.listing_id ≡ 4) × IsWinner shop best)
unique_winner-IsWinner_example = unique_winner-IsWinner shop 4

abbrev metrics : ℕ → ℕ → SnapshotView
metrics id orders = record {
  snapshot_id = 50 + id;
  views = 9;
  favourites = 2;
  orders = orders;
  gross_revenue = 100 * orders;
  reconciled = true;
}

abbrev results : List PortfolioResult
results =
    build derive (listing 1 4) (metrics 1 4) multiply 1000
    ∷ build derive (listing 2 1) (metrics 2 1) hold 1000
    ∷ []

abbrev results' : List PortfolioResult
results' = build derive (listing 1 4) (metrics 1 4) multiply 2000 ∷ []

first_round : evaluate_portfolio derive small_shop 1000 true [] (pos 80) ≡ done results
unfolding evaluate_portfolio cull_ids cull_shops shops_of in_percentile_cohort exists cull_group
    cohort select decide_all add_result decide decide_on recorded suppressed suppressed_by prior_of
    classify multiply_ids multiply_shops unique_winner winner_of sort_by ranks_before score_ltb
    build plain
first_round = refl

next_round : evaluate_portfolio derive small_shop 2000 true results (pos 80) ≡ done results'
unfolding evaluate_portfolio cull_ids cull_shops shops_of in_percentile_cohort exists cull_group
    cohort select decide_all add_result decide decide_on recorded suppressed suppressed_by prior_of
    classify multiply_ids multiply_shops unique_winner winner_of sort_by ranks_before score_ltb
    build plain
next_round = refl

evaluate_portfolio-Explained_example :
    (culled : List ℕ) × (cull_ids (pos 80) small_shop ≡ done culled)
    × All (Explained derive culled (multiply_ids small_shop culled) [] 1000 small_shop) results
    × IsComplete derive culled (multiply_ids small_shop culled) [] 1000 small_shop results
evaluate_portfolio-Explained_example =
    evaluate_portfolio-Explained derive small_shop 1000 true [] (pos 80)
      (derived_is_new 31 1, (derived_is_new 32 2, tt)) first_round

evaluate_portfolio-done_example :
    (round : List PortfolioResult) × (evaluate_portfolio derive shop 1000 true [] (pos 80)
      ≡ done round)
evaluate_portfolio-done_example = evaluate_portfolio-done derive shop 1000 [] 80 (omega arith)

evaluate_portfolio_repeated_example : All (IsFinal derive) results'
evaluate_portfolio_repeated_example =
    evaluate_portfolio_repeated derive small_shop 1000 2000 (pos 80) ((omega arith, tt), (tt, tt))
      (omega arith) first_round next_round
