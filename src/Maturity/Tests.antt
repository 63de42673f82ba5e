-- ===== src/Maturity/Tests.antt =====
-- A listing that was live for forty days with a pause.
use money_machine.Base.{ℕ, ◌*◌, String, ◌≡◌, refl, true, none, some, [], ◌∷◌, order_by}
use money_machine.Results.{done}
use money_machine.Maturity.{
  Moment, LiveInterval, active, MaturityEvaluation, evaluate_maturity, accumulated_live_periods,
  collect, clipped, total_seconds, repair_of,
}
use money_machine.Maturity.Decision.{IsEvaluation, evaluate_maturity-IsEvaluation}

abbrev day : ℕ → Moment
day n = record { at = n * 86400000000; has_zone = true }

abbrev live : LiveInterval
live = record { status = active; started_at = day 10; ended_at = day 60 }

abbrev derive : String → ℕ
derive text = 5

abbrev uuid_text : ℕ → String
uuid_text id = "u"

abbrev evaluation : MaturityEvaluation
evaluation = record {
  accumulated_live_periods = 40;
  mature = true;
  portfolio_decision_due = true;
  repair = none;
  idempotency_key = some "u:accumulated-live-periods:30";
}

evaluated :
    evaluate_maturity derive uuid_text 1 (day 10) (live ∷ []) (day 50) none ≡ done evaluation
unfolding evaluate_maturity accumulated_live_periods collect clipped total_seconds repair_of
    order_by
evaluated = refl

evaluate_maturity-IsEvaluation_example :
    IsEvaluation (day 10).at (day 50).at (live ∷ []) none evaluation
evaluate_maturity-IsEvaluation_example =
    evaluate_maturity-IsEvaluation derive uuid_text 1 (day 10) (day 50) (live ∷ []) none evaluated
