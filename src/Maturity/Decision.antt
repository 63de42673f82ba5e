-- ===== src/Maturity/Decision.antt =====
-- When a portfolio decision is due.
use money_machine.Base.{
  ℕ, ◌-◌, ◌*◌, ◌/◌, ◌≤◌, ◌<◌, ◌≡◌, refl, ◌↔◌, String, true, false, ◌||◌, ◌&&◌, Option, none, some,
  List, ◌∷◌, arith, ltb, leb, is_none, Bool-cases, inl, inr, sym, ◌∙◌,
}
use money_machine.Results.{done, Result-cases}
use money_machine.Maturity.{
  Moment, LiveInterval, ListingDefect, RepairWork, MaturityEvaluation, inactive,
  accumulated_live_periods, repair_of, in_window, collect, clipped, evaluate_maturity,
}
use money_machine.Maturity.Periods.{all_live_seconds, accumulated_live_periods-live}

is_none_iff : (r : Option RepairWork) → (is_none r ≡ true) ↔ (r ≡ none)
is_none_iff none = (λ h. refl, λ h. refl)
is_none_iff (some r) = (λ h. cc, λ h. cc)

-- the defect was not detected between the publication and the evaluation
abbrev pub IsOutside : Option ListingDefect → ℕ → ℕ → Type 0
IsOutside none published evaluated = Unit
IsOutside (some defect) published evaluated =
    published ≤ defect.detected_at.at → evaluated < defect.detected_at.at

-- What an evaluation says.
pub record IsEvaluation (published evaluated : ℕ) (intervals : List LiveInterval)
    (defect : Option ListingDefect) (e : MaturityEvaluation) : Type 0 where
  pub periods : e.accumulated_live_periods ≡ all_live_seconds published evaluated intervals / 86400
  pub mature : (e.mature ≡ true) ↔ (30 ≤ e.accumulated_live_periods)
  pub sound : (e.repair ≡ none) ↔ IsOutside defect published evaluated
  pub due :
      (e.portfolio_decision_due ≡ true)
      ↔ ((30 ≤ e.accumulated_live_periods) × IsOutside defect published evaluated)
  pub named : (e.idempotency_key ≡ none) ↔ (e.portfolio_decision_due ≡ false)
  pub elapsed : e.portfolio_decision_due ≡ true → 30 * 86400 * 1000000 ≤ evaluated - published

collect_paused :
    (published evaluated : ℕ) (i : LiveInterval) (intervals : List LiveInterval)
    → i.status ≡ inactive
    → i.started_at.has_zone ≡ true
    → i.ended_at.has_zone ≡ true
    → i.started_at.at ≤ i.ended_at.at
    → collect published evaluated (i ∷ intervals) ≡ collect published evaluated intervals
unfolding collect clipped
collect_paused published evaluated i intervals is_paused zone zone' ordered = ground arith

accumulated_paused :
    (published evaluated : ℕ) (i : LiveInterval) (intervals : List LiveInterval)
    → i.status ≡ inactive
    → i.started_at.has_zone ≡ true
    → i.ended_at.has_zone ≡ true
    → i.started_at.at ≤ i.ended_at.at
    → accumulated_live_periods published (i ∷ intervals) evaluated
      ≡ accumulated_live_periods published intervals evaluated
unfolding accumulated_live_periods
accumulated_paused published evaluated i intervals is_paused zone zone' ordered =
    rw (collect_paused published evaluated i intervals is_paused zone zone' ordered)

module _ (derive : String → ℕ) (uuid_text : ℕ → String) (listing_id : ℕ) (published_at : Moment)
    (evaluated_at : Moment) where
  repair_of-none :
      (defect : Option ListingDefect) {repair : Option RepairWork} (published evaluated : ℕ)
      → repair_of derive uuid_text listing_id defect published evaluated ≡ done repair
      → (repair ≡ none) ↔ IsOutside defect published evaluated
  unfolding repair_of in_window
  repair_of-none none published evaluated h = (λ e. tt, λ e. ground arith)
  repair_of-none (some defect) published evaluated h =
      elim (Bool-cases
        (ltb defect.detected_at.at published || ltb evaluated defect.detected_at.at)) [
          | inl outside ↦ (λ e. λ le. ground arith, λ e. ground arith)
          | inr inside ↦ (λ e. absurd (ground arith), λ e. absurd (ground (arith, e)))
        ]

  -- An evaluation counts the live days of the listing, and calls for a decision exactly after thirty
  -- of them with no defect in the window; then thirty days have passed since the publication. It
  -- has a key exactly where a decision is due, and repair work exactly for a defect in the window.
  pub evaluate_maturity-IsEvaluation :
      (intervals : List LiveInterval) (defect : Option ListingDefect) {e : MaturityEvaluation}
      → evaluate_maturity derive uuid_text listing_id published_at intervals evaluated_at defect
        ≡ done e
      → IsEvaluation published_at.at evaluated_at.at intervals defect e
  unfolding evaluate_maturity
  evaluate_maturity-IsEvaluation intervals defect {e} h =
      let published = published_at.at in
      let evaluated = evaluated_at.at in
      elim (Result-cases (accumulated_live_periods published intervals evaluated)) [
        | inr (stop, stops) ↦ absurd (ground arith)
        | inl (periods, counts) ↦
            elim (Result-cases (repair_of derive uuid_text listing_id defect published evaluated)) [
              | inr (stop, stops) ↦ absurd (ground arith)
              | inl (repair, repairs) ↦
                  let (live, le) =
                    accumulated_live_periods-live published evaluated intervals counts in
                  let outside = repair_of-none defect published evaluated repairs in
                  let is_periods : e.accumulated_live_periods ≡ periods = ground arith in
                  let is_repair : e.repair ≡ repair = ground arith in
                  let is_mature : e.mature ≡ leb 30 periods = ground arith in
                  let is_due : e.portfolio_decision_due ≡ (leb 30 periods && is_none repair) =
                    ground arith in
                  let none_iff : (is_none repair ≡ true) ↔ (repair ≡ none) = is_none_iff repair in
                  record {
                    periods = is_periods ∙ live;
                    mature = (λ m. ground arith, λ m. ground arith);
                    sound = (λ m. outside.0 (sym is_repair ∙ m), λ m. is_repair ∙ outside.1 m);
                    due = (
                      λ m. (ground arith, outside.0 (none_iff.0 (ground arith))),
                      λ m. ground (arith, none_iff.1 (outside.1 m.1)),
                    );
                    named = (λ m. ground arith, λ m. ground arith);
                    elapsed =
                        λ m. let enough : 30 ≤ periods = ground arith in omega (arith, le, enough);
                  }
            ]
      ]

  -- A paused interval counts for nothing: where its ends are in order, the evaluation with it is the
  -- evaluation without it.
  pub paused_counts_nothing :
      (i : LiveInterval) (intervals : List LiveInterval) (defect : Option ListingDefect)
      → i.status ≡ inactive
      → i.started_at.has_zone ≡ true
      → i.ended_at.has_zone ≡ true
      → i.started_at.at ≤ i.ended_at.at
      → evaluate_maturity derive uuid_text listing_id published_at
          (i ∷ intervals)
          evaluated_at
          defect
        ≡ evaluate_maturity derive uuid_text listing_id published_at intervals evaluated_at defect
  unfolding evaluate_maturity
  paused_counts_nothing i intervals defect is_paused zone zone' ordered =
      let same =
        accumulated_paused published_at.at evaluated_at.at i intervals is_paused zone zone'
          ordered in
      ground (arith, same)
