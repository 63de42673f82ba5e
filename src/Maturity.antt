-- ===== src/Maturity.antt =====
-- src/money_machine/assets/maturity_clock.py: the live periods of a listing, and whether a portfolio
-- decision is due. Times are microseconds in UTC; a time may lack its zone.
pub mod Periods
pub mod Decision
mod Tests
use Prim.Native.String.{◌++◌ as ◌<>◌}
use money_machine.Base.{
  ℕ, ◌+◌, ◌-◌, ◌*◌, ◌/◌, String, Bool, true, false, not, ◌&&◌, ◌||◌, Option, none, some, List, [],
  ◌∷◌, ◌++◌, ltb, leb, if◌then◌else◌, is_none, order_by,
}
use money_machine.Results.{Result, done, refused, check, ◌>>=◌, ◌>>◌}

pub record Moment : Type 0 where
  pub at : ℕ
  pub has_zone : Bool

pub data IntervalStatus : Type 0 where
  active inactive unknown : IntervalStatus

pub record LiveInterval : Type 0 where
  pub status : IntervalStatus
  pub started_at : Moment
  pub ended_at : Moment

pub record ListingDefect : Type 0 where
  pub code : String
  pub detected_at : Moment

pub record RepairWork : Type 0 where
  pub repair_job_id : ℕ
  pub listing_id : ℕ
  pub defect_code : String
  pub detected_at : ℕ

pub record MaturityEvaluation : Type 0 where
  pub accumulated_live_periods : ℕ
  pub mature : Bool
  pub portfolio_decision_due : Bool
  pub repair : Option RepairWork
  pub idempotency_key : Option String

-- the messages of the ValueErrors
pub data MaturityError : Type 0 where
  no_zone ends_before_start unknown_status overlap : MaturityError

-- `_as_utc`
abbrev pub as_utc : Moment → Result MaturityError ℕ
as_utc moment = if moment.has_zone then done moment.at else refused no_zone

-- a clipped interval, its start and its end
abbrev pub Span : Type 0
Span = ℕ × ℕ

abbrev pub max : ℕ → ℕ → ℕ
max a b = if ltb a b then b else a

abbrev pub min : ℕ → ℕ → ℕ
min a b = if ltb b a then b else a

-- the part of an active interval between the publication and the evaluation
unfoldable pub clipped : ℕ → ℕ → IntervalStatus → ℕ → ℕ → Result MaturityError (List Span)
clipped published evaluated inactive start end = done []
clipped published evaluated unknown start end = refused unknown_status
clipped published evaluated active start end =
    let start' = max start published in
    let end' = min end evaluated in if ltb start' end' then done ((start', end') ∷ []) else done []

-- the loop over the intervals
unfoldable pub collect : ℕ → ℕ → List LiveInterval → Result MaturityError (List Span)
unfolding clipped
collect published evaluated [] = done []
collect published evaluated (interval ∷ intervals) = do
  start ← as_utc interval.started_at
  end ← as_utc interval.ended_at
  check (not (ltb end start)) ends_before_start
  spans ← clipped published evaluated interval.status start end
  rest ← collect published evaluated intervals
  done (spans ++ rest)

-- `delta.days * _PERIOD_SECONDS + delta.seconds`: whole seconds
abbrev pub seconds_of : Span → ℕ
seconds_of span = (span.1 - span.0) / 1000000

abbrev overlaps : Option ℕ → ℕ → Bool
overlaps none start = false
overlaps (some previous_end) start = ltb start previous_end

-- the loop over the sorted spans
unfoldable pub total_seconds : Option ℕ → List Span → Result MaturityError ℕ
total_seconds previous_end [] = done 0
total_seconds previous_end (span ∷ spans) = do
  check (not (overlaps previous_end span.0)) overlap
  rest ← total_seconds (some span.1) spans
  done (seconds_of span + rest)

-- `_accumulated_live_periods`
unfoldable pub accumulated_live_periods : ℕ → List LiveInterval → ℕ → Result MaturityError ℕ
accumulated_live_periods published intervals evaluated = do
  spans ← collect published evaluated intervals
  seconds ← total_seconds none (order_by (λ span. span.0) spans)
  done (seconds / 86400)

module _ (derive : String → ℕ) (uuid_text : ℕ → String) where
  -- the UUID5 of the text, which is a hash
  unfoldable pub repair_work_id : ℕ → String → ℕ
  repair_work_id listing_id code =
      derive ("money-machine:repair-work:" <> (uuid_text listing_id <> (":" <> code)))

  -- the repair of a defect that was detected between the publication and the evaluation
  unfoldable pub in_window : ℕ → String → ℕ → ℕ → ℕ → Option RepairWork
  in_window listing_id code published evaluated detected =
      if ltb detected published || ltb evaluated detected
      then none
      else some (record {
        repair_job_id = repair_work_id listing_id code;
        listing_id = listing_id;
        defect_code = code;
        detected_at = detected;
      })

  -- `_repair`
  unfoldable pub repair_of :
      ℕ → Option ListingDefect → ℕ → ℕ → Result MaturityError (Option RepairWork)
  repair_of listing_id none published evaluated = done none
  repair_of listing_id (some defect) published evaluated = do
    detected ← as_utc defect.detected_at
    done (in_window listing_id defect.code published evaluated detected)

  unfoldable pub evaluate_maturity :
      ℕ
      → Moment
      → List LiveInterval
      → Moment
      → Option ListingDefect
      → Result MaturityError MaturityEvaluation
  evaluate_maturity listing_id published_at intervals evaluated_at defect = do
    published ← as_utc published_at
    evaluated ← as_utc evaluated_at
    periods ← accumulated_live_periods published intervals evaluated
    repair ← repair_of listing_id defect published evaluated
    let mature = leb 30 periods
    let decision_due = mature && is_none repair
    done (record {
      accumulated_live_periods = periods;
      mature = mature;
      portfolio_decision_due = decision_due;
      repair = repair;
      idempotency_key =
          if decision_due
          then some (uuid_text listing_id <> ":accumulated-live-periods:30")
          else none;
    })
