-- ===== src/Ramp.antt =====
-- src/money_machine/assets/publishing_ramp_decision.py: whether one more listing may be published in
-- the rolling window. Times are seconds; a publication's time may lack its zone.
pub mod Reference
mod Tests
use money_machine.Base.{
  ℕ, ◌+◌, ◌*◌, Bool, true, false, not, ◌&&◌, Option, none, some, ℤ, pos, negsuc, pos_part, ltb_ℤ,
  if◌then◌else◌, is_none,
}
use money_machine.Results.{Result, done, refused, check, ◌>>=◌, ◌>>◌}

pub record Moment : Type 0 where
  pub at : ℕ
  pub has_zone : Bool

pub record PublishingRampDecision : Type 0 where
  pub may_publish : Bool
  pub next_permissible_at : Option ℕ

pub record RampInput : Type 0 where
  pub publishing_enabled : Bool
  pub initial_weekly_cap : ℤ
  pub hard_weekly_cap : ℤ
  pub rolling_window_days : ℤ
  pub reconciled_count : ℤ
  pub oldest_reconciled_at : Option Moment
  pub unreconciled_count : ℤ

-- the messages of the ValueErrors
pub data RampError : Type 0 where
  initial_cap_not_positive hard_cap_not_positive window_not_positive : RampError
  reconciled_negative unreconciled_negative empty_window_has_oldest : RampError
  oldest_required oldest_without_zone : RampError

abbrev has_zone? : Option Moment → Bool
has_zone? none = true
has_zone? (some moment) = moment.has_zone

abbrev pub is_positive : ℤ → Bool
is_positive n = ltb_ℤ (pos 0) n

abbrev pub is_negative : ℤ → Bool
is_negative n = ltb_ℤ n (pos 0)

abbrev pub is_zero : ℤ → Bool
is_zero n = not (is_positive n) && not (is_negative n)

-- `_validate`
unfoldable pub validate : RampInput → Result RampError (Unit {0})
validate i = do
  check (is_positive i.initial_weekly_cap) initial_cap_not_positive
  check (is_positive i.hard_weekly_cap) hard_cap_not_positive
  check (is_positive i.rolling_window_days) window_not_positive
  check (not (is_negative i.reconciled_count)) reconciled_negative
  check (not (is_negative i.unreconciled_count)) unreconciled_negative
  check (not (is_zero i.reconciled_count && not (is_none i.oldest_reconciled_at)))
      empty_window_has_oldest
  check (not (is_positive i.reconciled_count && is_none i.oldest_reconciled_at)) oldest_required
  check (has_zone? i.oldest_reconciled_at) oldest_without_zone

abbrev pub opened : PublishingRampDecision
opened = record { may_publish = true; next_permissible_at = none }

abbrev pub closed : PublishingRampDecision
closed = record { may_publish = false; next_permissible_at = none }

-- `timedelta(days=rolling_window_days)`
abbrev pub window_seconds : ℤ → ℕ
window_seconds days = pos_part days * 86400

unfoldable pub closed_until : Option Moment → ℤ → Result RampError PublishingRampDecision
closed_until none days = refused oldest_required
closed_until (some oldest) days =
    done
      (record { may_publish = false; next_permissible_at = some (oldest.at + window_seconds days) })

-- `_LAUNCH_DEFAULT_WEEKLY_CAP`
abbrev launch_default_weekly_cap : ℤ
launch_default_weekly_cap = pos 2

abbrev is_default : ℤ → Bool
is_default cap =
    not (ltb_ℤ cap launch_default_weekly_cap) && not (ltb_ℤ launch_default_weekly_cap cap)

-- the three openings below the cap, and the last `return`
unfoldable pub open_below_cap : RampInput → PublishingRampDecision
open_below_cap i =
    let below = ltb_ℤ i.reconciled_count i.initial_weekly_cap in
    if ltb_ℤ (pos 0) i.unreconciled_count && below
    then opened
    else if below && (is_default i.initial_weekly_cap && is_zero i.unreconciled_count)
    then opened
    else if below && not (is_default i.initial_weekly_cap)
    then opened
    else closed

-- what follows the validation
unfoldable pub decide_valid : RampInput → Result RampError PublishingRampDecision
decide_valid i =
    if not i.publishing_enabled
    then done closed
    else if not (ltb_ℤ i.reconciled_count i.hard_weekly_cap)
    then closed_until i.oldest_reconciled_at i.rolling_window_days
    else if not (ltb_ℤ i.reconciled_count i.initial_weekly_cap)
    then closed_until i.oldest_reconciled_at i.rolling_window_days
    else done (open_below_cap i)

unfoldable pub decide_publishing_ramp : RampInput → Result RampError PublishingRampDecision
decide_publishing_ramp i = do validate i; decide_valid i
