-- ===== src/Ramp/Tests.antt =====
-- One publication of two at most has been counted.
use money_machine.Base.{ℕ, ◌≡◌, refl, ◌↔◌, true, false, some, pos}
use money_machine.Results.{done}
use money_machine.Ramp.{
  RampInput, PublishingRampDecision, decide_publishing_ramp, validate, decide_valid, closed_until,
}
use money_machine.Ramp.Reference.{IsInput, reference, decide_publishing_ramp_iff}

abbrev input : RampInput
input = record {
  publishing_enabled = true;
  initial_weekly_cap = pos 2;
  hard_weekly_cap = pos 5;
  rolling_window_days = pos 7;
  reconciled_count = pos 2;
  oldest_reconciled_at = some (record { at = 100; has_zone = true });
  unreconciled_count = pos 0;
}

abbrev waiting : PublishingRampDecision
waiting = record { may_publish = false; next_permissible_at = some 604900 }

decide_publishing_ramp_iff_example : (decide_publishing_ramp input ≡ done waiting) ↔ (
    (initial : ℕ) × ((hard : ℕ) × ((window : ℕ) × ((counted : ℕ) × ((unreconciled : ℕ) × IsInput
              input initial hard window counted unreconciled
            × (waiting
                ≡ reference input.publishing_enabled initial hard window counted
                    input.oldest_reconciled_at))))))
decide_publishing_ramp_iff_example = decide_publishing_ramp_iff input waiting

decide_publishing_ramp_test : decide_publishing_ramp input ≡ done waiting
unfolding decide_publishing_ramp validate decide_valid closed_until
decide_publishing_ramp_test = refl
