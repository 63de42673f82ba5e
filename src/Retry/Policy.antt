-- ===== src/Retry/Policy.antt =====
-- Which failed jobs may run again.
use money_machine.Base.{ℕ, ◌+◌, ◌≤◌, ◌<◌, ◌≡◌, ◌↔◌, ◌⊎◌, ◌≢◌, Bool, true, false, none, some, arith}
use money_machine.Domain.{JobStatus, RetryClass}
use money_machine.Domain.JobStatus.{uncertain_external_effect, succeeded}
use money_machine.Domain.RetryClass.{safe, idempotent, reconcile_first, manual_resume, never}
use money_machine.Errors.{ok, err, value_error}
use money_machine.Tables.{seconds}
use money_machine.Retry.{
  RetryDecision, Backoff, calculate_backoff, evaluate_retry, must_reconcile_first,
}

-- the classes that the code may repeat by itself
abbrev pub Repeatable : RetryClass → Bool → Type 0
Repeatable safe resolved = Unit
Repeatable idempotent resolved = Unit
Repeatable reconcile_first resolved = resolved ≡ true
Repeatable manual_resume resolved = ⊥
Repeatable never resolved = ⊥

module _ (class : RetryClass) (current max : ℕ) (b : Backoff) (now : ℕ) (resolved : Bool) where
  -- The call raises, with ValueError, exactly when the budget is zero or already spent.
  pub evaluate_retry_raises_iff :
      (evaluate_retry class current max b now resolved ≡ err value_error)
      ↔ ((max ≡ 0) ⊎ (max ≤ current))
  unfolding evaluate_retry
  evaluate_retry_raises_iff = (λ h. ground arith, λ h. ground arith)

  -- A granted retry is scheduled at the backoff delay after `now`, a refused one never, and both
  -- name the next attempt.
  pub scheduled_by_backoff :
      (d : RetryDecision)
      → evaluate_retry class current max b now resolved ≡ ok d
      → (d.next_attempt ≡ current + 1)
        × ((d.can_retry ≡ true)
              × (d.scheduled_at ≡ some (now + seconds (calculate_backoff current b)))
            ⊎ (d.can_retry ≡ false) × (d.scheduled_at ≡ none))
  unfolding evaluate_retry
  scheduled_by_backoff d h = ground arith

-- A retry is granted exactly when one more attempt is left after the next and the class may be
-- repeated; RECONCILE_FIRST may be once reconciliation has resolved the effect.
pub can_retry_iff :
    (class : RetryClass) (current max : ℕ) (b : Backoff) (now : ℕ) (resolved : Bool)
    → (d : RetryDecision) → evaluate_retry class current max b now resolved ≡ ok d
    → (d.can_retry ≡ true) ↔ ((current + 1 < max) × Repeatable class resolved)
unfolding evaluate_retry
can_retry_iff safe current max b now resolved d h = (λ e. ground arith, λ e. ground arith)
can_retry_iff _ current max b now resolved d h = (λ e. ground arith, λ e. ground arith)

-- An uncertain effect must be reconciled whatever its class, a success never, and any other job
-- exactly when its class is RECONCILE_FIRST and nothing has resolved it.
pub must_reconcile_first_iff :
    (status : JobStatus) (class : RetryClass) (resolved : Bool)
    → (must_reconcile_first status class resolved ≡ true) ↔ (
        (status ≡ uncertain_external_effect)
        ⊎ (status ≢ succeeded) × (class ≡ reconcile_first) × (resolved ≡ false))
unfolding must_reconcile_first
must_reconcile_first_iff status class resolved = (λ e. ground arith, λ e. ground arith)
