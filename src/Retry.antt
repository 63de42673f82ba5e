-- ===== src/Retry.antt =====
-- src/money_machine/orchestration/retry.py. Delays are whole seconds: the defaults, and so the powers
-- that the code computes in floats, are whole. (A power past the range of a float raises there; that
-- takes over a thousand attempts, and is not modelled.)
pub mod Policy
pub mod Delay
use money_machine.Base.{
  ℕ, suc, ◌+◌, ◌*◌, ◌^◌, Bool, true, false, not, Option, none, some, min, leb, ◌==◌, if◌then◌else◌,
}
use money_machine.Domain.{JobStatus, RetryClass, is_status}
use money_machine.Domain.RetryClass.{safe, idempotent, reconcile_first, manual_resume, never}
use money_machine.Errors.{Outcome, ok, err, value_error, guard, ◌>>◌}
use money_machine.Tables.{seconds}

-- the `reason` of a decision, without its numbers
pub data Reason : Type 0 where
  exhausted safe_retry idempotent_retry resolved_retry reconciliation_required : Reason
  operator_required non_retryable : Reason

pub record RetryDecision : Type 0 where
  pub can_retry : Bool
  pub next_attempt : ℕ
  pub scheduled_at : Option ℕ
  pub reason : Reason

-- the keyword arguments that shape the delay
pub record Backoff : Type 0 where
  pub base_delay_seconds : ℕ
  pub backoff_multiplier : ℕ
  pub max_delay_seconds : ℕ

abbrev pub default_backoff : Backoff
default_backoff = record { base_delay_seconds = 2; backoff_multiplier = 2; max_delay_seconds = 300 }

unfoldable pub calculate_backoff : ℕ → Backoff → ℕ
calculate_backoff attempt b =
    min (b.base_delay_seconds * b.backoff_multiplier ^ attempt) b.max_delay_seconds

abbrev pub refuse : ℕ → Reason → RetryDecision
refuse next why = record {
  can_retry = false;
  next_attempt = next;
  scheduled_at = none;
  reason = why;
}

abbrev pub schedule : ℕ → ℕ → ℕ → Reason → RetryDecision
schedule next now delay why = record {
  can_retry = true;
  next_attempt = next;
  scheduled_at = some (now + seconds delay);
  reason = why;
}

-- the `match retry_class`
decide_class : RetryClass → Bool → ℕ → ℕ → ℕ → RetryDecision
decide_class safe resolved next now delay = schedule next now delay Reason.safe_retry
decide_class idempotent resolved next now delay = schedule next now delay Reason.idempotent_retry
decide_class reconcile_first resolved next now delay =
    if resolved
    then schedule next now delay Reason.resolved_retry
    else refuse next Reason.reconciliation_required
decide_class manual_resume resolved next now delay = refuse next Reason.operator_required
decide_class never resolved next now delay = refuse next Reason.non_retryable

unfoldable pub evaluate_retry : RetryClass → ℕ → ℕ → Backoff → ℕ → Bool → Outcome RetryDecision
unfolding decide_class
evaluate_retry retry_class current_attempt max_attempts b now reconciliation_resolved = do
  guard (not (max_attempts == 0)) value_error
  guard (not (leb max_attempts current_attempt)) value_error
  let next_attempt = current_attempt + 1
  let delay = calculate_backoff current_attempt b
  ok (
      if leb max_attempts next_attempt
      then refuse next_attempt Reason.exhausted
      else decide_class retry_class reconciliation_resolved next_attempt now delay)

unfoldable pub can_retry_from_status : JobStatus → Bool
can_retry_from_status status = is_status status JobStatus.failed

abbrev is_reconcile_first : RetryClass → Bool
is_reconcile_first reconcile_first = true
is_reconcile_first _ = false

unfoldable pub must_reconcile_first : JobStatus → RetryClass → Bool → Bool
must_reconcile_first status retry_class reconciliation_resolved =
    if is_status status JobStatus.succeeded
    then false
    else if is_status status JobStatus.uncertain_external_effect
    then true
    else if reconciliation_resolved
    then false
    else is_reconcile_first retry_class
