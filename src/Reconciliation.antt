-- ===== src/Reconciliation.antt =====
-- src/money_machine/orchestration/reconciliation.py. The provider's answer is an argument: a function
-- of the key and the operation.
pub mod Outcomes
pub mod Budget
mod Tests
use Prim.Native.Char.{code}
use money_machine.Base.{
  ℕ, suc, ◌+◌, String, Bool, true, false, not, ◌&&◌, Option, none, some, ltb, leb, ◌==◌,
  if◌then◌else◌,
}
use money_machine.Domain.{JobStatus, EffectState, is_status}
use money_machine.Domain.JobStatus.{succeeded, failed, blocked, uncertain_external_effect}
use money_machine.Domain.EffectState.{confirmed, absent, unknown}
use money_machine.Errors.{Outcome, ok, value_error, budget_exhausted, guard, require, ◌>>=◌, ◌>>◌}
use money_machine.Guard.{require_job_transition}
use money_machine.Tables.{Job, IdempotencyRecord, EffectAttempt, Database, get_job, save_job}
use money_machine.Idempotency.{
  get_idempotency_record, get_latest_effect_attempt, record_effect_attempt,
}
use money_machine.Dependencies.{with_status}

-- `ProviderReconciler.query_effect_state`
abbrev pub Reconciler : Type 0
Reconciler = String → String → EffectState × Option String

pub record ReconciliationResult : Type 0 where
  pub effect_state : EffectState
  pub next_job_status : JobStatus
  pub reconciliation_attempt : ℕ
  pub provider_object_id : Option String

abbrev pub current_number : Option EffectAttempt → ℕ
current_number none = 0
current_number (some e) = e.reconciliation_attempt

-- the `match effect_state`
abbrev pub next_status : EffectState → ℕ → ℕ → JobStatus
next_status confirmed attempt max_attempts = succeeded
next_status absent attempt max_attempts = failed
next_status unknown attempt max_attempts =
    if leb max_attempts attempt then blocked else uncertain_external_effect

-- `_extract_provider`: the text before the first dot, or all of it
pub extract_provider : String → String
extract_provider String.[] = String.[]
extract_provider (String.◌∷◌ c s) =
    let rest = String.◌∷◌ c (extract_provider s) in if code c == b'.' then String.[] else rest

-- `id` is the UUID of the new row.
module _ (id : ℕ) (reconciler : Reconciler) where
  abbrev pub new_attempt : Job → IdempotencyRecord → ℕ → ℕ → EffectAttempt
  new_attempt job reservation number now =
      let (effect_state, provider_object_id) =
        reconciler job.idempotency_key reservation.operation in
      record {
        id = id;
        idempotency_key = job.idempotency_key;
        job_id = job.id;
        agent_run_id = none;
        provider = extract_provider reservation.operation;
        operation = reservation.operation;
        effect_state = effect_state;
        provider_object_id = provider_object_id;
        reconciliation_attempt = number;
        observed_at = now;
        recorded_at = now;
      }

  unfoldable pub reconcile_uncertain_effect :
      ℕ → ℕ → ℕ → Database → Outcome (ReconciliationResult × Database)
  reconcile_uncertain_effect job_id max_attempts now db = do
    job ← require (get_job job_id db) value_error
    guard (is_status job.status uncertain_external_effect) value_error
    reservation ← require (get_idempotency_record job.idempotency_key db) value_error
    let next = current_number (get_latest_effect_attempt job.idempotency_key db) + 1
    guard (not (ltb max_attempts next)) budget_exhausted
    let attempt = new_attempt job reservation next now
    db' ← record_effect_attempt attempt db
    ok (
      record {
        effect_state = attempt.effect_state;
        next_job_status = next_status attempt.effect_state next max_attempts;
        reconciliation_attempt = next;
        provider_object_id = attempt.provider_object_id;
      },
      db',
    )

unfoldable pub apply_reconciliation_result :
    ℕ → ReconciliationResult → ℕ → Database → Outcome Database
apply_reconciliation_result job_id result now db = do
  job ← require (get_job job_id db) value_error
  if is_status job.status result.next_job_status
        && is_status result.next_job_status uncertain_external_effect
      then ok db
      else (do
        require_job_transition job.status result.next_job_status
        ok (save_job (with_status result.next_job_status now job) db))
