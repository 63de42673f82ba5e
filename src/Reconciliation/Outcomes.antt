-- ===== src/Reconciliation/Outcomes.antt =====
-- What a reconciliation concludes, and that its conclusion can always be applied.
use money_machine.Base.{ℕ, ◌+◌, ◌≤◌, ◌≡◌, ◌⊎◌, true, some, arith, Option-cases, inl, inr}
use money_machine.Domain.{JobStatus, EffectState, is_status}
use money_machine.Domain.JobStatus.{succeeded, failed, blocked, uncertain_external_effect}
use money_machine.Errors.{ok}
use money_machine.Guard.{require_job_transition}
use money_machine.Tables.{Job, IdempotencyRecord, Database, get_job, save_job}
use money_machine.Idempotency.{
  get_idempotency_record, get_latest_effect_attempt, record_effect_attempt,
}
use money_machine.Dependencies.{with_status}
use money_machine.Reconciliation.{
  Reconciler, ReconciliationResult, current_number, next_status, new_attempt,
  reconcile_uncertain_effect, apply_reconciliation_result,
}

module _ (id : ℕ) (reconciler : Reconciler) (job_id max_attempts now : ℕ) (db : Database) where
  -- the facts of a reconciliation that has answered
  pub record Reconciled (result : ReconciliationResult) (db' : Database) : Type 0 where
    pub job : Job
    pub reservation : IdempotencyRecord
    pub found : get_job job_id db ≡ some job
    pub uncertain : is_status job.status uncertain_external_effect ≡ true
    pub reserved : get_idempotency_record job.idempotency_key db ≡ some reservation
    pub numbered :
        result.reconciliation_attempt
        ≡ current_number (get_latest_effect_attempt job.idempotency_key db) + 1
    pub within : result.reconciliation_attempt ≤ max_attempts
    pub concluded :
        result.next_job_status
        ≡ next_status result.effect_state result.reconciliation_attempt max_attempts
    pub recorded :
        record_effect_attempt
          (new_attempt id reconciler job reservation result.reconciliation_attempt now)
          db
        ≡ ok db'

  pub reconcile-Reconciled :
      (result : ReconciliationResult) (db' : Database)
      → reconcile_uncertain_effect id reconciler job_id max_attempts now db ≡ ok (result, db')
      → Reconciled result db'
  unfolding reconcile_uncertain_effect
  reconcile-Reconciled result db' h = elim (Option-cases (get_job job_id db)) [
    | inl missing ↦ absurd (ground arith)
    | inr (job, found) ↦ elim (Option-cases (get_idempotency_record job.idempotency_key db)) [
      | inl none_reserved ↦ absurd (ground arith)
      | inr (reservation, reserved) ↦ record {
        job = job;
        reservation = reservation;
        found = found;
        uncertain = ground arith;
        reserved = reserved;
        numbered = ground arith;
        within = ground arith;
        concluded = ground arith;
        recorded = ground arith;
      }
    ]
  ]

-- the job behind an id is unchanged but for its status
abbrev pub StatusIs : ℕ → JobStatus → Database → Type 0
StatusIs job_id status db =
    (job : Job) × (get_job job_id db ≡ some job) × (is_status job.status status ≡ true)

pub apply_stays :
    (job_id : ℕ) (result : ReconciliationResult) (now : ℕ) (db : Database) (job : Job)
    → get_job job_id db ≡ some job
    → is_status job.status uncertain_external_effect ≡ true
    → is_status result.next_job_status uncertain_external_effect ≡ true
    → apply_reconciliation_result job_id result now db ≡ ok db
unfolding apply_reconciliation_result
apply_stays job_id result now db job found uncertain still = ground arith

pub apply_moves :
    (job_id : ℕ) (result : ReconciliationResult) (now : ℕ) (db : Database) (job : Job)
    → get_job job_id db ≡ some job
    → is_status job.status uncertain_external_effect ≡ true
    → (result.next_job_status ≡ succeeded)
      ⊎ (result.next_job_status ≡ failed)
      ⊎ (result.next_job_status ≡ blocked)
    → apply_reconciliation_result job_id result now db
      ≡ ok (save_job (with_status result.next_job_status now job) db)
unfolding apply_reconciliation_result require_job_transition
apply_moves job_id result now db job found uncertain next = ground arith

pub next_status-cases :
    (state : EffectState) (n max : ℕ)
    → (next_status state n max ≡ uncertain_external_effect)
      ⊎ (next_status state n max ≡ succeeded)
      ⊎ (next_status state n max ≡ failed)
      ⊎ (next_status state n max ≡ blocked)
next_status-cases state n max = ground arith
