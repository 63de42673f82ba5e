-- ===== src/Reconciliation/Budget.antt =====
-- How often an uncertain effect is asked about.
use money_machine.Base.{
  ℕ, ◌+◌, ◌≤◌, ◌<◌, String, ◌≡◌, refl, false, not, Option, some, arith, ltb, subst,
}
use money_machine.Domain.JobStatus.{uncertain_external_effect}
use money_machine.Domain.EffectState.{unknown}
use money_machine.Errors.{ok, err, budget_exhausted}
use money_machine.Tables.{Job, IdempotencyRecord, EffectAttempt, Database, get_job}
use money_machine.Idempotency.{get_idempotency_record, get_latest_effect_attempt}
use money_machine.Idempotency.Ledger.{last_number, record-latest}
use money_machine.Reconciliation.{
  Reconciler, ReconciliationResult, current_number, reconcile_uncertain_effect,
}
use money_machine.Reconciliation.Outcomes.{reconcile-Reconciled}

current_number-last_number : (o : Option EffectAttempt) → current_number o ≡ last_number o
current_number-last_number o = ground arith

-- The highest attempt number that is recorded for a key, and 0 where there is none.
abbrev pub attempts : String → Database → ℕ
attempts key db = current_number (get_latest_effect_attempt key db)

-- Each reconciliation that answers uses up one attempt of the job's key: the number recorded last
-- was below the maximum, and goes up by one. The job is left to be asked about again only if the
-- provider could not tell and the new number is still below the maximum.
pub reconcile_spends_budget :
    (id : ℕ) (reconciler : Reconciler) (job_id max_attempts now : ℕ) (db db' : Database) (job : Job)
    (result : ReconciliationResult)
    → get_job job_id db ≡ some job
    → reconcile_uncertain_effect id reconciler job_id max_attempts now db ≡ ok (result, db')
    → (attempts job.idempotency_key db < max_attempts)
      × (attempts job.idempotency_key db' ≡ attempts job.idempotency_key db + 1)
      × (result.next_job_status ≡ uncertain_external_effect
          → (result.effect_state ≡ unknown) × (attempts job.idempotency_key db' < max_attempts))
reconcile_spends_budget id reconciler job_id max_attempts now db db' job result found h =
    let r = reconcile-Reconciled id reconciler job_id max_attempts now db result db' h in
    let same : r.job ≡ job = cc (found, r.found) in
    let (read, resolved) = record-latest _ db db' r.recorded (
      ground (
        arith,
        r.numbered,
        current_number-last_number (get_latest_effect_attempt r.job.idempotency_key db),
      )) in
    let spent : attempts r.job.idempotency_key db' ≡ result.reconciliation_attempt = rw read refl in
    subst
      (λ j.
        (attempts j.idempotency_key db < max_attempts)
        × (attempts j.idempotency_key db' ≡ attempts j.idempotency_key db + 1)
        × (result.next_job_status ≡ uncertain_external_effect
            → (result.effect_state ≡ unknown) × (attempts j.idempotency_key db' < max_attempts)))
      same
      (
        ground (arith, r.numbered, r.within),
        ground (arith, r.numbered, spent),
        (λ waits. ground (arith, r.concluded, spent, r.within)),
      )

-- A job whose key has used up the budget is refused with ReconciliationBudgetExhausted,
-- whatever the provider would answer.
pub reconcile_refuses_beyond_budget :
    (id : ℕ) (reconciler : Reconciler) (job_id max_attempts now : ℕ) (db : Database) (job : Job)
    (reservation : IdempotencyRecord)
    → get_job job_id db ≡ some job
    → job.status ≡ uncertain_external_effect
    → get_idempotency_record job.idempotency_key db ≡ some reservation
    → max_attempts ≤ attempts job.idempotency_key db
    → reconcile_uncertain_effect id reconciler job_id max_attempts now db ≡ err budget_exhausted
unfolding reconcile_uncertain_effect
reconcile_refuses_beyond_budget id reconciler job_id max_attempts now db job reservation found
      uncertain reserved spent =
    let over : not (ltb max_attempts (attempts job.idempotency_key db + 1)) ≡ false =
      ground arith in
    rw (found, uncertain, reserved, over)
