-- ===== src/Engine/Retrying.antt =====
-- The operator's retry of a failed job.
use money_machine.Base.{
  ℕ, ◌+◌, ◌≤◌, ◌<◌, String, ◌≡◌, refl, sym, ap, ◌⊎◌, inl, inr, Bool, true, none, some, arith, leb,
  ◌==◌, Option-cases, Bool-cases, subst, latest, select,
}
use money_machine.Domain.{RetryClass, is_status}
use money_machine.Domain.JobStatus.{failed}
use money_machine.Domain.RetryClass.{reconcile_first}
use money_machine.Errors.{Outcome, ok, err, value_error, engine, job_not_found, invalid_retry}
use money_machine.Guard.{require_job_transition}
use money_machine.Tables.{Job, Database, get_job, save_job, seconds}
use money_machine.Retry.{RetryDecision, Backoff, default_backoff, calculate_backoff, evaluate_retry}
use money_machine.Retry.Policy.{
  Repeatable, can_retry_iff, scheduled_by_backoff, evaluate_retry_raises_iff,
}
use money_machine.Leases.{claimed, unleased}
use money_machine.Leases.Holding.{Replaces, get_job-save_job}
use money_machine.Idempotency.{attempt_number, is_resolved}
use money_machine.Engine.{
  is_effect_of, latest_effect_of, reconciliation_resolved, retried, retry_failed_job,
}

-- FAILED, of a class that may be repeated, and with more than one attempt left
abbrev pub Retriable : Database → ℕ → Job → Type 0
Retriable db job_id job =
    (job.status ≡ failed)
    × (job.attempt + 1 < job.max_attempts)
    × Repeatable job.retry_class (reconciliation_resolved job.retry_class job_id db)

abbrev pub retry_time : ℕ → Job → ℕ
retry_time now job = now + seconds (calculate_backoff job.attempt default_backoff)

-- the decision for a job, and that it is the only way to be refused with ValueError
abbrev decision_for : Database → ℕ → ℕ → Job → Outcome RetryDecision
decision_for db job_id now job =
    evaluate_retry job.retry_class job.attempt job.max_attempts default_backoff now
      (reconciliation_resolved job.retry_class job_id db)

evaluate_retry-cases :
    (class : RetryClass) (current max : ℕ) (b : Backoff) (now : ℕ) (resolved : Bool)
    → (evaluate_retry class current max b now resolved ≡ err value_error)
      ⊎ ((d : RetryDecision) × (evaluate_retry class current max b now resolved ≡ ok d))
unfolding evaluate_retry
evaluate_retry-cases class current max b now resolved = elim (Bool-cases (max == 0)) [
  | inl zero ↦ inl (rw zero)
  | inr some_left ↦ elim (Bool-cases (leb max current)) [
    | inl spent ↦ inl (rw (some_left, spent))
    | inr left ↦ inr (rw (some_left, left) (_, refl))
  ]
]

module _ (job_id now : ℕ) (db : Database) where
  abbrev pub RetryAnswer : Outcome (Job × Database) → Type 0
  RetryAnswer (ok (job', db')) =
      (job : Job) × (get_job job_id db ≡ some job)
      × Retriable db job_id job
      × (job' ≡ retried (retry_time now job) now job)
      × (db' ≡ save_job job' db)
      × Replaces job_id job' db db'
  RetryAnswer (err (engine job_not_found)) = get_job job_id db ≡ none
  RetryAnswer (err (engine invalid_retry)) =
      (job : Job) × (get_job job_id db ≡ some job) × ¬ Retriable db job_id job
  RetryAnswer (err value_error) =
      (job : Job) × (get_job job_id db ≡ some job)
      × (job.status ≡ failed)
      × ((job.max_attempts ≡ 0) ⊎ (job.max_attempts ≤ job.attempt))
  RetryAnswer (err _) = ⊥

  module _ (job : Job) (found : get_job job_id db ≡ some job)
      (fails : is_status job.status failed ≡ true) where
    retry_decided :
        (d : RetryDecision)
        → decision_for db job_id now job ≡ ok d
        → RetryAnswer (retry_failed_job job_id now db)
    unfolding retry_failed_job require_job_transition
    retry_decided d e =
        let may = can_retry_iff _ _ _ _ _ _ d e in
        let at = (scheduled_by_backoff _ _ _ _ _ _ d e).1 in
        let is_failed : job.status ≡ failed = ground arith in
        elim at [
          | inl (may_run, on) ↦
              let allowed = may.0 may_run in
              rw (found, fails, e, may_run, on)
                (
                  job,
                  found,
                  (is_failed, allowed.0, allowed.1),
                  refl,
                  refl,
                  get_job-save_job job_id db job _ found refl,
                )
          | inr (refused, unset) ↦
              rw (found, fails, e, refused) (job, found, (λ r. cc (refused, may.1 (r.1, r.2))))
        ]

    retry_of_failed : RetryAnswer (retry_failed_job job_id now db)
    unfolding retry_failed_job
    retry_of_failed =
        elim (evaluate_retry-cases job.retry_class job.attempt job.max_attempts default_backoff now
          (reconciliation_resolved job.retry_class job_id db)) [
            | inl raises ↦
                rw (found, fails, raises)
                  (job, found, ground arith, (evaluate_retry_raises_iff _ _ _ _ _ _).0 raises)
            | inr (d, e) ↦ retry_decided d e
          ]

  -- A retry is granted exactly to a FAILED job with more than one attempt left whose class may be
  -- repeated, where RECONCILE_FIRST needs a latest effect that is CONFIRMED or ABSENT. The job then
  -- becomes READY at the backoff delay after now, and no other job changes. A missing job is
  -- answered with JobNotFoundError, a FAILED job with a spent budget may be answered with
  -- ValueError, and every other job with InvalidRetryError.
  pub retry_failed_job-RetryAnswer : RetryAnswer (retry_failed_job job_id now db)
  unfolding retry_failed_job
  retry_failed_job-RetryAnswer = elim (Option-cases (get_job job_id db)) [
    | inl missing ↦ rw missing missing
    | inr (job, found) ↦ elim (Bool-cases (is_status job.status failed)) [
      | inl fails ↦ retry_of_failed job found fails
      | inr other ↦
          rw (found, other) (job, found, (λ r. cc (other, ap (λ s. is_status s failed) r.0)))
    ]
  ]

  Granted : Job → Outcome (Job × Database) → Type 0
  Granted job o =
      (job' : Job) × (db' : Database) × (o ≡ ok (job', db'))
      × (job' ≡ retried (retry_time now job) now job)

  granted :
      (job : Job)
      → get_job job_id db ≡ some job
      → Retriable db job_id job
      → (o : Outcome (Job × Database)) → RetryAnswer o
      → Granted job o
  unfolding Granted
  granted job found may (ok (job', db')) (job1, found1, may1, is_retried, wrote, a) =
      let same : job1 ≡ job = cc (found, found1) in (job', db', refl, rw (sym same) is_retried)
  granted job found may (err (engine job_not_found)) a = absurd (cc (found, a))
  granted job found may (err (engine invalid_retry)) (job1, found1, may_not) =
      let same : job1 ≡ job = cc (found, found1) in absurd (may_not (rw same may))
  granted job found may (err value_error) (job1, found1, fails, spent) =
      let same : job1 ≡ job = cc (found, found1) in absurd (ground (arith, may, spent, same))
  granted job found may (err e) a = absurd a

resolved_same :
    (class : RetryClass) (job_id : ℕ) (db db2 : Database)
    → db2.effects ≡ db.effects
    → reconciliation_resolved class job_id db2 ≡ reconciliation_resolved class job_id db
unfolding reconciliation_resolved latest_effect_of
resolved_same reconcile_first job_id db db2 e =
    ap (λ es. is_resolved (latest attempt_number (select (is_effect_of job_id) es))) e
resolved_same _ job_id db db2 e = refl

-- A retry does not spend the budget. If the retried job is claimed and released as FAILED, then,
-- with no effect recorded in between, the next retry is granted again, with the same attempt number
-- and the same delay.
pub retry_is_repeatable :
    (job_id now later : ℕ) (db db' db2 : Database) (job' : Job) (worker_id : String)
    (lease_duration : ℕ)
    → retry_failed_job job_id now db ≡ ok (job', db')
    → get_job job_id db2 ≡ some (unleased later failed (claimed worker_id now lease_duration job'))
    → db2.effects ≡ db'.effects
    → (again : Job) × (db3 : Database) × (retry_failed_job job_id later db2 ≡ ok (again, db3))
      × (again.attempt ≡ job'.attempt)
      × (again.scheduled_at ≡ later + seconds (calculate_backoff job'.attempt default_backoff))
unfolding claimed Granted
retry_is_repeatable job_id now later db db' db2 job' worker_id lease_duration h found same =
    let (job, was, may, is_retried, wrote, _) =
      subst (RetryAnswer job_id now db) h (retry_failed_job-RetryAnswer job_id now db) in
    let kept : db2.effects ≡ db.effects = rw wrote at same in
    let may2 : Retriable db2 job_id
        (unleased later failed (claimed worker_id now lease_duration job')) =
      rw is_retried (refl, may.1, rw (resolved_same job.retry_class job_id db db2 kept) may.2) in
    let (again, db3, ran, is_again) =
      granted job_id later db2 _ found may2 _ (retry_failed_job-RetryAnswer job_id later db2) in
    (again, db3, ran, rw is_again refl, rw is_again refl)
