-- ===== src/Leases/Reclaim.antt =====
-- What becomes of a job whose lease has run out.
use money_machine.Base.{
  ℕ, ◌+◌, ◌≤◌, String, ◌≡◌, refl, Bool, true, false, Option, List, [], ◌∷◌, Memᴰ, arith, All,
  All-take, All-order_by, length, take, select, select-All, order_by, leb, if◌then◌else◌, subst,
  save_all, key-get, is_none, map, length-take-le, exists, Option-cases, Bool-cases, inl, inr,
  All-get, save_all-saved,
}
use money_machine.Domain.{JobStatus, RetryClass, is_status}
use money_machine.Domain.JobStatus.{ready, failed, terminal_failure}
use money_machine.Domain.RetryClass.{manual_resume, never}
use money_machine.Errors.{Outcome, ok, err, integrity_error, lease, lease_not_held}
use money_machine.Guard.{require_job_transition}
use money_machine.Tables.{Job, Database, job_key, get_job}
use money_machine.Leases.{
  is_owner, is_reclaimable, legal_release_statuses, unleased, is_over_budget, expiry, reclaim,
  reclaim_each, reclaim_expired_leases, heartbeat, release_lease,
}

-- where a job goes that has spent `attempt` of `max_attempts`
abbrev pub status_after : RetryClass → ℕ → ℕ → JobStatus
status_after never attempt max_attempts = terminal_failure
status_after manual_resume attempt max_attempts = failed
status_after _ attempt max_attempts = if leb max_attempts attempt then terminal_failure else ready

abbrev pub reclaimed : ℕ → Job → Job
reclaimed now job =
    record (unleased now (status_after job.retry_class (job.attempt + 1) job.max_attempts) job) {
      attempt = job.attempt + 1;
    }

reclaim-reclaimed : (now : ℕ) (job : Job) → reclaim now job ≡ ok (reclaimed now job)
unfolding reclaim require_job_transition
reclaim-reclaimed now job = ground arith

reclaim_each-map :
    (now : ℕ) (jobs : List Job) → reclaim_each now jobs ≡ ok (map (reclaimed now) jobs)
unfolding reclaim_each
reclaim_each-map now [] = refl
reclaim_each-map now (job ∷ jobs) = rw (reclaim-reclaimed, reclaim_each-map now jobs)

over_budget :
    (now : ℕ) (jobs : List Job)
    → exists is_over_budget (map (reclaimed now) jobs) ≡ true
    → exists (λ job. leb job.max_attempts job.attempt) jobs ≡ true
unfolding exists
over_budget now [] h = h
over_budget now (job ∷ jobs) h = ground (arith, over_budget now jobs)

module _ (locked : ℕ → Bool) (now limit : ℕ) (db : Database) where
  -- the rows that one call handles
  abbrev pub taken : List Job
  taken = take limit (order_by expiry (select (is_reclaimable locked now) db.jobs))

  abbrev pub after : Database
  after = record db { jobs = save_all job_key (map (reclaimed now) taken) db.jobs }

  taken-All : All (λ job. is_reclaimable locked now job ≡ true) taken
  taken-All =
      All-take _ limit _ (All-order_by expiry _ _ (select-All (is_reclaimable locked now) db.jobs))

  abbrev pub ReclaimAnswer : Outcome (List Job × Database) → Type 0
  ReclaimAnswer (ok (jobs, db')) = (jobs ≡ map (reclaimed now) taken) × (db' ≡ after)
  ReclaimAnswer (err integrity_error) =
      exists (λ job. leb job.max_attempts job.attempt) taken ≡ true
  ReclaimAnswer (err _) = ⊥

  answer-ReclaimAnswer : ReclaimAnswer (reclaim_expired_leases locked now limit db)
  unfolding reclaim_expired_leases
  answer-ReclaimAnswer = elim (Bool-cases (exists is_over_budget (map (reclaimed now) taken))) [
    | inl over ↦ rw (reclaim_each-map now taken, over) (over_budget now taken over)
    | inr fits ↦ rw (reclaim_each-map now taken, fits) (refl, refl)
  ]

  -- Reclaiming takes at most `limit` jobs, all of them unlocked and RUNNING under a lease that has
  -- ended, and writes each back without a lease and with one more attempt spent: as TERMINAL_FAILURE
  -- if its class is NEVER, as FAILED if MANUAL_RESUME, and otherwise as READY while the budget lasts
  -- and as TERMINAL_FAILURE after it. It raises IntegrityError only where one of these jobs has no
  -- attempt left, and nothing else.
  pub reclaim_expired_leases-ReclaimAnswer :
      (length taken ≤ limit)
      × All (λ job. is_reclaimable locked now job ≡ true) taken
      × ReclaimAnswer (reclaim_expired_leases locked now limit db)
  reclaim_expired_leases-ReclaimAnswer = (length-take-le limit _, taken-All, answer-ReclaimAnswer)

-- a row that no worker holds
abbrev IsFree : Job → Type 0
IsFree job = is_none job.lease_owner ≡ true

IsFree-is_owner :
    (job : Job) (worker_id : String) → IsFree job → is_owner job.lease_owner worker_id ≡ false
IsFree-is_owner job worker_id free = ground arith

IsFree-not_held :
    (job_id : ℕ) (worker_id : String) (now : ℕ) (extension : Option ℕ) (status : JobStatus)
    (db : Database)
    → exists (is_status status) legal_release_statuses ≡ true
    → All (λ x. x.id ≡ job_id → IsFree x) db.jobs
    → (heartbeat job_id worker_id now extension db ≡ err (lease lease_not_held))
      × (release_lease job_id worker_id now status db ≡ err (lease lease_not_held))
unfolding heartbeat release_lease
IsFree-not_held job_id worker_id now extension status db legal free =
    elim (Option-cases (get_job job_id db)) [
      | inl missing ↦ (rw missing, rw (legal, missing))
      | inr (job, found) ↦
          let mine : is_owner job.lease_owner worker_id ≡ false =
            IsFree-is_owner job worker_id (
              All-get job_key _ job_id db.jobs found free (key-get job_key job_id db.jobs found)) in
          (rw (found, mine), rw (legal, found, mine))
    ]

reclaimed-IsFree : (now : ℕ) (jobs : List Job) → All IsFree (map (reclaimed now) jobs)
reclaimed-IsFree now [] = tt
reclaimed-IsFree now (job ∷ jobs) = (refl, reclaimed-IsFree now jobs)

-- A worker whose job has been reclaimed is fenced off: its heartbeat, and its release to any legal
-- status, are answered with LeaseNotHeldError.
pub reclaimed_is_fenced :
    (locked : ℕ → Bool) (now limit : ℕ) (db db' : Database) (jobs : List Job) (job : Job)
    (worker_id : String) (later : ℕ) (extension : Option ℕ) (status : JobStatus)
    → reclaim_expired_leases locked now limit db ≡ ok (jobs, db')
    → Memᴰ job jobs
    → exists (is_status status) legal_release_statuses ≡ true
    → (heartbeat job.id worker_id later extension db' ≡ err (lease lease_not_held))
      × (release_lease job.id worker_id later status db' ≡ err (lease lease_not_held))
reclaimed_is_fenced locked now limit db db' jobs job worker_id later extension status h m legal =
    let (same, wrote) =
      subst (ReclaimAnswer locked now limit db) h (answer-ReclaimAnswer locked now limit db) in
    rw wrote (
      IsFree-not_held job.id worker_id later extension status (after locked now limit db) legal (
        save_all-saved job_key IsFree job _ db.jobs (subst (Memᴰ job) same m)
          (reclaimed-IsFree now (taken locked now limit db))))
