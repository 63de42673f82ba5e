-- ===== src/Leases.antt =====
-- src/money_machine/orchestration/leases.py. `locked` says which rows other transactions have
-- locked: a `SKIP LOCKED` query passes them over.
pub mod Claim
pub mod Holding
pub mod Reclaim
mod Tests
use money_machine.Base.{
  ℕ, ◌+◌, String, Bool, true, false, not, ◌&&◌, Option, none, some, List, [], ◌∷◌, take, select,
  exists, order_by, save_all, ltb, leb, str_eq, if◌then◌else◌,
}
use money_machine.Domain.{JobStatus, RetryClass, is_status}
use money_machine.Domain.JobStatus.{
  ready, running, succeeded, failed, blocked, uncertain_external_effect, terminal_failure,
}
use money_machine.Domain.RetryClass.{manual_resume, never}
use money_machine.Errors.{
  Outcome, ok, lease_expired, lease_not_held, value_error, integrity_error, lease, guard, require,
  ◌>>=◌, ◌>>◌,
}
use money_machine.Guard.{require_job_transition}
use money_machine.Tables.{Job, Database, job_key, get_job, save_job}

-- the rows that `claim_ready_job` selects
unfoldable pub is_claimable : (ℕ → Bool) → ℕ → Job → Bool
is_claimable locked now job =
    is_status job.status ready && leb job.scheduled_at now && not (locked job.id)

unfoldable pub claimed : String → ℕ → ℕ → Job → Job
claimed worker_id now lease_duration job = record job {
  status = running;
  lease_owner = some worker_id;
  lease_expires_at = some (now + lease_duration);
  heartbeat_at = some now;
  updated_at = now;
}

claim_first : String → ℕ → ℕ → Database → List Job → Outcome (Option Job × Database)
unfolding claimed
claim_first worker_id now lease_duration db [] = ok (none, db)
claim_first worker_id now lease_duration db (job ∷ _) = do
  require_job_transition ready running
  let job' = claimed worker_id now lease_duration job
  ok (some job', save_job job' db)

unfoldable pub claim_ready_job :
    (ℕ → Bool) → String → ℕ → ℕ → Database → Outcome (Option Job × Database)
unfolding claim_first is_claimable
claim_ready_job locked worker_id now lease_duration db =
    claim_first worker_id now lease_duration db
      (order_by (λ j. j.scheduled_at) (select (is_claimable locked now) db.jobs))

-- `job.lease_owner != worker_id`, turned round
abbrev pub is_owner : Option String → String → Bool
is_owner none worker_id = false
is_owner (some owner) worker_id = str_eq owner worker_id

-- `lease_expires_at is not None and lease_expires_at < now`
abbrev pub is_past : Option ℕ → ℕ → Bool
is_past none now = false
is_past (some t) now = ltb t now

abbrev pub extended : Option ℕ → ℕ → Option ℕ → Option ℕ
extended none now old = old
extended (some extension) now old = some (now + extension)

abbrev pub renewed : ℕ → Option ℕ → Job → Job
renewed now lease_extension job = record job {
  heartbeat_at = some now;
  updated_at = now;
  lease_expires_at = extended lease_extension now job.lease_expires_at;
}

unfoldable pub heartbeat : ℕ → String → ℕ → Option ℕ → Database → Outcome Database
heartbeat job_id worker_id now lease_extension db = do
  job ← require (get_job job_id db) (lease lease_not_held)
  guard (is_owner job.lease_owner worker_id) (lease lease_not_held)
  guard (not (is_past job.lease_expires_at now)) (lease lease_expired)
  ok (save_job (renewed now lease_extension job) db)

-- `_LEGAL_RELEASE_STATUSES`
abbrev pub legal_release_statuses : List JobStatus
legal_release_statuses = succeeded ∷ failed ∷ blocked ∷ uncertain_external_effect ∷ []

-- the job without its lease
abbrev pub unleased : ℕ → JobStatus → Job → Job
unleased now status job = record job {
  status = status;
  lease_owner = none;
  lease_expires_at = none;
  heartbeat_at = none;
  updated_at = now;
}

unfoldable pub release_lease : ℕ → String → ℕ → JobStatus → Database → Outcome Database
unfolding exists
release_lease job_id worker_id now final_status db = do
  guard (exists (is_status final_status) legal_release_statuses) value_error
  job ← require (get_job job_id db) (lease lease_not_held)
  guard (is_owner job.lease_owner worker_id) (lease lease_not_held)
  require_job_transition running final_status
  ok (save_job (unleased now final_status job) db)

-- `lease_expires_at <= now`, which is not true of NULL
abbrev pub is_expired : Option ℕ → ℕ → Bool
is_expired none now = false
is_expired (some t) now = leb t now

-- the rows that `reclaim_expired_leases` selects
unfoldable pub is_reclaimable : (ℕ → Bool) → ℕ → Job → Bool
is_reclaimable locked now job =
    is_status job.status running && is_expired job.lease_expires_at now && not (locked job.id)

-- `ORDER BY lease_expires_at`; no selected row has NULL there
abbrev expiry : Job → ℕ
expiry job = elim job.lease_expires_at [ none ↦ 0 | some t ↦ t ]

-- RUNNING → FAILED, with one more attempt spent
abbrev pub failed_attempt : ℕ → Job → Job
failed_attempt now job = record (unleased now failed job) { attempt = job.attempt + 1 }

-- FAILED → READY or TERMINAL_FAILURE, by the retry class and the budget
after_expiry : RetryClass → Job → Outcome Job
after_expiry never job = do
  require_job_transition failed terminal_failure
  ok (record job { status = terminal_failure })
after_expiry manual_resume job = ok job
after_expiry _ job =
    if leb job.max_attempts job.attempt
    then (do
      require_job_transition failed terminal_failure
      ok (record job { status = terminal_failure }))
    else (do require_job_transition failed ready; ok (record job { status = ready }))

unfoldable pub reclaim : ℕ → Job → Outcome Job
unfolding after_expiry
reclaim now job = do
  require_job_transition running failed
  after_expiry job.retry_class (failed_attempt now job)

reclaim_each : ℕ → List Job → Outcome (List Job)
unfolding reclaim
reclaim_each now [] = ok []
reclaim_each now (job ∷ jobs) = do
  job' ← reclaim now job
  jobs' ← reclaim_each now jobs
  ok (job' ∷ jobs')

-- the check `attempt_within_budget`, where it fails
abbrev pub is_over_budget : Job → Bool
is_over_budget job = ltb job.max_attempts job.attempt

unfoldable pub reclaim_expired_leases :
    (ℕ → Bool) → ℕ → ℕ → Database → Outcome (List Job × Database)
unfolding reclaim_each is_reclaimable
reclaim_expired_leases locked now limit db = do
  reclaimed ←
      reclaim_each now (take limit (order_by expiry (select (is_reclaimable locked now) db.jobs)))
  guard (not (exists is_over_budget reclaimed)) integrity_error
  ok (reclaimed, record db { jobs = save_all job_key reclaimed db.jobs })
