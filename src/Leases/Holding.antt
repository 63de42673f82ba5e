-- ===== src/Leases/Holding.antt =====
-- Heartbeats and releases: only the holder of a lease acts on its job.
use money_machine.Base.{
  ℕ, ◌+◌, ◌<◌, ◌≤◌, String, ◌≡◌, ◌≢◌, str_eq, str_eq-eq, refl, ◌⊎◌, inl, inr, Bool, true, false,
  Option, none, some, arith, exists, get-save, key-get, Option-cases, Bool-cases, ◌==◌,
  if◌then◌else◌, subst,
}
use text.Mathlib.TextPositions.{eq_refl}
use money_machine.Domain.{JobStatus, is_status}
use money_machine.Errors.{Outcome, ok, err, value_error, lease_not_held, lease_expired, lease}
use money_machine.Guard.{require_job_transition}
use money_machine.Tables.{Job, Database, job_key, get_job, save_job}
use money_machine.Leases.{
  is_owner, is_past, renewed, heartbeat, legal_release_statuses, unleased, release_lease,
  is_reclaimable,
}

-- `job_id` names no job, or a job that another worker leases or nobody
abbrev pub NotHeld : ℕ → String → Database → Type 0
NotHeld job_id worker_id db =
    (get_job job_id db ≡ none)
    ⊎ ((job : Job) × (get_job job_id db ≡ some job) × (is_owner job.lease_owner worker_id ≡ false))

-- `job` is the one row that has changed, to `job'`
abbrev pub Replaces : ℕ → Job → Database → Database → Type 0
Replaces job_id job' db db' =
    (k : ℕ) → get_job k db' ≡ (if job_id == k then some job' else get_job k db)

pub get_job-save_job :
    (job_id : ℕ) (db : Database) (job job' : Job)
    → get_job job_id db ≡ some job
    → job'.id ≡ job.id
    → Replaces job_id job' db (save_job job' db)
get_job-save_job job_id db job job' found same k =
    ground (arith, get-save job_key k job' db.jobs, key-get job_key job_id db.jobs found)

pub get_job-save_job_self :
    (job_id : ℕ) (db : Database) (job job' : Job)
    → get_job job_id db ≡ some job
    → job'.id ≡ job.id
    → get_job job_id (save_job job' db) ≡ some job'
get_job-save_job_self job_id db job job' found same =
    ground (arith, get_job-save_job job_id db job job' found same job_id)

module _ (job_id : ℕ) (worker_id : String) (now : ℕ) (final_status : JobStatus)
    (db : Database) where
  abbrev pub ReleaseAnswer : Outcome Database → Type 0
  ReleaseAnswer (ok db') =
      (job : Job) × (get_job job_id db ≡ some job)
      × (is_owner job.lease_owner worker_id ≡ true)
      × (exists (is_status final_status) legal_release_statuses ≡ true)
      × Replaces job_id (unleased now final_status job) db db'
  ReleaseAnswer (err value_error) = exists (is_status final_status) legal_release_statuses ≡ false
  ReleaseAnswer (err (lease lease_not_held)) = NotHeld job_id worker_id db
  ReleaseAnswer (err _) = ⊥

  release_found :
      (job : Job)
      → get_job job_id db ≡ some job
      → is_owner job.lease_owner worker_id ≡ true
      → exists (is_status final_status) legal_release_statuses ≡ true
      → ReleaseAnswer (release_lease job_id worker_id now final_status db)
  unfolding release_lease require_job_transition
  release_found job found own legal =
      rw (found, legal, own) (job, found, own, legal, get_job-save_job job_id db job _ found refl)

  release_legal :
      exists (is_status final_status) legal_release_statuses ≡ true
      → ReleaseAnswer (release_lease job_id worker_id now final_status db)
  unfolding release_lease
  release_legal legal = elim (Option-cases (get_job job_id db)) [
    | inl missing ↦ rw (legal, missing) (inl missing)
    | inr (job, found) ↦ elim (Bool-cases (is_owner job.lease_owner worker_id)) [
      | inl own ↦ release_found job found own legal
      | inr foreign ↦ rw (legal, found, foreign) (inr (job, found, foreign))
    ]
  ]

  -- Release gives up the lease, and sets the final status, of the one job that the worker holds, and
  -- changes no other job. A final status that a running job may not take is refused with ValueError,
  -- and a job that is missing or not held by the worker with LeaseNotHeldError; nothing else is
  -- raised.
  pub release_lease-ReleaseAnswer :
      ReleaseAnswer (release_lease job_id worker_id now final_status db)
  unfolding release_lease
  release_lease-ReleaseAnswer =
      elim (Bool-cases (exists (is_status final_status) legal_release_statuses)) [
        | inl legal ↦ release_legal legal
        | inr illegal ↦ rw illegal illegal
      ]

module _ (job_id : ℕ) (worker_id : String) (now : ℕ) (extension : Option ℕ) (db : Database) where
  -- the end of a lease after a heartbeat
  abbrev pub lease_end : Option ℕ → Option ℕ → Option ℕ
  lease_end none old = old
  lease_end (some longer) old = some (now + longer)

  abbrev pub HeartbeatAnswer : Outcome Database → Type 0
  HeartbeatAnswer (ok db') =
      (job : Job) × (get_job job_id db ≡ some job)
      × (job.lease_owner ≡ some worker_id)
      × ((t : ℕ) → job.lease_expires_at ≡ some t → now ≤ t)
      × Replaces job_id
          (record job {
            heartbeat_at = some now;
            updated_at = now;
            lease_expires_at = lease_end extension job.lease_expires_at;
          })
          db db'
  HeartbeatAnswer (err (lease lease_expired)) =
      (job : Job) × (get_job job_id db ≡ some job)
      × (job.lease_owner ≡ some worker_id)
      × ((t : ℕ) × (job.lease_expires_at ≡ some t) × (t < now))
  HeartbeatAnswer (err (lease lease_not_held)) =
      (job : Job) → get_job job_id db ≡ some job → job.lease_owner ≢ some worker_id
  HeartbeatAnswer (err _) = ⊥

  is_owner-some :
      (job : Job) → is_owner job.lease_owner worker_id ≡ true → job.lease_owner ≡ some worker_id
  is_owner-some job own = elim (Option-cases job.lease_owner) [
    | inl nobody ↦ absurd (ground arith)
    | inr (owner, is) ↦
        let same : str_eq owner worker_id ≡ true = ground arith in
        cc (is, str_eq-eq owner worker_id same)
  ]

  past_lease :
      (job : Job)
      → is_past job.lease_expires_at now ≡ true
      → (t : ℕ) × (job.lease_expires_at ≡ some t) × (t < now)
  past_lease job past = elim (Option-cases job.lease_expires_at) [
    | inl open_end ↦ absurd (ground arith)
    | inr (t, ends) ↦ (t, ends, ground arith)
  ]

  heartbeat_renews :
      (job : Job)
      → renewed now extension job ≡ record job {
        heartbeat_at = some now;
        updated_at = now;
        lease_expires_at = lease_end extension job.lease_expires_at;
      }
  heartbeat_renews job = elim (Option-cases extension) [
    | inl same ↦ rw same refl
    | inr (longer, given) ↦ rw given refl
  ]

  heartbeat_held :
      (job : Job)
      → get_job job_id db ≡ some job
      → is_owner job.lease_owner worker_id ≡ true
      → HeartbeatAnswer (heartbeat job_id worker_id now extension db)
  unfolding heartbeat
  heartbeat_held job found own = elim (Bool-cases (is_past job.lease_expires_at now)) [
    | inl past ↦ rw (found, own, past) (job, found, is_owner-some job own, past_lease job past)
    | inr alive ↦
        rw (found, own, alive)
          (
            job,
            found,
            is_owner-some job own,
            (λ t ends. ground arith),
            subst (λ row. Replaces job_id row db (save_job (renewed now extension job) db))
                (heartbeat_renews job) (get_job-save_job job_id db job _ found refl),
          )
  ]

  -- A heartbeat of the worker that holds the job, under a lease that has not run out, sets the
  -- heartbeat and the update to `now` and, where an extension is given, the lease's end to `now` and
  -- the extension; it changes no other column and no other job. A lease of the worker that ended
  -- before `now` is answered with LeaseExpiredError, and a job that is missing or not held by the
  -- worker with LeaseNotHeldError; nothing else is raised.
  pub heartbeat-HeartbeatAnswer : HeartbeatAnswer (heartbeat job_id worker_id now extension db)
  unfolding heartbeat
  heartbeat-HeartbeatAnswer = elim (Option-cases (get_job job_id db)) [
    | inl missing ↦ rw missing (λ j there. cc)
    | inr (job, found) ↦ elim (Bool-cases (is_owner job.lease_owner worker_id)) [
      | inl own ↦ heartbeat_held job found own
      | inr foreign ↦
          rw (found, foreign)
            (λ j there mine. let same : job ≡ j = ground arith in ground (arith, eq_refl worker_id))
    ]
  ]

-- A heartbeat with an extension keeps the job from being reclaimed until the extension has run out.
pub heartbeat_keeps_lease :
    (job_id : ℕ) (worker_id : String) (now extension : ℕ) (db db' : Database) (locked : ℕ → Bool)
    (later : ℕ)
    → heartbeat job_id worker_id now (some extension) db ≡ ok db'
    → later < now + extension
    → (job : Job) × (get_job job_id db' ≡ some job) × (is_reclaimable locked later job ≡ false)
unfolding is_reclaimable
heartbeat_keeps_lease job_id worker_id now extension db db' locked later h early =
    let (job, found, own, alive, replaces) =
      subst (HeartbeatAnswer job_id worker_id now (some extension) db) h
        (heartbeat-HeartbeatAnswer job_id worker_id now (some extension) db) in
    (renewed now (some extension) job, ground (arith, replaces job_id), ground arith)
