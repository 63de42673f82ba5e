-- ===== src/Scheduler/Stalls.antt =====
-- The detection of stalled jobs, and the whole cycle.
use money_machine.Base.{
  ℕ, ◌+◌, ◌<◌, ◌≤◌, ◌≡◌, ◌⊎◌, refl, none, some, subst, Memᴰ, All-map, Option-cases, ap, inl, inr,
  Bool, true, false, List, [], ◌∷◌, map, arith, All, All-take, All-order_by, length, take, select,
  select-All, exists, order_by, selected, mem-take, mem-order_by, length-take-le, length-map,
  save_all, Bool-cases, not,
}
use money_machine.Domain.{EventName}
use money_machine.Domain.JobStatus.{running, failed}
use money_machine.Errors.{Outcome, ok, err, integrity_error, ◌>>=◌, guard, ◌>>◌}
use money_machine.Guard.{require_job_transition}
use money_machine.Tables.{Job, Event, DedupeKey, Database, job_key, minutes}
use money_machine.Leases.{reclaim_expired_leases, failed_attempt, is_over_budget, is_reclaimable}
use money_machine.Leases.Reclaim.{
  taken, reclaimed, ReclaimAnswer, reclaim_expired_leases-ReclaimAnswer,
}
use money_machine.Scheduler.{
  promote_due_jobs, is_stalled, last_beat, stalled_event, is_stall_of, add_event, stall_each,
  detect_stalled_jobs, CycleCounts, run_scheduler_cycle,
}
use money_machine.Scheduler.Passes.{WritesOnly, promote_due_jobs-WritesOnly}

-- a row that passes a test, where there is one
exists-mem :
    {A : Type 0} (test : A → Bool) (xs : List A)
    → exists test xs ≡ true
    → (x : A) × Memᴰ x xs × (test x ≡ true)
unfolding exists
exists-mem test [] h = cc
exists-mem test (x ∷ xs) h = elim (Bool-cases (test x)) [
  | inl holds ↦ (x, Memᴰ.head refl, holds)
  | inr fails ↦
      let (y, there, holds) = exists-mem test xs (ground arith) in (y, Memᴰ.tail there, holds)
]

-- the events of a pass over `jobs`, the latest first
abbrev pub with_stalls : ℕ → List Job → List Event → List Event
with_stalls now [] events = events
with_stalls now (job ∷ jobs) events = with_stalls now jobs (
    record {
      event_name = EventName.job_stalled;
      aggregate_type = "Job";
      aggregate_id = job.id;
      workflow_id = some job.workflow_id;
      job_id = some job.id;
      dedupe_key = DedupeKey.job_stalled job.id now;
      occurred_at = now;
    }
    ∷ events)

-- a stalled job: FAILED and free, with one more attempt spent
abbrev pub given_up : ℕ → Job → Job
given_up now job = record job {
  status = failed;
  lease_owner = none;
  lease_expires_at = none;
  heartbeat_at = none;
  updated_at = now;
  attempt = job.attempt + 1;
}

-- an event of the pass has the dedupe key of one that is there, or of an earlier one of the pass
abbrev pub Clashes : ℕ → List Job → List Event → Type 0
Clashes now [] events = ⊥
Clashes now (job ∷ jobs) events =
    ((e : Event) × Memᴰ e events × (e.dedupe_key ≡ DedupeKey.job_stalled job.id now))
    ⊎ Clashes now jobs (stalled_event now job ∷ events)

abbrev pub StallAnswer : ℕ → List Job → List Event → Outcome (List Job × List Event) → Type 0
StallAnswer now jobs events (ok (jobs', events')) =
    (jobs' ≡ map (given_up now) jobs) × (events' ≡ with_stalls now jobs events)
StallAnswer now jobs events (err integrity_error) = Clashes now jobs events
StallAnswer now jobs events (err _) = ⊥

stall_step :
    (now : ℕ) (job : Job) (jobs : List Job) (events : List Event)
    (o : Outcome (List Job × List Event))
    → StallAnswer now jobs (stalled_event now job ∷ events) o
    → StallAnswer now
        (job ∷ jobs)
        events
        (o >>= λ (p : List Job × List Event). ok (failed_attempt now job ∷ p.0, p.1))
stall_step now job jobs events (ok (jobs', events')) (same, wrote) =
    (ap (λ js. failed_attempt now job ∷ js) same, wrote)
stall_step now job jobs events (err integrity_error) a = inr a
stall_step now job jobs events (err e) a = absurd a

is_stall_of-eq :
    (job_id now : ℕ) (e : Event)
    → is_stall_of job_id now e ≡ true
    → e.dedupe_key ≡ DedupeKey.job_stalled job_id now
is_stall_of-eq job_id now e h = ground arith

pub stall_each-StallAnswer :
    (now : ℕ) (jobs : List Job) (events : List Event)
    → StallAnswer now jobs events (stall_each now jobs events)
unfolding stall_each add_event require_job_transition
stall_each-StallAnswer now [] events = (refl, refl)
stall_each-StallAnswer now (job ∷ jobs) events =
    elim (Bool-cases (exists (is_stall_of job.id now) events)) [
      | inl clash ↦
          let (e, there, stall) = exists-mem (is_stall_of job.id now) events clash in
          rw clash (inl (e, there, is_stall_of-eq job.id now e stall))
      | inr free ↦ rw free (
          stall_step now job jobs events _
            (stall_each-StallAnswer now jobs (stalled_event now job ∷ events)))
    ]

-- A RUNNING job whose last heartbeat is longer ago than the threshold, and whose lease has not ended.
abbrev pub IsStalled : (ℕ → Bool) → ℕ → ℕ → Job → Type 0
IsStalled locked stall_threshold now job =
    (job.status ≡ running)
    × ((beat : ℕ) × (job.heartbeat_at ≡ some beat) × (beat + stall_threshold < now))
    × ((lease : ℕ) × (job.lease_expires_at ≡ some lease) × (now < lease))
    × (locked job.id ≡ false)

is_stalled-IsStalled :
    (locked : ℕ → Bool) (stall_threshold now : ℕ) (job : Job)
    → is_stalled locked stall_threshold now job ≡ true
    → IsStalled locked stall_threshold now job
unfolding is_stalled
is_stalled-IsStalled locked stall_threshold now job h = elim (Option-cases job.heartbeat_at) [
  | inl missing ↦ absurd (ground arith)
  | inr (beat, beats) ↦ elim (Option-cases job.lease_expires_at) [
    | inl missing ↦ absurd (ground arith)
    | inr (lease, ends) ↦
        (ground arith, (beat, beats, ground arith), (lease, ends, ground arith), ground arith)
  ]
]

IsStalled-is_stalled :
    (locked : ℕ → Bool) (stall_threshold now : ℕ) (job : Job)
    → IsStalled locked stall_threshold now job
    → is_stalled locked stall_threshold now job ≡ true
unfolding is_stalled
IsStalled-is_stalled locked stall_threshold now job
      (runs, (beat, beats, silent), (lease, ends, alive), free) =
    rw (runs, beats, ends, free) (ground arith)

module _ (locked : ℕ → Bool) (stall_threshold now limit : ℕ) (db : Database) where
  -- the rows that one call of `detect_stalled_jobs` handles
  abbrev pub stalled : List Job
  stalled = take limit (order_by last_beat (select (is_stalled locked stall_threshold now) db.jobs))

  abbrev pub Detected : Outcome (List Job × Database) → Type 0
  Detected (ok (jobs, db')) =
      (length jobs ≤ limit)
      × (jobs ≡ map (given_up now) stalled)
      × (db' ≡ record db {
        jobs = save_all job_key jobs db.jobs;
        events = with_stalls now stalled db.events;
      })
  Detected (err integrity_error) =
      Clashes now stalled db.events
      ⊎ ((job : Job) × Memᴰ job (map (given_up now) stalled) × (job.max_attempts < job.attempt))
  Detected (err _) = ⊥

  pub stalled_rows : All (λ job. is_stalled locked stall_threshold now job ≡ true) stalled
  stalled_rows =
      All-take _ limit _
        (All-order_by last_beat _ _ (select-All (is_stalled locked stall_threshold now) db.jobs))

  stalled-All : All (IsStalled locked stall_threshold now) stalled
  stalled-All = All-map _ stalled (is_stalled-IsStalled locked stall_threshold now) stalled_rows

  -- a stalled job is handled, or the limit is reached
  stalled_complete :
      (job : Job)
      → Memᴰ job db.jobs
      → IsStalled locked stall_threshold now job
      → Memᴰ job stalled ⊎ (length stalled ≡ limit)
  stalled_complete job there stall = mem-take limit _ (
      mem-order_by last_beat _
        (selected _ db.jobs there (IsStalled-is_stalled locked stall_threshold now job stall)))

  -- the check of the flush, and the answer
  flushed : List Job × List Event → Outcome (List Job × Database)
  flushed (jobs, events') = do
    guard (not (exists is_over_budget jobs)) integrity_error
    ok (jobs, record db { jobs = save_all job_key jobs db.jobs; events = events' })

  detected :
      (o : Outcome (List Job × List Event))
      → StallAnswer now stalled db.events o
      → Detected (o >>= flushed)
  unfolding flushed
  detected (ok (jobs, events')) (same, wrote) = elim (Bool-cases (exists is_over_budget jobs)) [
    | inl over ↦
        let (job, there, spent) = exists-mem is_over_budget jobs over in
        rw over (inr (job, subst (Memᴰ job) same there, ground arith))
    | inr fits ↦
        rw fits (
          rw (same, length-map (given_up now) stalled) (length-take-le limit _),
          same,
          rw wrote refl,
        )
  ]
  detected (err integrity_error) a = inl a
  detected (err e) a = absurd a

  -- Detection takes at most `limit` jobs, all of them unlocked and RUNNING, under a lease that has
  -- not ended and without a heartbeat for longer than the threshold, and every such job unless the
  -- limit is reached. Each becomes FAILED without a
  -- lease and with one more attempt spent, and one JOB_STALLED event is added for each. Nothing but
  -- IntegrityError is raised, and only where an event of such a job was recorded before for the same
  -- moment, or a job has more attempts spent than it may.
  pub detect_stalled_jobs-Detected :
      All (IsStalled locked stall_threshold now) stalled
      × ((job : Job)
          → Memᴰ job db.jobs
          → IsStalled locked stall_threshold now job
          → Memᴰ job stalled ⊎ (length stalled ≡ limit))
      × Detected (detect_stalled_jobs locked stall_threshold now limit db)
  unfolding detect_stalled_jobs flushed
  detect_stalled_jobs-Detected = (
    stalled-All,
    stalled_complete,
    detected (stall_each now stalled db.events) (stall_each-StallAnswer now stalled db.events),
  )

-- A job that is taken back because its lease has ended is not also counted as stalled.
pub reclaimable_not_stalled :
    (locked : ℕ → Bool) (stall_threshold now : ℕ) (job : Job)
    → is_reclaimable locked now job ≡ true
    → is_stalled locked stall_threshold now job ≡ false
unfolding is_reclaimable is_stalled
reclaimable_not_stalled locked stall_threshold now job h = ground arith

module _ (now promote_limit reclaim_limit stall_limit : ℕ) where
  abbrev pub CycleAnswer : Outcome (CycleCounts × Database) → Type 0
  CycleAnswer (ok (counts, db')) =
      (counts.promoted ≤ promote_limit)
      × (counts.reclaimed ≤ reclaim_limit)
      × (counts.stalled ≤ stall_limit)
  CycleAnswer (err integrity_error) = Unit
  CycleAnswer (err _) = ⊥

  close :
      (nr ns : ℕ) (db : Database) (o : Outcome (List Job × Database))
      → nr ≤ reclaim_limit
      → ns ≤ stall_limit
      → WritesOnly now db promote_limit o
      → CycleAnswer (
          o >>= λ (p : List Job × Database).
          ok (record { promoted = length p.0; reclaimed = nr; stalled = ns }, p.1))
  close nr ns db (ok (jobs, db')) r s (short, _, _) = (short, r, s)
  close nr ns db (err e) r s w = absurd w

  then_promote :
      (nr : ℕ) (locked : ℕ → Bool) (db : Database) (o : Outcome (List Job × Database))
      → nr ≤ reclaim_limit
      → Detected locked (minutes 5) now stall_limit db o
      → CycleAnswer (
          o >>= λ (p : List Job × Database).
          promote_due_jobs now promote_limit p.1 >>= λ (q : List Job × Database).
          ok (record { promoted = length q.0; reclaimed = nr; stalled = length p.0 }, q.1))
  then_promote nr locked db (ok (jobs, db')) r (short, _, _) =
      close nr (length jobs) db' (promote_due_jobs now promote_limit db') r short
        (promote_due_jobs-WritesOnly now promote_limit db')
  then_promote nr locked db (err integrity_error) r d = tt
  then_promote nr locked db (err e) r d = absurd d

  -- the two passes behind the reclaiming, and the counts
  later : (ℕ → Bool) → List Job × Database → Outcome (CycleCounts × Database)
  later locked (reclaimed_jobs, db1) = do
    (stalled_jobs, db2) ← detect_stalled_jobs locked (minutes 5) now stall_limit db1
    (promoted_jobs, db3) ← promote_due_jobs now promote_limit db2
    ok (
      record {
        promoted = length promoted_jobs;
        reclaimed = length reclaimed_jobs;
        stalled = length stalled_jobs;
      },
      db3,
    )

  then_detect :
      (locked : ℕ → Bool) (db : Database) (o : Outcome (List Job × Database))
      → length (taken locked now reclaim_limit db) ≤ reclaim_limit
      → ReclaimAnswer locked now reclaim_limit db o
      → CycleAnswer (o >>= later locked)
  unfolding later
  then_detect locked db (ok (jobs, db1)) few (same, wrote) =
      then_promote (length jobs) locked db1 _
        (rw (same, length-map (reclaimed now) (taken locked now reclaim_limit db)) few)
        (detect_stalled_jobs-Detected locked (minutes 5) now stall_limit db1).2
  then_detect locked db (err integrity_error) few a = tt
  then_detect locked db (err e) few a = absurd a

  -- One cycle of the scheduler counts no more jobs than each of its limits allows, and raises
  -- nothing but IntegrityError.
  pub run_scheduler_cycle-CycleAnswer :
      (locked : ℕ → Bool) (db : Database)
      → CycleAnswer (run_scheduler_cycle locked now promote_limit reclaim_limit stall_limit db)
  unfolding run_scheduler_cycle later
  run_scheduler_cycle-CycleAnswer locked db =
      let (few, _, answer) = reclaim_expired_leases-ReclaimAnswer locked now reclaim_limit db in
      then_detect locked db (reclaim_expired_leases locked now reclaim_limit db) few answer
