-- ===== src/Worker/Turns.antt =====
-- What a turn of the worker leaves behind.
use money_machine.Base.{
  ℕ, String, ◌≡◌, refl, ◌⊎◌, Bool, true, Option, none, some, List, [], ◌∷◌, Memᴰ, arith, exists,
  get-save, get-mem, inl, inr, subst,
}
use text.Mathlib.TextPositions.{eq_refl}
use money_machine.Domain.{AgentRunStatus, JobStatus, EventName}
use money_machine.Domain.JobStatus.{succeeded, failed, blocked}
use money_machine.Domain.AgentRunStatus.{success, failure}
use money_machine.Dispatcher.{dispatch}
use money_machine.Errors.{Outcome, Error, ok, err, Outcome-cases}
use money_machine.Guard.{require_job_transition}
use money_machine.Tables.{Job, Database, job_key, get_job, save_job, minutes}
use money_machine.Leases.{claimed, claim_ready_job, heartbeat, unleased, is_owner, release_lease}
use money_machine.Leases.Claim.{ClaimAnswer, claim_ready_job-ClaimAnswer}
use money_machine.Leases.Holding.{get_job-save_job_self}
use money_machine.Dependencies.{with_status}
use money_machine.Successors.Config.{WorkflowsConfig, Derivation}
use money_machine.Worker.{
  Run, no_implementation, not_commissioned, failed_to_run, finished, final_status, dispatch_all,
  finish, after_run, or_rollback, work_once,
}

-- the row of a claimed job is the claimed job
pub found_claimed :
    (db : Database) (job job' : Job)
    → Memᴰ job db.jobs
    → job'.id ≡ job.id
    → get_job job'.id (save_job job' db) ≡ some job'
found_claimed db job job' m same =
    ground (arith, get-mem job_key job db.jobs m, get-save job_key job'.id job' db.jobs)

-- the status that a result stands for
abbrev pub Stands : AgentRunStatus → JobStatus → Type 0
Stands success status = status ≡ succeeded
Stands failure status = status ≡ failed
Stands _ status = status ≡ blocked

final_status-Stands : (s : AgentRunStatus) → Stands s (final_status s)
unfolding final_status
final_status-Stands success = refl
final_status-Stands failure = refl
final_status-Stands _ = refl

module _ (config : WorkflowsConfig) (derive : Derivation) (worker_id : String) (now : ℕ) where
  -- the dispatch of one event of a job
  abbrev pub dispatch_event : Job → EventName → Database → Outcome (List ℕ × Database)
  dispatch_event job event_name =
      dispatch config derive event_name "Job" job.id (some job.workflow_id) (some job.id) now

  -- Every event is dispatched, each to the database that the one before it left.
  pub data Dispatched (job : Job) : List EventName → Database → Database → Type 0 where
    all_sent : {db : Database} → Dispatched job [] db db
    sent :
        {event_name : EventName} {events : List EventName} {db db' db'' : Database} (ids : List ℕ)
        → dispatch_event job event_name db ≡ ok (ids, db')
        → Dispatched job events db' db''
        → Dispatched job (event_name ∷ events) db db''

  -- An event raises, after those before it have been dispatched.
  pub data Raises (job : Job) : List EventName → Database → Type 0 where
    raises :
        {event_name : EventName} {events : List EventName} {db : Database} (e : Error)
        → dispatch_event job event_name db ≡ err e
        → Raises job (event_name ∷ events) db
    raises_later :
        {event_name : EventName} {events : List EventName} {db db' : Database} (ids : List ℕ)
        → dispatch_event job event_name db ≡ ok (ids, db')
        → Raises job events db'
        → Raises job (event_name ∷ events) db

  dispatch_all-cases :
      (job : Job) (events : List EventName) (db : Database)
      → ((db' : Database) × (dispatch_all config derive job now events db ≡ ok db')
          × Dispatched job events db db')
        ⊎ ((e : Error) × (dispatch_all config derive job now events db ≡ err e)
            × Raises job events db)
  unfolding dispatch_all
  dispatch_all-cases job [] db = inl (db, refl, all_sent)
  dispatch_all-cases job (event_name ∷ events) db =
      elim (Outcome-cases (dispatch_event job event_name db)) [
        | inr (e, fails) ↦ inr (e, rw fails refl, raises e fails)
        | inl ((ids, db1), goes) ↦ elim (dispatch_all-cases job events db1) [
          | inl (db2, run, rest) ↦ inl (db2, rw goes run, sent ids goes rest)
          | inr (e, run, rest) ↦ inr (e, rw goes run, raises_later ids goes rest)
        ]
      ]

  module _ (before : Database) where
    -- The answer and the database that each end of a run leaves. A result is answered where the lease is
    -- renewed, released to the status that it stands for, and every event dispatched; all is rolled
    -- back where one of these raises.
    abbrev pub Left : Job → Run → Option AgentRunStatus × Database → Type 0
    Left job no_implementation (status, db') =
        (status ≡ none)
        × (get_job job.id db' ≡ some (record job { status = failed; updated_at = now }))
    Left job not_commissioned (status, db') =
        (status ≡ none)
        × (get_job job.id db'
            ≡ some (record job {
              status = failed;
              lease_owner = none;
              lease_expires_at = none;
              heartbeat_at = none;
              updated_at = now;
            }))
    Left job failed_to_run (status, db') = (status ≡ none) × (db' ≡ before)
    Left job (finished s events after_it) (status, db') =
        ((status ≡ none)
          × (db' ≡ before)
          × (((e : Error) × (heartbeat job.id worker_id now none after_it ≡ err e))
              ⊎ ((db1 : Database) × (heartbeat job.id worker_id now none after_it ≡ ok db1)
                  × ((final : JobStatus) × Stands s final
                      × (((e : Error) × (release_lease job.id worker_id now final db1 ≡ err e))
                          ⊎ ((db2 : Database) × (release_lease job.id worker_id now final db1
                                ≡ ok db2)
                              × Raises job events db2))))))
        ⊎ ((status ≡ some s)
            × ((db1 db2 : Database) × (final : JobStatus) × (heartbeat job.id worker_id now none
                    after_it
                  ≡ ok db1)
                × Stands s final
                × (release_lease job.id worker_id now final db1 ≡ ok db2)
                × Dispatched job events db2 db'))

    finished-Left :
        (job : Job) (s : AgentRunStatus) (events : List EventName) (after_it : Database)
        → (answer : Option AgentRunStatus × Database) × (or_rollback before
              (finish config derive job worker_id now s events after_it)
            ≡ ok answer)
          × Left job (finished s events after_it) answer
    unfolding finish
    finished-Left job s events after_it =
        let stands = final_status-Stands s in
        elim (Outcome-cases (heartbeat job.id worker_id now none after_it)) [
          | inr (e, fails) ↦ ((none, before), rw fails refl, inl (refl, refl, inl (e, fails)))
          | inl (db1, beats) ↦
              elim (Outcome-cases (release_lease job.id worker_id now (final_status s) db1)) [
                | inr (e, fails) ↦ (
                  (none, before),
                  rw (beats, fails) refl,
                  inl (refl, refl, inr (db1, beats, (final_status s, stands, inl (e, fails)))),
                )
                | inl (db2, released) ↦ elim (dispatch_all-cases job events db2) [
                  | inr (e, fails, raised) ↦ (
                    (none, before),
                    rw (beats, released, fails) refl,
                    inl (
                      refl,
                      refl,
                      inr (db1, beats, (final_status s, stands, inr (db2, released, raised))),
                    ),
                  )
                  | inl (db3, sent_all, each) ↦ (
                    (some s, db3),
                    rw (beats, released, sent_all) refl,
                    inr (refl, (db1, db2, final_status s, beats, stands, released, each)),
                  )
                ]
              ]
        ]

    module _ (job : Job) (db : Database) (found : get_job job.id db ≡ some job)
        (mine : is_owner job.lease_owner worker_id ≡ true) where
      not_commissioned-Left :
          (answer : Option AgentRunStatus × Database) × (after_run config derive job worker_id now
              before db not_commissioned
            ≡ ok answer)
          × Left job not_commissioned answer
      unfolding after_run release_lease exists require_job_transition
      not_commissioned-Left =
          let marked = with_status failed now job in
          let there : get_job job.id (save_job marked db) ≡ some marked =
            get_job-save_job_self job.id db job marked found refl in
          (
            (none, save_job (unleased now failed marked) (save_job marked db)),
            rw (there, mine) refl,
            (refl, get_job-save_job_self job.id (save_job marked db) marked _ there refl),
          )

      pub after_run-Left :
          (r : Run)
          → (answer : Option AgentRunStatus × Database) × (after_run config derive job worker_id now
                before db r
              ≡ ok answer)
            × Left job r answer
      unfolding after_run
      after_run-Left no_implementation = (
        (none, save_job (with_status failed now job) db),
        refl,
        (refl, get_job-save_job_self job.id db job _ found refl),
      )
      after_run-Left not_commissioned = not_commissioned-Left
      after_run-Left failed_to_run = ((none, before), refl, (refl, refl))
      after_run-Left (finished s events after_it) = finished-Left job s events after_it

-- A turn of the worker that claims a job always comes to an end without raising. A result is answered
-- only where the lease was renewed and released, to SUCCEEDED for a success, FAILED for a failure and
-- BLOCKED for any other result, and all of its events were dispatched one after the other. Everything is
-- rolled back, the claim included, only where one of these raises or the run itself did. A job whose
-- agent is not commissioned ends FAILED and free; a job whose agent has no implementation ends FAILED,
-- and keeps its lease.
pub work_once-Left :
    (config : WorkflowsConfig) (derive : Derivation) (locked : ℕ → Bool)
    (run : Job → Database → Run) (worker_id : String) (now : ℕ) (before db : Database) (job : Job)
    → claim_ready_job locked worker_id now (minutes 5) before ≡ ok (some job, db)
    → (answer : Option AgentRunStatus × Database) × (work_once config derive locked run worker_id
          now before
        ≡ ok answer)
      × Left config derive worker_id now before job (run job db) answer
unfolding work_once claimed
work_once-Left config derive locked run worker_id now before db job h =
    let (was, m, _, _, made, wrote) =
      subst (ClaimAnswer locked worker_id now (minutes 5) before) h
        (claim_ready_job-ClaimAnswer locked worker_id now (minutes 5) before) in
    let found : get_job job.id db ≡ some job =
      rw wrote (found_claimed before was job m (rw made refl)) in
    let mine : is_owner job.lease_owner worker_id ≡ true = rw made (eq_refl worker_id) in
    let (answer, ran, left) =
      after_run-Left config derive worker_id now before job db found mine (run job db) in
    (answer, rw h ran, left)
