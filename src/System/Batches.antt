-- ===== src/System/Batches.antt =====
-- The operations that write several jobs keep all jobs sound.
use money_machine.Base.{
  exists, leb, refl, false, ◌≡◌, ℕ, Bool, true, List, [], ◌∷◌, map, arith, All, All-take,
  All-select, All-order_by, All-save_all, All-save, All-get, take, select, order_by,
}
use money_machine.Domain.JobStatus.{ready}
use money_machine.Errors.{integrity_error, Outcome, ok, err, resolution, ◌>>=◌}
use money_machine.Tables.{Job, Database, job_key, minutes}
use money_machine.Leases.{is_reclaimable, reclaim_expired_leases, failed_attempt}
use money_machine.Leases.Reclaim.{
  taken, after, reclaimed, ReclaimAnswer, reclaim_expired_leases-ReclaimAnswer,
}
use money_machine.Dependencies.{promote_pending_to_ready}
use money_machine.Dependencies.Readiness.{PromoteAnswer, promote_pending_to_ready-PromoteAnswer}
use money_machine.Scheduler.{
  is_stalled, last_beat, after_promotion, promote_each, promote_due_jobs, detect_stalled_jobs,
  run_scheduler_cycle,
}
use money_machine.Scheduler.Stalls.{stalled_rows, stalled, Detected, detect_stalled_jobs-Detected}
use money_machine.System.{IsSound, AllSound}
use money_machine.System.Rows.{
  running_left, reclaimed-IsSound, failed_attempt-IsSound, with_status-IsSound,
}

-- an answer leaves sound jobs
abbrev pub SoundIfOk : {A : Type 0} → Outcome (A × Database) → Type 0
SoundIfOk (ok (a, db')) = AllSound db'
SoundIfOk (err e) = Unit

-- what is true of the selected rows and of all rows, put to the changed rows
pub changed :
    (f : Job → Job) (p : Job → Bool) (jobs : List Job)
    → ((job : Job) → p job ≡ true → IsSound job → IsSound (f job))
    → All (λ job. p job ≡ true) jobs
    → All IsSound jobs
    → All IsSound (map f jobs)
changed f p [] step hp hs = tt
changed f p (job ∷ jobs) step hp hs = (step job hp.0 hs.0, changed f p jobs step hp.1 hs.1)

taken-IsSound :
    (p : Job → Bool) (column : Job → ℕ) (limit : ℕ) (jobs : List Job)
    → All IsSound jobs
    → All IsSound (take limit (order_by column (select p jobs)))
taken-IsSound p column limit jobs s =
    All-take _ limit _ (All-order_by column _ _ (All-select _ p jobs s))

reclaimed_lem :
    (locked : ℕ → Bool) (now limit : ℕ) (db : Database)
    → AllSound db
    → All (λ job. is_reclaimable locked now job ≡ true) (taken locked now limit db)
    → (o : Outcome (List Job × Database)) → ReclaimAnswer locked now limit db o
    → SoundIfOk o
unfolding is_reclaimable
reclaimed_lem locked now limit db s rows (ok (jobs, db')) (_, wrote) = rw wrote (
    All-save_all job_key IsSound _ db.jobs
      (changed (reclaimed now) (is_reclaimable locked now) (taken locked now limit db)
        (λ job p is. reclaimed-IsSound job now is (ground arith)) rows
        (taken-IsSound (is_reclaimable locked now) _ limit db.jobs s))
      s)
reclaimed_lem locked now limit db s rows (err e) a = tt

pub reclaim_expired_leases-AllSound :
    (locked : ℕ → Bool) (now limit : ℕ) (db : Database)
    → AllSound db
    → SoundIfOk (reclaim_expired_leases locked now limit db)
reclaim_expired_leases-AllSound locked now limit db s =
    let (_, rows, answer) = reclaim_expired_leases-ReclaimAnswer locked now limit db in
    reclaimed_lem locked now limit db s rows _ answer

attempts_left :
    (locked : ℕ → Bool) (now : ℕ) (jobs : List Job)
    → All (λ job. is_reclaimable locked now job ≡ true) jobs
    → All IsSound jobs
    → exists (λ job. leb job.max_attempts job.attempt) jobs ≡ false
unfolding exists is_reclaimable
attempts_left locked now [] rows s = refl
attempts_left locked now (job ∷ jobs) rows s =
    let more = running_left job now s.0 (ground arith) in
    ground (arith, attempts_left locked now jobs rows.1 s.1)

fits_lem :
    (locked : ℕ → Bool) (now limit : ℕ) (db : Database) (o : Outcome (List Job × Database))
    → exists (λ job. leb job.max_attempts job.attempt) (taken locked now limit db) ≡ false
    → ReclaimAnswer locked now limit db o
    → o ≡ ok (map (reclaimed now) (taken locked now limit db), after locked now limit db)
fits_lem locked now limit db (ok (jobs, db')) left (same, wrote) = rw (same, wrote) refl
fits_lem locked now limit db (err integrity_error) left over = absurd (cc (left, over))
fits_lem locked now limit db (err e) left a = absurd a

-- Where every job is sound, reclaiming never raises, and all of the jobs that it takes are written
-- back in their reclaimed form.
pub reclaims_sound_jobs :
    (locked : ℕ → Bool) (now limit : ℕ) (db : Database)
    → AllSound db
    → reclaim_expired_leases locked now limit db
      ≡ ok (map (reclaimed now) (taken locked now limit db), after locked now limit db)
reclaims_sound_jobs locked now limit db s =
    let (_, rows, answer) = reclaim_expired_leases-ReclaimAnswer locked now limit db in
    fits_lem locked now limit db _
      (attempts_left locked now _ rows
        (taken-IsSound (is_reclaimable locked now) _ limit db.jobs s))
      answer

detected_lem :
    (locked : ℕ → Bool) (threshold now limit : ℕ) (db : Database)
    → AllSound db
    → All
        (λ job. is_stalled locked threshold now job ≡ true)
        (stalled locked threshold now limit db)
    → (o : Outcome (List Job × Database)) → Detected locked threshold now limit db o
    → SoundIfOk o
unfolding is_stalled
detected_lem locked threshold now limit db s rows (ok (jobs, db')) (_, same, wrote) =
    rw (wrote, same)
      (All-save_all job_key IsSound _ db.jobs
        (changed (failed_attempt now) (is_stalled locked threshold now)
          (stalled locked threshold now limit db)
          (λ job p is. failed_attempt-IsSound job now is (ground arith)) rows
          (taken-IsSound (is_stalled locked threshold now) last_beat limit db.jobs s))
        s)
detected_lem locked threshold now limit db s rows (err e) d = tt

pub detect_stalled_jobs-AllSound :
    (locked : ℕ → Bool) (threshold now limit : ℕ) (db : Database)
    → AllSound db
    → SoundIfOk (detect_stalled_jobs locked threshold now limit db)
detect_stalled_jobs-AllSound locked threshold now limit db s =
    detected_lem locked threshold now limit db s (stalled_rows locked threshold now limit db) _
      (detect_stalled_jobs-Detected locked threshold now limit db).2

pub promote_lem :
    (job_id now : ℕ) (db : Database)
    → AllSound db
    → (o : Outcome (Job × Database)) → PromoteAnswer job_id now db o
    → SoundIfOk o
promote_lem job_id now db s (ok (job', db')) (job, found, is_ready, same, wrote) =
    let is = All-get job_key IsSound job_id db.jobs found s in
    let moved : IsSound job' = rw same (
      with_status-IsSound job now is ready (ground (arith, is_ready.is_pending)) refl (λ _.
        is.left (λ e. ground (arith, is_ready.is_pending))
          (λ e. ground (arith, is_ready.is_pending)))) in
    rw wrote (All-save job_key IsSound job' db.jobs moved s)
promote_lem job_id now db s (err e) a = tt

add_sound :
    (job : Job) (o : Outcome (List Job × Database))
    → SoundIfOk o
    → SoundIfOk (o >>= λ (p : List Job × Database). ok (job ∷ p.0, p.1))
add_sound job (ok (jobs, db)) s = s
add_sound job (err e) s = tt

promote_step :
    (rest : Database → Outcome (List Job × Database)) (db : Database) (o : Outcome (Job × Database))
    → ((x : Database) → AllSound x → SoundIfOk (rest x))
    → AllSound db
    → SoundIfOk o
    → SoundIfOk (after_promotion rest db o)
promote_step rest db (ok (job, db')) IH s so = add_sound job (rest db') (IH db' so)
promote_step rest db (err (resolution e)) IH s so = IH db s
promote_step rest db (err e) IH s so = tt

promote_each-AllSound :
    (now : ℕ) (jobs : List Job) (db : Database) → AllSound db → SoundIfOk (promote_each now jobs db)
unfolding promote_each
promote_each-AllSound now [] db s = s
promote_each-AllSound now (job ∷ jobs) db s =
    promote_step (promote_each now jobs) db (promote_pending_to_ready job.id now db)
      (promote_each-AllSound now jobs) s
      (promote_lem job.id now db s _ (promote_pending_to_ready-PromoteAnswer job.id now db))

pub promote_due_jobs-AllSound :
    (now limit : ℕ) (db : Database) → AllSound db → SoundIfOk (promote_due_jobs now limit db)
unfolding promote_due_jobs
promote_due_jobs-AllSound now limit db s = promote_each-AllSound now _ db s

-- one more call after one that has kept all sound
pub then_sound :
    {A B : Type 0} (o : Outcome (A × Database)) (next : A → Database → Outcome (B × Database))
    → SoundIfOk o
    → ((a : A) (db : Database) → AllSound db → SoundIfOk (next a db))
    → SoundIfOk (o >>= λ (p : A × Database). next p.0 p.1)
then_sound (ok (a, db)) next s h = h a db s
then_sound (err e) next s h = tt

pub run_scheduler_cycle-AllSound :
    (locked : ℕ → Bool) (now a b c : ℕ) (db : Database)
    → AllSound db
    → SoundIfOk (run_scheduler_cycle locked now a b c db)
unfolding run_scheduler_cycle
run_scheduler_cycle-AllSound locked now a b c db s =
    then_sound (reclaim_expired_leases locked now b db) _
      (reclaim_expired_leases-AllSound locked now b db s)
      (λ rs db1 s1.
        then_sound (detect_stalled_jobs locked (minutes 5) now c db1) _
          (detect_stalled_jobs-AllSound locked (minutes 5) now c db1 s1)
          (λ ss db2 s2.
            then_sound (promote_due_jobs now a db2) _ (promote_due_jobs-AllSound now a db2 s2)
              (λ ps db3 s3. s3)))
