-- ===== src/Scheduler/Passes.antt =====
-- What one pass of the scheduler does: promotion, the detection of stalled jobs, and the cycle.
use money_machine.Base.{
  ℕ, suc, ◌≤◌, ◌≡◌, refl, List, [], ◌∷◌, arith, All, length, take, select, order_by, length-take-le,
  save_all,
}
use money_machine.Domain.JobStatus.{ready}
use money_machine.Errors.{Outcome, ok, err, resolution}
use money_machine.Tables.{Job, Database, job_key, save_job}
use money_machine.Dependencies.{promote_pending_to_ready}
use money_machine.Dependencies.Readiness.{PromoteAnswer, promote_pending_to_ready-PromoteAnswer}
use money_machine.Scheduler.{is_due, after_promotion, promote_each, promote_due_jobs}

module _ (now : ℕ) where
  -- a row that a pass at `now` may have promoted
  abbrev pub IsPromoted : Job → Type 0
  IsPromoted job = (job.status ≡ ready) × (job.scheduled_at ≤ now)

  abbrev pub WritesOnly : Database → ℕ → Outcome (List Job × Database) → Type 0
  WritesOnly db n (ok (jobs, db')) =
      (length jobs ≤ n)
      × All IsPromoted jobs
      × (db' ≡ record db { jobs = save_all job_key jobs db.jobs })
  WritesOnly db n (err e) = ⊥

  add_one :
      (db : Database) (n : ℕ) (job : Job)
      → IsPromoted job
      → (o : Outcome (List Job × Database)) → WritesOnly (save_job job db) n o
      → WritesOnly db (suc n) (after_promotion (λ _. o) db (ok (job, save_job job db)))
  unfolding save_all
  add_one db n job p (ok (jobs, db')) (short, all, wrote) = (ground arith, (p, all), wrote)
  add_one db n job p (err e) w = absurd w

  more :
      (db : Database) (n : ℕ) (o : Outcome (List Job × Database))
      → WritesOnly db n o
      → WritesOnly db (suc n) o
  more db n (ok (jobs, db')) (short, all, wrote) = (ground arith, all, wrote)
  more db n (err e) w = w

  promote_step :
      (db : Database) (job : Job) (n : ℕ) (rest : Database → Outcome (List Job × Database))
      → ((db' : Database) → WritesOnly db' n (rest db'))
      → (o : Outcome (Job × Database)) → PromoteAnswer job.id now db o
      → WritesOnly db (suc n) (after_promotion rest db o)
  promote_step db job n rest IH (ok (job', db')) (found, is, is_ready, same, wrote) = rw wrote (
      add_one db n job' (rw same (refl, is_ready.is_due)) (rest (save_job job' db))
        (IH (save_job job' db)))
  promote_step db job n rest IH (err (resolution e)) a = more db n (rest db) (IH db)
  promote_step db job n rest IH (err e) a = absurd a

  promote_each-WritesOnly :
      (jobs : List Job) (db : Database) → WritesOnly db (length jobs) (promote_each now jobs db)
  unfolding promote_each save_all
  promote_each-WritesOnly [] db = (ground arith, tt, refl)
  promote_each-WritesOnly (job ∷ jobs) db =
      promote_step db job (length jobs) (promote_each now jobs) (promote_each-WritesOnly jobs)
        (promote_pending_to_ready job.id now db)
        (promote_pending_to_ready-PromoteAnswer job.id now db)

  widen :
      (db : Database) (n m : ℕ) (o : Outcome (List Job × Database))
      → n ≤ m
      → WritesOnly db n o
      → WritesOnly db m o
  widen db n m (ok (jobs, db')) le (short, all, wrote) = (ground arith, all, wrote)
  widen db n m (err e) le w = w

  -- A promotion pass never raises: what `promote_pending_to_ready` refuses is passed over. It
  -- promotes at most `limit` jobs, all of them due, and writes nothing but these rows, as READY.
  pub promote_due_jobs-WritesOnly :
      (limit : ℕ) (db : Database) → WritesOnly db limit (promote_due_jobs now limit db)
  unfolding promote_due_jobs
  promote_due_jobs-WritesOnly limit db = widen db _ limit _ (length-take-le limit _) (
      promote_each-WritesOnly
        (take limit (order_by (λ j. j.scheduled_at) (select (is_due now) db.jobs))) db)
