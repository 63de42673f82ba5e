-- ===== src/Leases/Claim.antt =====
-- What a claim takes: the earliest due job, once.
use money_machine.Base.{
  ℕ, ◌≤◌, String, ◌≡◌, refl, ◌≢◌, Bool, true, Option, none, some, List, [], ◌∷◌, Memᴰ, arith, All,
  All-mem, select, mem-select, First, order_by-First, save-saved, save, subst,
}
use money_machine.Errors.{Outcome, ok, err}
use money_machine.Guard.{require_job_transition}
use money_machine.Tables.{Job, Database, job_key, save_job}
use money_machine.Leases.{is_claimable, claimed, claim_first, claim_ready_job}

module _ (locked : ℕ → Bool) (worker_id : String) (now lease_duration : ℕ) (db : Database) where
  abbrev claimable : List Job
  claimable = select (is_claimable locked now) db.jobs

  -- What a claim may answer: nothing, from an unchanged database with no claimable job; or one
  -- claimable job of the table, scheduled no later than any other, in its claimed form, which is
  -- written back and is the only change. It never raises.
  abbrev pub ClaimAnswer : Outcome (Option Job × Database) → Type 0
  ClaimAnswer (ok (none, db')) = (claimable ≡ []) × (db' ≡ db)
  ClaimAnswer (ok (some job', db')) =
      (job : Job) × Memᴰ job db.jobs
      × (is_claimable locked now job ≡ true)
      × All (λ other. job.scheduled_at ≤ other.scheduled_at) claimable
      × (job' ≡ claimed worker_id now lease_duration job)
      × (db' ≡ save_job job' db)
  ClaimAnswer (err e) = ⊥

  claim_first-ClaimAnswer :
      (sorted : List Job)
      → First (λ j. j.scheduled_at) claimable sorted
      → ClaimAnswer (claim_first worker_id now lease_duration db sorted)
  unfolding claim_first require_job_transition
  claim_first-ClaimAnswer [] h = (h, refl)
  claim_first-ClaimAnswer (job ∷ rest) h =
      let (m, due) = mem-select (is_claimable locked now) db.jobs h.0 in
      (job, m, due, h.1, refl, refl)

  -- A claim never raises. It answers nothing, and changes nothing, exactly when no due READY job is
  -- unlocked; otherwise it takes a due, unlocked READY job of the table that is scheduled no later
  -- than any other such job, and its one change is to make that job RUNNING under the worker's
  -- lease.
  pub claim_ready_job-ClaimAnswer :
      ClaimAnswer (claim_ready_job locked worker_id now lease_duration db)
  unfolding claim_ready_job
  claim_ready_job-ClaimAnswer =
      claim_first-ClaimAnswer _ (order_by-First (λ j. j.scheduled_at) claimable)

-- the answer of a claim that has taken a job
claim_taken :
    (locked : ℕ → Bool) (worker_id : String) (now lease_duration : ℕ) (db : Database)
    {db' : Database} {job : Job}
    → claim_ready_job locked worker_id now lease_duration db ≡ ok (some job, db')
    → ClaimAnswer locked worker_id now lease_duration db (ok (some job, db'))
claim_taken locked worker_id now lease_duration db h =
    subst (ClaimAnswer locked worker_id now lease_duration db) h
      (claim_ready_job-ClaimAnswer locked worker_id now lease_duration db)

-- A job that one worker has claimed is not claimed again from the database that this leaves,
-- whoever claims, when, and with what locks.
pub claimed_once :
    (locked locked' : ℕ → Bool) (worker_id worker_id' : String) (now now' duration duration' : ℕ)
    (db db₁ db₂ : Database) (first second : Job)
    → claim_ready_job locked worker_id now duration db ≡ ok (some first, db₁)
    → claim_ready_job locked' worker_id' now' duration' db₁ ≡ ok (some second, db₂)
    → second.id ≢ first.id
unfolding claimed is_claimable
claimed_once locked locked' worker_id worker_id' now now' duration duration' db db₁ db₂ first second
      h k same =
    let (job, _, _, _, made, wrote) = claim_taken locked worker_id now duration db h in
    let (job₂, m, due, _, made₂, _) = claim_taken locked' worker_id' now' duration' db₁ k in
    let m' : Memᴰ job₂ (save job_key first db.jobs) = subst (λ d. Memᴰ job₂ d.jobs) wrote m in
    let again : job₂ ≡ first = All-mem _ _ m' (save-saved job_key first db.jobs) (ground arith) in
    ground arith
