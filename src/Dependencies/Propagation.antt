-- ===== src/Dependencies/Propagation.antt =====
-- What a predecessor's end does to the jobs that wait for it.
use money_machine.Base.{
  ℕ, ◌≡◌, refl, true, false, some, List, [], ◌∷◌, map, arith, All, select, HasUniqueKeys,
  save_all-select, ap, Bool-cases, inl, inr, ◌==◌, if◌then◌else◌,
}
use money_machine.Domain.JobStatus.{blocked, succeeded}
use money_machine.Errors.{ok}
use money_machine.Guard.{require_job_transition}
use money_machine.Tables.{Job, JobDependency, Database, job_key, get_job}
use money_machine.Dependencies.{
  is_open_dependency, with_status, is_dependent, block_each, propagate_dependency_failure, satisfy,
  satisfy_dependency,
}

pub block_each-map :
    (now : ℕ) (jobs : List Job) → block_each now jobs ≡ ok (map (with_status blocked now) jobs)
unfolding block_each require_job_transition
block_each-map now [] = refl
block_each-map now (job ∷ jobs) = rw (block_each-map now jobs)

map-job_key :
    (now : ℕ) (jobs : List Job)
    → map job_key (map (with_status blocked now) jobs) ≡ map job_key jobs
map-job_key now [] = refl
map-job_key now (job ∷ jobs) = ap (◌∷◌ job.id) (map-job_key now jobs)

-- Where no two jobs share an id, propagation never raises: it BLOCKs every PENDING job that depends
-- on the failed one, leaves every other job as it was, and answers the ids of the blocked jobs.
pub propagate_blocks_dependents :
    (failed_job_id now : ℕ) (db : Database)
    → HasUniqueKeys job_key db.jobs
    → propagate_dependency_failure failed_job_id now db
      ≡ ok (
        map job_key (select (is_dependent failed_job_id db) db.jobs),
        record db {
          jobs =
              map
                (λ job.
                  if is_dependent failed_job_id db job then with_status blocked now job else job)
                db.jobs;
        },
      )
unfolding propagate_dependency_failure
propagate_blocks_dependents failed_job_id now db unique = rw (
  block_each-map now (select (is_dependent failed_job_id db) db.jobs),
  map-job_key now (select (is_dependent failed_job_id db) db.jobs),
  save_all-select job_key (is_dependent failed_job_id db) (with_status blocked now) (λ job. refl)
      db.jobs unique,
)

settled_row :
    (succeeded_job_id now : ℕ) (db : Database) (job_id : ℕ) (job : Job)
    → get_job succeeded_job_id db ≡ some job
    → job.status ≡ succeeded
    → (d : JobDependency) → (d.depends_on_job_id == succeeded_job_id) ≡ true
    → is_open_dependency db job_id (satisfy succeeded_job_id now d) ≡ false
settled_row succeeded_job_id now db job_id job found done d on =
    let at : d.depends_on_job_id ≡ succeeded_job_id = ground arith in
    let there : get_job d.depends_on_job_id db ≡ some job = rw at found in ground arith

settled :
    (succeeded_job_id now : ℕ) (db : Database) (job_id : ℕ) (job : Job)
    → get_job succeeded_job_id db ≡ some job
    → job.status ≡ succeeded
    → (rows : List JobDependency)
    → All
        (λ d. is_open_dependency db job_id d ≡ false)
        (select
          (λ d. d.depends_on_job_id == succeeded_job_id)
          (map (satisfy succeeded_job_id now) rows))
unfolding select
settled succeeded_job_id now db job_id job found done [] = tt
settled succeeded_job_id now db job_id job found done (d ∷ rows) =
    let rest = settled succeeded_job_id now db job_id job found done rows in
    elim (Bool-cases (d.depends_on_job_id == succeeded_job_id)) [
      | inl on ↦
          let e : ((satisfy succeeded_job_id now d).depends_on_job_id == succeeded_job_id) ≡ true =
            ground arith in
          rw e (settled_row succeeded_job_id now db job_id job found done d on, rest)
      | inr off ↦
          let e : ((satisfy succeeded_job_id now d).depends_on_job_id == succeeded_job_id) ≡ false =
            ground arith in
          rw e rest
    ]

module _ (succeeded_job_id now : ℕ) (db : Database) where
  abbrev pub after : Database
  after = (satisfy_dependency succeeded_job_id now db).1

  -- After a job that SUCCEEDED has been recorded, no dependency on it holds any job back.
  pub satisfied_dependencies_settle :
      (job_id : ℕ) (job : Job)
      → get_job succeeded_job_id db ≡ some job
      → job.status ≡ succeeded
      → All
          (λ d. is_open_dependency after job_id d ≡ false)
          (select (λ d. d.depends_on_job_id == succeeded_job_id) after.dependencies)
  unfolding satisfy_dependency
  satisfied_dependencies_settle job_id job found done =
      settled succeeded_job_id now after job_id job found done db.dependencies
