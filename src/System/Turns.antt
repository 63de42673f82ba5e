-- ===== src/System/Turns.antt =====
-- A turn of src/money_machine/orchestration/worker.py keeps all jobs sound, unless the job's agent has no
-- implementation: that end leaves a FAILED job with its lease.
use money_machine.Base.{
  ℕ, String, ◌<◌, ◌≡◌, refl, ap, ◌∙◌, Bool, true, false, Option, none, some, List, [], ◌∷◌, arith,
  All, All-get, save, ◌==◌, Bool-cases, inl, inr, subst, sym, exists,
}
use text.Mathlib.TextPositions.{eq_refl}
use money_machine.Domain.{AgentRunStatus, EventName}
use money_machine.Domain.JobStatus.{running, failed}
use money_machine.Errors.{ok, Outcome-cases, ◌>>=◌}
use money_machine.Guard.{require_job_transition}
use money_machine.Tables.{Job, Database, job_key, get_job, save_job, minutes}
use money_machine.Leases.{claimed, claim_ready_job, release_lease, is_owner}
use money_machine.Leases.Claim.{ClaimAnswer, claim_ready_job-ClaimAnswer}
use money_machine.Leases.Holding.{get_job-save_job_self}
use money_machine.Dependencies.{with_status}
use money_machine.Successors.Config.{WorkflowsConfig, Derivation}
use money_machine.Worker.{
  Run, no_implementation, not_commissioned, failed_to_run, finished, after_run, execute_claimed,
  work_once,
}
use money_machine.Worker.Turns.{Dispatched, all_sent, sent, Left, after_run-Left, found_claimed}
use money_machine.System.{IsSound, AllSound}
use money_machine.System.Rows.{unleased-IsSound, running_left}
use money_machine.System.Batches.{SoundIfOk}
use money_machine.System.Writes.{
  SoundIfDone, claim_ready_job-AllSound, heartbeat-AllSound, release_lease-AllSound,
}
use money_machine.System.Adds.{dispatch-AllSound}

-- The agent of the job has an implementation, and its run writes no job.
abbrev pub IsOrderly : Database → Run → Type 0
IsOrderly db no_implementation = ⊥
IsOrderly db (finished s events after_it) = after_it.jobs ≡ db.jobs
IsOrderly db _ = Unit

-- a row that is written twice
save_twice :
    (P : Job → Type 0) (row first : Job) (jobs : List Job)
    → row.id ≡ first.id
    → P row
    → All P jobs
    → All P (save job_key row (save job_key first jobs))
unfolding save
save_twice P row first [] same p h = tt
save_twice P row first (j ∷ jobs) same p h =
    let rest = save_twice P row first jobs same p h.1 in
    elim (Bool-cases (j.id == first.id)) [
      | inl here ↦
          let again : (first.id == row.id) ≡ true = ground arith in rw (here, again) (p, rest)
      | inr other ↦
          let other' : (j.id == row.id) ≡ false = ground arith in rw (other, other') (h.0, rest)
    ]

module _ (config : WorkflowsConfig) (derive : Derivation) (worker_id : String) (now : ℕ) where
  Dispatched-AllSound :
      (job : Job) {events : List EventName} {db db' : Database}
      → Dispatched config derive worker_id now job events db db'
      → AllSound db
      → AllSound db'
  Dispatched-AllSound job all_sent s = s
  Dispatched-AllSound job (sent {event_name} {db = db} ids goes rest) s =
      Dispatched-AllSound job rest (
        subst SoundIfOk goes (
          dispatch-AllSound config derive event_name "Job" job.id (some job.workflow_id)
            (some job.id) now db s))

  Left-AllSound :
      (before db : Database) (job : Job) (s : AgentRunStatus) (events : List EventName)
      (after_it : Database) (answer : Option AgentRunStatus × Database)
      → AllSound before
      → AllSound db
      → after_it.jobs ≡ db.jobs
      → Left config derive worker_id now before job (finished s events after_it) answer
      → AllSound answer.1
  Left-AllSound before db job s events after_it (status, db') sb sd same
        (inl (none_is, back, why)) =
      subst AllSound (sym back) sb
  Left-AllSound before db job s events after_it (status, db') sb sd same
        (inr (is, (db1, db2, final, beats, stands, released, each))) =
      let s0 : AllSound after_it = subst (All IsSound) (sym same) sd in
      let s1 : AllSound db1 =
        subst SoundIfDone beats (heartbeat-AllSound job.id worker_id now after_it s0 none) in
      let s2 : AllSound db2 =
        subst SoundIfDone released (release_lease-AllSound job.id worker_id now db1 s1 final) in
      Dispatched-AllSound job each s2

  -- A job whose agent is not commissioned is released in the row that is FAILED already.
  not_commissioned-AllSound :
      (before db : Database) (job : Job)
      → AllSound db
      → get_job job.id db ≡ some job
      → is_owner job.lease_owner worker_id ≡ true
      → job.status ≡ running
      → SoundIfOk (after_run config derive job worker_id now before db not_commissioned)
  unfolding after_run release_lease exists require_job_transition
  not_commissioned-AllSound before db job s found mine runs =
      let marked = with_status failed now job in
      let there : get_job job.id (save_job marked db) ≡ some marked =
        get_job-save_job_self job.id db job marked found refl in
      let is = All-get job_key IsSound job.id db.jobs found s in
      let left : job.attempt < job.max_attempts = running_left job now is (ground arith) in
      let free = unleased-IsSound job now is failed refl left in
      rw (there, mine) (save_twice IsSound _ marked db.jobs refl free s)

module _ (config : WorkflowsConfig) (derive : Derivation) (locked : ℕ → Bool) (worker_id : String)
    (now : ℕ) (before : Database) (s : AllSound before) where
  turn_sound :
      (run : Run) (db : Database) (job : Job) (answer : Option AgentRunStatus × Database)
      → AllSound db
      → get_job job.id db ≡ some job
      → is_owner job.lease_owner worker_id ≡ true
      → job.status ≡ running
      → IsOrderly db run
      → after_run config derive job worker_id now before db run ≡ ok answer
      → Left config derive worker_id now before job run answer
      → AllSound answer.1
  turn_sound no_implementation db job answer sd found mine runs orderly h left = absurd orderly
  turn_sound not_commissioned db job answer sd found mine runs orderly h left =
      subst SoundIfOk h
        (not_commissioned-AllSound config derive worker_id now before db job sd found mine runs)
  turn_sound failed_to_run db job answer sd found mine runs orderly h left =
      subst AllSound (sym left.1) s
  turn_sound (finished status events after_it) db job answer sd found mine runs orderly h left =
      Left-AllSound config derive worker_id now before db job status events after_it answer s sd
        orderly left

  executed_sound :
      (run : Job → Database → Run) (claim : Option Job × Database)
      (answer : Option AgentRunStatus × Database)
      → ((job : Job) (db : Database) → claim ≡ (some job, db) → IsOrderly db (run job db))
      → ClaimAnswer locked worker_id now (minutes 5) before (ok claim)
      → AllSound claim.1
      → execute_claimed config derive run worker_id now before claim ≡ ok answer
      → AllSound answer.1
  unfolding claimed
  executed_sound run (none, db) answer orderly is sd h = subst SoundIfOk h sd
  executed_sound run (some job, db) answer orderly (ready, m, due, first, made, wrote) sd h =
      let same : job.id ≡ ready.id = rw made refl in
      let found : get_job job.id db ≡ some job =
        subst (λ d. get_job job.id d ≡ some job) (sym wrote)
          (found_claimed before ready job m same) in
      let mine : is_owner job.lease_owner worker_id ≡ true = rw made (eq_refl worker_id) in
      let runs : job.status ≡ running = rw made refl in
      let (other, run_is, left) =
        after_run-Left config derive worker_id now before job db found mine (run job db) in
      let agree : other ≡ answer = cc in
      let left' = subst (Left config derive worker_id now before job (run job db)) agree left in
      turn_sound (run job db) db job answer sd found mine runs (orderly job db refl) h left'

  -- A turn of the worker keeps all jobs sound where the agent of the job that it claims has an
  -- implementation whose run writes no job.
  pub work_once-AllSound :
      (run : Job → Database → Run) (answer : Option AgentRunStatus × Database)
      → ((job : Job) (db : Database)
          → claim_ready_job locked worker_id now (minutes 5) before ≡ ok (some job, db)
          → IsOrderly db (run job db))
      → work_once config derive locked run worker_id now before ≡ ok answer
      → AllSound answer.1
  unfolding work_once
  work_once-AllSound run answer orderly h =
      let is = claim_ready_job-ClaimAnswer locked worker_id now (minutes 5) before in
      let sd = claim_ready_job-AllSound locked worker_id now (minutes 5) before s in
      elim (Outcome-cases (claim_ready_job locked worker_id now (minutes 5) before)) [
        | inl (claim, took) ↦
            executed_sound run claim answer (λ job db same. orderly job db (took ∙ ap ok same))
              (subst (ClaimAnswer locked worker_id now (minutes 5) before) took is)
              (subst SoundIfOk took sd)
              (subst
                (λ o. (o >>= execute_claimed config derive run worker_id now before) ≡ ok answer)
                took h)
        | inr (e, fails) ↦
            absurd (subst (ClaimAnswer locked worker_id now (minutes 5) before) fails is)
      ]
