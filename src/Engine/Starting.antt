-- ===== src/Engine/Starting.antt =====
-- The entry jobs of a new workflow.
use money_machine.Base.{
  ℕ, String, ◌≡◌, refl, inl, inr, false, none, some, List, [], ◌∷◌, arith, exists, get,
  HasUniqueKeys, Option-cases, Bool-cases, subst,
}
use money_machine.Domain.{ProductLifecycleState}
use money_machine.Errors.{ok, value_error, require, >>=-eq-ok, require-eq-ok, Outcome-cases}
use money_machine.Tables.{Job, WorkflowRun, Database, job_key, get_workflow}
use money_machine.Scheduler.{has_job_key}
use money_machine.Engine.{entry_job, entry_jobs, spawn_entry_jobs, start_workflow}
use money_machine.Engine.Specs.{
  JobSpec, WorkflowSpec, find_workflow, find_spec, is_same_job, insert_jobs, new_workflow,
}

-- no two jobs have the same idempotency key
abbrev pub HasUniqueJobKeys : List Job → Type 0
HasUniqueJobKeys [] = Unit
HasUniqueJobKeys (job ∷ jobs) =
    (exists (has_job_key job.idempotency_key) jobs ≡ false) × HasUniqueJobKeys jobs

-- `news` in front of the table, the first of them deepest
abbrev pub inserted : List Job → List Job → List Job
inserted [] jobs = jobs
inserted (new ∷ news) jobs = inserted news (new ∷ jobs)

fresh_keys :
    (new : Job) (jobs : List Job)
    → exists (is_same_job new) jobs ≡ false
    → (get job_key new.id jobs ≡ none) × (exists (has_job_key new.idempotency_key) jobs ≡ false)
unfolding exists get
fresh_keys new [] h = (refl, refl)
fresh_keys new (job ∷ jobs) h = ground (arith, fresh_keys new jobs)

insert_jobs_unique :
    (news jobs jobs' : List Job)
    → insert_jobs news jobs ≡ ok jobs'
    → (jobs' ≡ inserted news jobs)
      × (HasUniqueKeys job_key jobs → HasUniqueKeys job_key jobs')
      × (HasUniqueJobKeys jobs → HasUniqueJobKeys jobs')
unfolding insert_jobs
insert_jobs_unique [] jobs jobs' h = (ground arith, ground arith, ground arith)
insert_jobs_unique (new ∷ news) jobs jobs' h = elim (Bool-cases (exists (is_same_job new) jobs)) [
  | inl clash ↦ absurd (ground arith)
  | inr fresh ↦
      let (same, ids, keys) = insert_jobs_unique news (new ∷ jobs) jobs' (rw fresh at h) in
      let absent = fresh_keys new jobs fresh in
      (same, (λ u. ids (absent.0, u)), (λ u. keys (absent.1, u)))
]

module _ (derive_id : ℕ → String → ℕ) (uuid_text : ℕ → String) where
  -- The jobs of a list of types, one for one, each as its spec in the configuration says.
  abbrev pub AreEntryJobs : ℕ → ℕ → List JobSpec → List String → List Job → Type 0
  AreEntryJobs workflow_id now specs [] [] = Unit
  AreEntryJobs workflow_id now specs (t ∷ ts) (job ∷ jobs) =
      ((spec : JobSpec) × (find_spec t specs ≡ some spec)
        × (job ≡ entry_job derive_id uuid_text workflow_id now spec t))
      × AreEntryJobs workflow_id now specs ts jobs
  AreEntryJobs workflow_id now specs _ _ = ⊥

  entry_jobs-AreEntryJobs :
      (workflow_id now : ℕ) (specs : List JobSpec) (ts : List String) (jobs : List Job)
      → entry_jobs derive_id uuid_text workflow_id now specs ts ≡ ok jobs
      → AreEntryJobs workflow_id now specs ts jobs
  unfolding entry_jobs
  entry_jobs-AreEntryJobs workflow_id now specs [] jobs h =
      let none_left : [] ≡ jobs = ground arith in
      subst (AreEntryJobs workflow_id now specs []) none_left tt
  entry_jobs-AreEntryJobs workflow_id now specs (t ∷ ts) jobs h =
      let (spec, e1, h1) = >>=-eq-ok (require (find_spec t specs) value_error) _ h in
      let (rest, e2, h2) =
        >>=-eq-ok (entry_jobs derive_id uuid_text workflow_id now specs ts) _ h1 in
      let parts : (entry_job derive_id uuid_text workflow_id now spec t ∷ rest) ≡ jobs = cc h2 in
      subst (AreEntryJobs workflow_id now specs (t ∷ ts)) parts (
        (spec, require-eq-ok _ _ e1, refl),
        entry_jobs-AreEntryJobs workflow_id now specs ts rest e2,
      )

  module _ (workflows : List WorkflowSpec) (id : ℕ) (workflow_type : String) (types : List String)
      (now : ℕ) (db db' : Database) where
    Spawned : Type 0
    Spawned =
        (spec : WorkflowSpec) × (news : List Job) × (find_workflow workflow_type workflows
          ≡ some spec)
        × (entry_jobs derive_id uuid_text id now spec.jobs types ≡ ok news)
        × (insert_jobs news db.jobs ≡ ok db'.jobs)
        × (db'.workflows ≡ db.workflows)

    spawn_entry_jobs-Spawned :
        spawn_entry_jobs derive_id uuid_text workflows id workflow_type types now db ≡ ok db'
        → Spawned
    unfolding spawn_entry_jobs Spawned
    spawn_entry_jobs-Spawned h = elim (Option-cases (find_workflow workflow_type workflows)) [
      | inl missing ↦ absurd (ground arith)
      | inr (spec, known) ↦
          elim (Outcome-cases (entry_jobs derive_id uuid_text id now spec.jobs types)) [
            | inr (e, fails) ↦ absurd (ground arith)
            | inl (news, made) ↦ elim (Outcome-cases (insert_jobs news db.jobs)) [
              | inr (e, fails) ↦ absurd (ground arith)
              | inl (jobs, put) ↦
                  let wrote : db' ≡ record db { jobs = jobs } = ground arith in
                  (spec, news, known, made, rw wrote put, rw wrote refl)
            ]
          ]
    ]

  -- A workflow that has started is open, and one new job stands for each entry type of its
  -- configuration: PENDING, due at once, with no attempt spent, and with the owner and the classes of
  -- its spec. The jobs of before are kept behind them, and UUIDs and idempotency keys stay unique.
  pub start_workflow-Started :
      (workflows : List WorkflowSpec) (id : ℕ) (workflow_type : String)
      (state : ProductLifecycleState) (shop_id now : ℕ) (db db' : Database) (workflow : WorkflowRun)
      → start_workflow derive_id uuid_text workflows id workflow_type state shop_id now db
        ≡ ok (workflow, db')
      → (spec : WorkflowSpec) × (news : List Job) × (find_workflow workflow_type workflows
          ≡ some spec)
        × (get_workflow id db' ≡ some workflow)
        × (workflow.completed_at ≡ none)
        × AreEntryJobs id now spec.jobs spec.entry_job_types news
        × (db'.jobs ≡ inserted news db.jobs)
        × (HasUniqueKeys job_key db.jobs → HasUniqueKeys job_key db'.jobs)
        × (HasUniqueJobKeys db.jobs → HasUniqueJobKeys db'.jobs)
  unfolding start_workflow get
  start_workflow-Started workflows id workflow_type state shop_id now db db' workflow h =
      elim (Option-cases (find_workflow workflow_type workflows)) [
        | inl missing ↦ absurd (ground arith)
        | inr (spec, known) ↦
            let started = record db {
              workflows = new_workflow id workflow_type state shop_id now ∷ db.workflows;
            } in
            elim (Outcome-cases (
              spawn_entry_jobs derive_id uuid_text workflows id workflow_type spec.entry_job_types
                now started)) [
                  | inr (e, fails) ↦ absurd (ground arith)
                  | inl (db1, ran) ↦
                      let same : db1 ≡ db' = ground arith in
                      let is : new_workflow id workflow_type state shop_id now ≡ workflow =
                        ground arith in
                      let spawned : spawn_entry_jobs derive_id uuid_text workflows id workflow_type
                            spec.entry_job_types now started
                          ≡ ok db' =
                        rw same at ran in
                      unfold Spawned in
                      let (spec', news, known', made, put, kept) =
                        spawn_entry_jobs-Spawned workflows id workflow_type spec.entry_job_types now
                          started db' spawned in
                      let one : spec' ≡ spec = cc (known, known') in
                      let entries =
                        entry_jobs-AreEntryJobs id now spec'.jobs spec.entry_job_types news made in
                      let (wrote, ids, keys) = insert_jobs_unique news db.jobs db'.jobs put in
                      (
                        spec,
                        news,
                        known,
                        rw (kept, ← is) (ground arith),
                        rw (← is) refl,
                        rw one at entries,
                        wrote,
                        ids,
                        keys,
                      )
                ]
      ]
