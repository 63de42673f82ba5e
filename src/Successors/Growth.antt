-- ===== src/Successors/Growth.antt =====
-- The creation of successors only adds jobs.
use money_machine.Base.{
  ℕ, String, ◌≡◌, refl, ◌∙◌, false, Option, none, some, List, [], ◌∷◌, arith, All, exists, get,
  is_none, Option-cases, Bool-cases, inl, inr,
}
use money_machine.Domain.{EventName}
use money_machine.Domain.JobStatus.{pending}
use money_machine.Errors.{Outcome, ok, err, ◌>>=◌}
use money_machine.Tables.{Job, Database, get_job}
use money_machine.Engine.Specs.{JobSpec, insert_jobs, is_same_job}
use money_machine.Successors.{
  successor_job, is_draft_listing, add_job, create_draft_listing, create_successor_job, skips,
  create_each, create_successors,
}
use money_machine.Successors.Config.{WorkflowsConfig, Derivation, find_job_def}

-- a job that has not been run: PENDING, without a lease, and with all of its three attempts
pub record IsNew (job : Job) : Type 0 where
  pub waits : job.status ≡ pending
  pub attempts : job.attempt ≡ 0
  pub budget : job.max_attempts ≡ 3
  pub owner : job.lease_owner ≡ none
  pub expiry : job.lease_expires_at ≡ none
  pub beat : job.heartbeat_at ≡ none

-- The events and the workflows are the same, every job is still found, and what is true of all jobs,
-- and of every new one, is true of all jobs still.
pub record Grows (db db' : Database) : Type 1 where
  pub same_events : db'.events ≡ db.events
  pub same_workflows : db'.workflows ≡ db.workflows
  pub keeps_jobs : (k : ℕ) → is_none (get_job k db) ≡ false → is_none (get_job k db') ≡ false
  pub keeps_all :
      (P : Job → Type 0) → ((job : Job) → IsNew job → P job) → All P db.jobs → All P db'.jobs

pub Grows-refl : (db : Database) → Grows db db
Grows-refl db = record {
  same_events = refl;
  same_workflows = refl;
  keeps_jobs = λ k h. h;
  keeps_all = λ P new all. all;
}

Grows-trans : (a b c : Database) → Grows a b → Grows b c → Grows a c
Grows-trans a b c g h = record {
  same_events = h.same_events ∙ g.same_events;
  same_workflows = h.same_workflows ∙ g.same_workflows;
  keeps_jobs = λ k e. h.keeps_jobs k (g.keeps_jobs k e);
  keeps_all = λ P new all. h.keeps_all P new (g.keeps_all P new all);
}

-- an answer leaves a database that has grown
abbrev pub GrowsIfOk : {A : Type 0} → Database → Outcome (A × Database) → Type 1
GrowsIfOk db (ok (a, db')) = Grows db db'
GrowsIfOk db (err e) = Unit

add_job-Grows : (job : Job) (db : Database) → IsNew job → GrowsIfOk db (add_job job db)
unfolding insert_jobs get
add_job-Grows job db is_new = elim (Bool-cases (exists (is_same_job job) db.jobs)) [
  | inl clash ↦ rw clash tt
  | inr fresh ↦ rw fresh (record {
    same_events = refl;
    same_workflows = refl;
    keeps_jobs = λ k h. ground arith;
    keeps_all = λ P new all. (new job is_new, all);
  })
]

-- one more step after one that has grown
then_grows :
    {A B : Type 0} (db : Database) (o : Outcome (A × Database))
    (next : A → Database → Outcome (B × Database))
    → GrowsIfOk db o
    → ((a : A) (db' : Database) → GrowsIfOk db' (next a db'))
    → GrowsIfOk db (o >>= λ (p : A × Database). next p.0 p.1)
then_grows {B = B} db (ok (a, db')) next g h = after (next a db') (h a db')
  where
    after : (o : Outcome (B × Database)) → GrowsIfOk db' o → GrowsIfOk db o
    after (ok (b, db'')) g' = Grows-trans db db' db'' g g'
    after (err e) g' = tt
then_grows db (err e) next g h = tt

module _ (config : WorkflowsConfig) (derive : Derivation) where
  successor_job-IsNew :
      (id : ℕ) (key : String) (workflow_id at : ℕ) (t : String) (spec : JobSpec)
      → IsNew (successor_job config derive id key workflow_id at t spec)
  successor_job-IsNew id key workflow_id at t spec = record {
    waits = refl;
    attempts = refl;
    budget = refl;
    owner = refl;
    expiry = refl;
    beat = refl;
  }

  create_draft_listing-Grows :
      (workflow_id : ℕ) (aggregate : Option ℕ) (t : String) (at : ℕ) (spec : JobSpec)
      (db : Database)
      → GrowsIfOk db (create_draft_listing config derive workflow_id aggregate t at spec db)
  create_draft_listing-Grows workflow_id none t at spec db = tt
  create_draft_listing-Grows workflow_id (some a) t at spec db =
      elim (Bool-cases (is_none (get_job (derive.product_job_id a t) db))) [
        | inl fresh ↦ rw fresh (add_job-Grows _ db (successor_job-IsNew _ _ workflow_id at t spec))
        | inr there ↦ rw there (Grows-refl db)
      ]

  create_successor_job-Grows :
      (workflow_id : ℕ) (parent aggregate : Option ℕ) (t : String) (at : ℕ) (db : Database)
      → GrowsIfOk db (create_successor_job config derive workflow_id parent aggregate t at db)
  unfolding create_successor_job
  create_successor_job-Grows workflow_id parent aggregate t at db =
      elim (Option-cases (find_job_def t config.workflows)) [
        | inl unknown ↦ rw unknown tt
        | inr (spec, known) ↦ elim (Bool-cases (is_draft_listing t)) [
          | inl draft ↦
              rw (known, draft) (create_draft_listing-Grows workflow_id aggregate t at spec db)
          | inr other ↦
              rw (known, other) (add_job-Grows _ db (successor_job-IsNew _ _ workflow_id at t spec))
        ]
      ]

  create_each-Grows :
      (workflow_id : ℕ) (parent aggregate : Option ℕ) (kind : Option String) (at : ℕ)
      (ts : List String) (db : Database)
      → GrowsIfOk db (create_each config derive workflow_id parent aggregate kind at ts db)
  unfolding create_each
  create_each-Grows workflow_id parent aggregate kind at [] db = Grows-refl db
  create_each-Grows workflow_id parent aggregate kind at (t ∷ ts) db =
      elim (Bool-cases (skips config derive t kind)) [
        | inl left_out ↦ rw left_out (create_each-Grows workflow_id parent aggregate kind at ts db)
        | inr made ↦ rw made (
            then_grows db (create_successor_job config derive workflow_id parent aggregate t at db)
              (λ id db'.
                create_each config derive workflow_id parent aggregate kind at ts db'
                >>= λ (q : List ℕ × Database). ok (id ∷ q.0, q.1))
              (create_successor_job-Grows workflow_id parent aggregate t at db)
              (λ id db'.
                then_grows db'
                  (create_each config derive workflow_id parent aggregate kind at ts db')
                  (λ ids db''. ok (id ∷ ids, db''))
                  (create_each-Grows workflow_id parent aggregate kind at ts db')
                  (λ ids db''. Grows-refl db'')))
      ]

  pub create_successors-Grows :
      (event : EventName) (workflow_id : ℕ) (parent aggregate : Option ℕ) (kind : Option String)
      (at : ℕ) (db : Database)
      → GrowsIfOk db (create_successors config derive event workflow_id parent aggregate kind at db)
  unfolding create_successors
  create_successors-Grows event workflow_id parent aggregate kind at db =
      elim (Option-cases (config.event_successor_map event)) [
        | inl unknown ↦ rw unknown tt
        | inr (ts, known) ↦ rw known (create_each-Grows workflow_id parent aggregate kind at ts db)
      ]
