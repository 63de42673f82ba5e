-- ===== src/Dependencies/Readiness.antt =====
-- A job is promoted exactly when it is ready, as the module's documentation defines it.
use money_machine.Base.{
  ℕ, ◌≤◌, ◌≡◌, ◌↔◌, String, List, [], ◌∷◌, All, exists, str_eq-eq, ◌==◌, refl, ◌≢◌, ◌⊎◌, inl, inr,
  true, false, not, none, some, arith, str_eq, Option-cases, Bool-cases, ltb, eq_iff, ◌&&◌,
}
use money_machine.Domain.{is_status}
use money_machine.Domain.JobStatus.{pending, ready, succeeded}
use money_machine.Domain.ProductLifecycleState.{rejected, deactivated}
use money_machine.Errors.{Outcome, ok, err, resolution}
use money_machine.Guard.{require_job_transition}
use money_machine.Tables.{
  Job, JobDependency, IdempotencyRecord, WorkflowRun, Database, get_job, get_workflow, save_job,
}
use money_machine.Dependencies.{
  Reason, is_open_dependency, is_reserved_by_other, check_dependencies_satisfied,
  check_workflow_active, check_idempotency_collision, check_product_lifecycle_valid, evaluate_row,
  evaluate_job_readiness, with_status, promote_pending_to_ready,
}

-- A dependency of the job has been satisfied, by a predecessor that SUCCEEDED where its row is there.
abbrev pub IsSettled : Database → ℕ → JobDependency → Type 0
IsSettled db job_id d =
    d.job_id ≡ job_id
    → (d.satisfied_at ≢ none)
      × ((predecessor : Job)
          → get_job d.depends_on_job_id db ≡ some predecessor
          → predecessor.status ≡ succeeded)

-- A reservation of the key is the job's own.
abbrev pub IsOwnKey : ℕ → String → IdempotencyRecord → Type 0
IsOwnKey job_id key r = r.idempotency_key ≡ key → r.job_id ≡ job_id

module _ (db : Database) (job_id : ℕ) where
  open_dependency-IsSettled :
      (d : JobDependency) → is_open_dependency db job_id d ≡ false → IsSettled db job_id d
  open_dependency-IsSettled d h mine = ((λ e. ground arith), (λ predecessor found. ground arith))

  IsSettled-open_dependency :
      (d : JobDependency) → IsSettled db job_id d → is_open_dependency db job_id d ≡ false
  IsSettled-open_dependency d h = elim (Bool-cases (d.job_id == job_id)) [
    | inr other ↦ ground arith
    | inl mine ↦
        let (satisfied, done) = h (ground arith) in
        elim (Option-cases d.satisfied_at) [
          | inl missing ↦ absurd (satisfied missing)
          | inr (t, at) ↦ elim (Option-cases (get_job d.depends_on_job_id db)) [
            | inl gone ↦ ground arith
            | inr (predecessor, found) ↦ let succeeded_is = done predecessor found in ground arith
          ]
        ]
  ]

  settled :
      (ds : List JobDependency)
      → exists (is_open_dependency db job_id) ds ≡ false
      → All (IsSettled db job_id) ds
  unfolding exists
  settled [] h = tt
  settled (d ∷ ds) h = (open_dependency-IsSettled d (ground arith), settled ds (ground arith))

  none_open :
      (ds : List JobDependency)
      → All (IsSettled db job_id) ds
      → exists (is_open_dependency db job_id) ds ≡ false
  unfolding exists
  none_open [] h = refl
  none_open (d ∷ ds) (h, hs) = ground (arith, IsSettled-open_dependency d h, none_open ds hs)

module _ (job_id : ℕ) (key : String) where
  own_keys :
      (rows : List IdempotencyRecord)
      → exists (is_reserved_by_other job_id key) rows ≡ false
      → All (IsOwnKey job_id key) rows
  unfolding exists
  own_keys [] h = tt
  own_keys (r ∷ rows) h =
      ((λ same. ground (arith, eq_iff r.idempotency_key key)), own_keys rows (ground arith))

  no_other :
      (rows : List IdempotencyRecord)
      → All (IsOwnKey job_id key) rows
      → exists (is_reserved_by_other job_id key) rows ≡ false
  unfolding exists
  no_other [] h = refl
  no_other (r ∷ rows) (h, hs) = elim (Bool-cases (str_eq r.idempotency_key key)) [
    | inr other ↦ ground (arith, no_other rows hs)
    | inl same ↦
        let mine = h (str_eq-eq r.idempotency_key key same) in ground (arith, no_other rows hs)
  ]

pub record IsReady (db : Database) (job : Job) (now : ℕ) : Type 0 where
  pub is_pending : job.status ≡ pending
  pub is_due : job.scheduled_at ≤ now
  pub dependencies_settled : All (IsSettled db job.id) db.dependencies
  pub workflow_open :
      (workflow : WorkflowRun) × (get_workflow job.workflow_id db ≡ some workflow)
      × (workflow.completed_at ≡ none)
      × (workflow.product_state ≢ rejected)
      × (workflow.product_state ≢ deactivated)
  pub key_free :
      (job.idempotency_key ≡ "") ⊎ All (IsOwnKey job.id job.idempotency_key) db.reservations

module _ (db : Database) (job : Job) (now : ℕ) where
  dependencies_lem :
      (check_dependencies_satisfied job.id db ≡ true) ↔ All (IsSettled db job.id) db.dependencies
  unfolding check_dependencies_satisfied
  dependencies_lem = (
    (λ h. settled db job.id db.dependencies (ground arith)),
    (λ h. ground (arith, none_open db job.id db.dependencies h)),
  )

  key_lem :
      (check_idempotency_collision job.id job.idempotency_key db ≡ false)
      ↔ All (IsOwnKey job.id job.idempotency_key) db.reservations
  unfolding check_idempotency_collision
  key_lem = (
    own_keys job.id job.idempotency_key db.reservations,
    no_other job.id job.idempotency_key db.reservations,
  )

  evaluate_row-IsReady : evaluate_row job now db ≡ none → IsReady db job now
  unfolding evaluate_row check_workflow_active check_product_lifecycle_valid
  evaluate_row-IsReady h = record {
    is_pending = ground arith;
    is_due = ground arith;
    dependencies_settled = dependencies_lem.0 (ground arith);
    workflow_open = ground arith;
    key_free = elim (Bool-cases (str_eq job.idempotency_key "")) [
      | inl empty ↦ inl (str_eq-eq job.idempotency_key "" empty)
      | inr named ↦ inr (key_lem.0 (ground arith))
    ];
  }

  IsReady-workflow :
      IsReady db job now
      → (check_workflow_active job.workflow_id db ≡ true)
        × (check_product_lifecycle_valid job.workflow_id db ≡ true)
  unfolding check_workflow_active check_product_lifecycle_valid
  IsReady-workflow h = let opened = h.workflow_open in ground arith

  IsReady-key :
      IsReady db job now
      → (not (str_eq job.idempotency_key "")
          && check_idempotency_collision job.id job.idempotency_key db)
        ≡ false
  IsReady-key h = elim h.key_free [
    | inl empty ↦ ground (arith, eq_iff job.idempotency_key "")
    | inr own ↦ ground (arith, key_lem.1 own)
  ]

  IsReady-evaluate_row : IsReady db job now → evaluate_row job now db ≡ none
  unfolding evaluate_row
  IsReady-evaluate_row h =
      rw
        (
          h.is_pending,
          lt-false h,
          dependencies_lem.1 h.dependencies_settled,
          (IsReady-workflow h).0,
          (IsReady-workflow h).1,
          IsReady-key h,
        )
        refl
    where
      lt-false : IsReady db job now → ltb now job.scheduled_at ≡ false
      lt-false h = let due = h.is_due in ground arith

module _ (job_id now : ℕ) (db : Database) where
  abbrev pub PromoteAnswer : Outcome (Job × Database) → Type 0
  PromoteAnswer (ok (job', db')) =
      (job : Job) × (get_job job_id db ≡ some job)
      × IsReady db job now
      × (job' ≡ with_status ready now job)
      × (db' ≡ save_job job' db)
  PromoteAnswer (err (resolution e)) =
      (get_job job_id db ≡ none)
      ⊎ ((job : Job) × (get_job job_id db ≡ some job) × ¬ IsReady db job now)
  PromoteAnswer (err _) = ⊥

  readiness_found :
      (job : Job)
      → get_job job_id db ≡ some job
      → evaluate_job_readiness job_id now db ≡ evaluate_row job now db
  unfolding evaluate_job_readiness
  readiness_found job found = rw (found, evaluate_job_readiness)

  promote_ready :
      (job : Job)
      → get_job job_id db ≡ some job
      → evaluate_row job now db ≡ none
      → PromoteAnswer (promote_pending_to_ready job_id now db)
  unfolding promote_pending_to_ready require_job_transition
  promote_ready job found e =
      let h = evaluate_row-IsReady db job now e in
      let waits : is_status job.status pending ≡ true = ground arith in
      rw (found, waits, readiness_found job found, e) (job, found, h, refl, refl)

  promote_refused :
      (job : Job) (reason : Reason)
      → get_job job_id db ≡ some job
      → evaluate_row job now db ≡ some reason
      → PromoteAnswer (promote_pending_to_ready job_id now db)
  unfolding promote_pending_to_ready
  promote_refused job reason found e =
      let not_ready : ¬ IsReady db job now = λ h. cc (e, IsReady-evaluate_row db job now h) in
      elim (Bool-cases (is_status job.status pending)) [
        | inl waits ↦ rw (found, waits, readiness_found job found, e) (inr (job, found, not_ready))
        | inr other ↦ rw (found, other) (inr (job, found, not_ready))
      ]

  pub promote_pending_to_ready-PromoteAnswer :
      PromoteAnswer (promote_pending_to_ready job_id now db)
  unfolding promote_pending_to_ready
  promote_pending_to_ready-PromoteAnswer = elim (Option-cases (get_job job_id db)) [
    | inl missing ↦ rw missing (inl missing)
    | inr (job, found) ↦ elim (Option-cases (evaluate_row job now db)) [
      | inl ready_now ↦ promote_ready job found ready_now
      | inr (reason, why) ↦ promote_refused job reason found why
    ]
  ]
