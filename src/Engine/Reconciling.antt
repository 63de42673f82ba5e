-- ===== src/Engine/Reconciling.antt =====
-- The operator's answer about an uncertain effect.
use money_machine.Base.{
  ℕ, ◌≤◌, String, ◌≡◌, ◌≢◌, refl, List, [], ◌∷◌, All, ◌==◌, if◌then◌else◌, ◌⊎◌, inl, inr, true,
  false, Option, none, some, Memᴰ, arith, select, mem-select, get, save, get-save, key-get, get-mem,
  Latest, latest-Latest, Option-cases, Bool-cases, subst,
}
use money_machine.Domain.{EffectState, JobStatus, is_status}
use money_machine.Domain.JobStatus.{uncertain_external_effect, succeeded, failed}
use money_machine.Domain.EffectState.{confirmed, absent, unknown}
use money_machine.Errors.{Outcome, ok, err, integrity_error, engine, engine_failed, job_not_found}
use money_machine.Guard.{require_job_transition}
use money_machine.Tables.{Job, EffectAttempt, Database, job_key, effect_key, get_job}
use money_machine.Idempotency.{attempt_number, has_evidence}
use money_machine.Engine.{
  is_effect_of, latest_effect_of, is_conclusive, reconciled_status, reconcile_uncertain_effect,
}

latest_effect_of-Latest :
    (job_id : ℕ) (db : Database) (effect : EffectAttempt)
    → latest_effect_of job_id db ≡ some effect
    → Latest attempt_number (select (is_effect_of job_id) db.effects) (some effect)
unfolding latest_effect_of
latest_effect_of-Latest job_id db effect h =
    subst (Latest attempt_number (select (is_effect_of job_id) db.effects)) h
      (latest-Latest attempt_number (select (is_effect_of job_id) db.effects))

latest_effect_of-mem :
    (job_id : ℕ) (db : Database) (effect : EffectAttempt)
    → latest_effect_of job_id db ≡ some effect
    → Memᴰ effect db.effects
latest_effect_of-mem job_id db effect h =
    (mem-select (is_effect_of job_id) db.effects (latest_effect_of-Latest job_id db effect h).0).0

-- a bound on the selected attempts is one on those of the job
bound_selected :
    (job_id bound : ℕ) (es : List EffectAttempt)
    → All (λ e. e.reconciliation_attempt ≤ bound) (select (is_effect_of job_id) es)
    → All (λ e. e.job_id ≡ job_id → e.reconciliation_attempt ≤ bound) es
unfolding select
bound_selected job_id bound [] h = tt
bound_selected job_id bound (e ∷ es) h = elim (Bool-cases (e.job_id == job_id)) [
  | inl mine ↦
      let both =
        subst
          (λ b.
            All (λ e. e.reconciliation_attempt ≤ bound)
              (if b then e ∷ select (is_effect_of job_id) es else select (is_effect_of job_id) es))
          mine h in
      ((λ same. both.0), bound_selected job_id bound es both.1)
  | inr other ↦
      let rest =
        subst
          (λ b.
            All (λ e. e.reconciliation_attempt ≤ bound)
              (if b then e ∷ select (is_effect_of job_id) es else select (is_effect_of job_id) es))
          other h in
      ((λ same. absurd (ground arith)), bound_selected job_id bound es rest)
]

saved_effect :
    (job_id : ℕ) (db : Database) (effect effect' : EffectAttempt)
    → latest_effect_of job_id db ≡ some effect
    → effect'.id ≡ effect.id
    → get effect_key effect.id (save effect_key effect' db.effects) ≡ some effect'
saved_effect job_id db effect effect' h same =
    let there = get-mem effect_key effect db.effects (latest_effect_of-mem job_id db effect h) in
    ground (arith, get-save effect_key effect.id effect' db.effects)

saved_job :
    (job_id : ℕ) (db : Database) (job job' : Job)
    → get_job job_id db ≡ some job
    → job'.id ≡ job.id
    → get job_key job_id (save job_key job' db.jobs) ≡ some job'
saved_job job_id db job job' found same =
    ground (arith, get-save job_key job_id job' db.jobs, key-get job_key job_id db.jobs found)

none_selected :
    (job_id : ℕ) (es : List EffectAttempt)
    → select (is_effect_of job_id) es ≡ []
    → All (λ e. e.job_id ≢ job_id) es
unfolding select
none_selected job_id [] h = tt
none_selected job_id (e ∷ es) h = ((λ mine. ground arith), none_selected job_id es (ground arith))

EffectState-cases : (s : EffectState) → (s ≡ confirmed) ⊎ ((s ≡ absent) ⊎ (s ≡ unknown))
EffectState-cases confirmed = inl refl
EffectState-cases absent = inr (inl refl)
EffectState-cases unknown = inr (inr refl)

module _ (job_id : ℕ) (state : EffectState) (object_id : Option String) (now : ℕ)
    (db : Database) where
  -- the status that an answer stands for
  abbrev pub Stands : EffectState → JobStatus → Type 0
  Stands confirmed status = status ≡ succeeded
  Stands absent status = status ≡ failed
  Stands unknown status = ⊥

  -- the effect is one of the job's with the highest attempt number
  abbrev pub IsLatest : EffectAttempt → Type 0
  IsLatest effect =
      Memᴰ effect db.effects
      × (effect.job_id ≡ job_id)
      × All (λ e. e.job_id ≡ job_id → e.reconciliation_attempt ≤ effect.reconciliation_attempt)
          db.effects

  abbrev pub ReconcileAnswer : Outcome (EffectAttempt × Database) → Type 0
  ReconcileAnswer (ok (effect', db')) =
      (job : Job) × (effect : EffectAttempt) × (status : JobStatus) × (get_job job_id db ≡ some job)
      × (job.status ≡ uncertain_external_effect)
      × IsLatest effect
      × (effect' ≡ record effect {
        effect_state = state;
        provider_object_id = object_id;
        observed_at = now;
      })
      × Stands state status
      × (get effect_key effect.id db'.effects ≡ some effect')
      × (get_job job_id db' ≡ some (record job { status = status; updated_at = now }))
      × (db'.jobs ≡ save job_key (record job { status = status; updated_at = now }) db.jobs)
  ReconcileAnswer (err (engine job_not_found)) = get_job job_id db ≡ none
  ReconcileAnswer (err (engine engine_failed)) =
      (state ≡ unknown)
      ⊎ ((job : Job) × (get_job job_id db ≡ some job)
          × ((job.status ≢ uncertain_external_effect) ⊎ All (λ e. e.job_id ≢ job_id) db.effects))
  ReconcileAnswer (err integrity_error) =
      ((state ≡ confirmed) × (object_id ≡ none)) ⊎ ((state ≡ absent) × (object_id ≢ none))
  ReconcileAnswer (err _) = ⊥

  latest_effect_of-IsLatest :
      (effect : EffectAttempt) → latest_effect_of job_id db ≡ some effect → IsLatest effect
  latest_effect_of-IsLatest effect h =
      let latest_is = latest_effect_of-Latest job_id db effect h in
      let (there, mine) = mem-select (is_effect_of job_id) db.effects latest_is.0 in
      (
        there,
        ground arith,
        bound_selected job_id effect.reconciliation_attempt db.effects latest_is.1,
      )

  no_effects : latest_effect_of job_id db ≡ none → All (λ e. e.job_id ≢ job_id) db.effects
  unfolding latest_effect_of
  no_effects h = none_selected job_id db.effects (
      subst (Latest attempt_number (select (is_effect_of job_id) db.effects)) h
        (latest-Latest attempt_number (select (is_effect_of job_id) db.effects)))

  lacking_lem :
      has_evidence state object_id ≡ false
      → ((state ≡ confirmed) × (object_id ≡ none)) ⊎ ((state ≡ absent) × (object_id ≢ none))
  lacking_lem h = elim (EffectState-cases state) [
    | inl is ↦ inl (is, ground arith)
    | inr (inl is) ↦ inr (is, (λ missing. ground arith))
    | inr (inr is) ↦ absurd (ground arith)
  ]

  reconciled_status-Stands : is_conclusive state ≡ true → Stands state (reconciled_status state)
  reconciled_status-Stands sure = elim (EffectState-cases state) [
    | inl is ↦ rw is refl
    | inr (inl is) ↦ rw is refl
    | inr (inr is) ↦ absurd (ground arith)
  ]

  with_effect_found :
      (job : Job) (effect : EffectAttempt)
      → get_job job_id db ≡ some job
      → is_conclusive state ≡ true
      → job.status ≡ uncertain_external_effect
      → latest_effect_of job_id db ≡ some effect
      → ReconcileAnswer (reconcile_uncertain_effect job_id state object_id now db)
  unfolding reconcile_uncertain_effect
  with_effect_found job effect found sure uncertain latest_is =
      let moves : require_job_transition uncertain_external_effect (reconciled_status state)
          ≡ ok tt =
        unfold require_job_transition in ground arith in
      elim (Bool-cases (has_evidence state object_id)) [
        | inr lacking ↦ rw (sure, found, uncertain, latest_is, moves, lacking) (lacking_lem lacking)
        | inl evidence ↦
            rw (sure, found, uncertain, latest_is, moves, evidence)
              (
                job,
                effect,
                reconciled_status state,
                found,
                uncertain,
                latest_effect_of-IsLatest effect latest_is,
                refl,
                reconciled_status-Stands sure,
                saved_effect job_id db effect _ latest_is refl,
                saved_job job_id db job _ found refl,
                refl,
              )
      ]

  -- An operator's CONFIRMED or ABSENT is written over the latest effect attempt of an uncertain job,
  -- which then is SUCCEEDED or, for ABSENT, FAILED. JobNotFoundError is raised for a missing job;
  -- EngineError for another state, for a job that is not uncertain and for one without an effect attempt; and
  -- IntegrityError for a CONFIRMED without an object id and an ABSENT with one. Nothing else is raised.
  pub reconcile_uncertain_effect-ReconcileAnswer :
      ReconcileAnswer (reconcile_uncertain_effect job_id state object_id now db)
  unfolding reconcile_uncertain_effect
  reconcile_uncertain_effect-ReconcileAnswer = elim (Bool-cases (is_conclusive state)) [
    | inr unsure ↦ rw unsure (inl (ground arith))
    | inl sure ↦ elim (Option-cases (get_job job_id db)) [
      | inl missing ↦ rw (sure, missing) missing
      | inr (job, found) ↦ elim (Bool-cases (is_status job.status uncertain_external_effect)) [
        | inr other ↦ rw (sure, found, other) (inr (job, found, inl (λ is. ground arith)))
        | inl uncertain ↦ elim (Option-cases (latest_effect_of job_id db)) [
          | inl no_effect ↦
              rw (sure, found, uncertain, no_effect) (inr (job, found, inr (no_effects no_effect)))
          | inr (effect, latest_is) ↦
              with_effect_found job effect found sure (ground arith) latest_is
        ]
      ]
    ]
  ]

settled :
    (job_id : ℕ) (state state' : EffectState) (object_id' : Option String) (later now : ℕ)
    (db : Database) (job : Job) (status : JobStatus)
    → Stands job_id state none now db state status
    → get_job job_id db ≡ some (record job { status = status; updated_at = now })
    → reconcile_uncertain_effect job_id state' object_id' later db ≡ err (engine engine_failed)
unfolding reconcile_uncertain_effect
settled job_id confirmed state' object_id' later now db job status stands found = ground arith
settled job_id absent state' object_id' later now db job status stands found = ground arith
settled job_id unknown state' object_id' later now db job status stands found = absurd stands

-- An effect is reconciled by the operator once: after an answer that was accepted, every further answer
-- for the job is refused with EngineError.
pub reconciled_once :
    (job_id : ℕ) (state state' : EffectState) (object_id object_id' : Option String) (now later : ℕ)
    (db db' : Database) (effect : EffectAttempt)
    → reconcile_uncertain_effect job_id state object_id now db ≡ ok (effect, db')
    → reconcile_uncertain_effect job_id state' object_id' later db' ≡ err (engine engine_failed)
reconciled_once job_id state state' object_id object_id' now later db db' effect h =
    let (job, was, status, _, _, _, _, stands, _, found, _) =
      subst (ReconcileAnswer job_id state object_id now db) h
        (reconcile_uncertain_effect-ReconcileAnswer job_id state object_id now db) in
    settled job_id state state' object_id' later now db' job status stands found
