-- ===== src/Engine/Cancelling.antt =====
-- What the cancellation of a workflow does to its jobs.
use money_machine.Base.{
  ℕ, ◌≡◌, refl, ap, ◌∙◌, inl, inr, true, none, some, List, [], ◌∷◌, map, arith, All, length, select,
  select-All, length-map, get, save, get-save, key-get, HasUniqueKeys, change, save_all-select,
  Option-cases, subst,
}
use money_machine.Domain.JobStatus.{cancelled}
use money_machine.Errors.{Outcome, ok, err, engine, workflow_not_found, resolution, ResolutionError}
use money_machine.Guard.{require_job_transition}
use money_machine.Tables.{Job, WorkflowRun, Database, job_key, workflow_key, get_job, get_workflow}
use money_machine.Dependencies.{with_status, promote_pending_to_ready}
use money_machine.Dependencies.Readiness.{PromoteAnswer, promote_pending_to_ready-PromoteAnswer}
use money_machine.Engine.{is_cancellable, cancel_each, completed, cancel_workflow}

cancel_one :
    (workflow_id : ℕ) (job : Job)
    → is_cancellable workflow_id job ≡ true
    → require_job_transition job.status cancelled ≡ ok tt
unfolding is_cancellable require_job_transition
cancel_one workflow_id job h = ground arith

pub cancel_each-map :
    (workflow_id now : ℕ) (jobs : List Job)
    → All (λ job. is_cancellable workflow_id job ≡ true) jobs
    → cancel_each now jobs ≡ ok (map (with_status cancelled now) jobs)
unfolding cancel_each
cancel_each-map workflow_id now [] h = refl
cancel_each-map workflow_id now (job ∷ jobs) h =
    rw (cancel_one workflow_id job h.0, cancel_each-map workflow_id now jobs h.1)

module _ (workflow_id now : ℕ) (db : Database) where
  -- the jobs after the call, row by row
  abbrev pub cancelled_jobs : List Job
  cancelled_jobs =
      map (change job_key (is_cancellable workflow_id) (with_status cancelled now) (λ _. refl))
        db.jobs

  abbrev pub CancelAnswer : Outcome (WorkflowRun × ℕ × Database) → Type 0
  CancelAnswer (ok (workflow', count, db')) =
      (workflow : WorkflowRun) × (get_workflow workflow_id db ≡ some workflow)
      × (workflow' ≡ completed now workflow)
      × (count ≡ length (select (is_cancellable workflow_id) db.jobs))
      × (get_workflow workflow_id db' ≡ some workflow')
      × (db'.jobs ≡ cancelled_jobs)
  CancelAnswer (err (engine workflow_not_found)) = get_workflow workflow_id db ≡ none
  CancelAnswer (err _) = ⊥

  found_completed :
      (workflow : WorkflowRun)
      → get_workflow workflow_id db ≡ some workflow
      → get workflow_key workflow_id (save workflow_key (completed now workflow) db.workflows)
        ≡ some (completed now workflow)
  found_completed workflow found = ground (
    arith,
    get-save workflow_key workflow_id (completed now workflow) db.workflows,
    key-get workflow_key workflow_id db.workflows found,
  )

  -- Cancelling a workflow completes it and sets exactly its PENDING and READY jobs to CANCELLED; every
  -- other job stays as it is, and the count is that of the jobs cancelled. WorkflowNotFoundError is
  -- raised where there is no such workflow, and nothing else. The jobs have unique keys.
  pub cancel_workflow-CancelAnswer :
      HasUniqueKeys job_key db.jobs → CancelAnswer (cancel_workflow workflow_id now db)
  unfolding cancel_workflow
  cancel_workflow-CancelAnswer unique = elim (Option-cases (get_workflow workflow_id db)) [
    | inl missing ↦ rw missing missing
    | inr (workflow, found) ↦
        rw
          (
            found,
            cancel_each-map workflow_id now _ (select-All (is_cancellable workflow_id) db.jobs),
          )
          (
            workflow,
            found,
            refl,
            length-map _ (select (is_cancellable workflow_id) db.jobs),
            found_completed workflow found,
            save_all-select job_key (is_cancellable workflow_id) (with_status cancelled now)
                (λ _. refl) db.jobs unique,
          )
  ]

refused :
    (workflow_id job_id now later : ℕ) (db : Database) (w : WorkflowRun) (job : Job)
    → get_workflow workflow_id db ≡ some (completed now w)
    → get_job job_id db ≡ some job
    → job.workflow_id ≡ workflow_id
    → (o : Outcome (Job × Database)) → PromoteAnswer job_id later db o
    → (e : ResolutionError) × (o ≡ err (resolution e))
refused workflow_id job_id now later db w job ended found mine (ok (j, d))
      (job1, found1, may, same, wrote) =
    let (w1, found_w, still_open, _, _) = may.workflow_open in
    let is_job : job1 ≡ job = cc (found, found1) in
    let here : job1.workflow_id ≡ workflow_id = ap (λ (j : Job). j.workflow_id) is_job ∙ mine in
    let at : get_workflow workflow_id db ≡ some w1 = rw here at found_w in
    let was : w1 ≡ completed now w = cc (at, ended) in absurd (ground (arith, still_open, was))
refused workflow_id job_id now later db w job ended found mine (err (resolution e)) a = (e, refl)
refused workflow_id job_id now later db w job ended found mine (err e) a = absurd a

-- After a workflow has been cancelled none of its jobs can be promoted: the attempt is refused with a
-- DependencyResolutionError.
pub cancelled_workflow_promotes_nothing :
    (workflow_id now job_id later : ℕ) (db db' : Database) (workflow' : WorkflowRun) (count : ℕ)
    (job : Job)
    → HasUniqueKeys job_key db.jobs
    → cancel_workflow workflow_id now db ≡ ok (workflow', count, db')
    → get_job job_id db' ≡ some job
    → job.workflow_id ≡ workflow_id
    → (e : ResolutionError) × (promote_pending_to_ready job_id later db' ≡ err (resolution e))
cancelled_workflow_promotes_nothing workflow_id now job_id later db db' workflow' count job unique h
      found mine =
    let (w, was, is, counted, found', jobs) =
      subst (CancelAnswer workflow_id now db) h
        (cancel_workflow-CancelAnswer workflow_id now db unique) in
    refused workflow_id job_id now later db' w job (found' ∙ ap some is) found mine _
      (promote_pending_to_ready-PromoteAnswer job_id later db')
