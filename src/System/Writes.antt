-- ===== src/System/Writes.antt =====
-- The operations that write one job, or the jobs of one workflow, keep all jobs sound.
use money_machine.Base.{
  ℕ, String, ◌≡◌, refl, false, Bool, Option, none, some, map, arith, All-select, select-All,
  All-save_all, All-save, All-get, All-mem, select, exists, save, save_all, Option-cases,
  Bool-cases, inl, inr, subst,
}
use money_machine.Domain.{JobStatus, is_status, EffectState}
use money_machine.Domain.JobStatus.{blocked, cancelled, running}
use money_machine.Domain.EffectState.{confirmed, absent, unknown}
use money_machine.Errors.{Outcome, ok, err}
use money_machine.Guard.{require_job_transition}
use money_machine.Tables.{
  Job, WorkflowRun, EffectAttempt, Database, job_key, workflow_key, get_job, save_job, get_workflow,
}
use money_machine.Leases.{
  is_claimable, claim_ready_job, is_owner, is_past, heartbeat, legal_release_statuses,
  release_lease,
}
use money_machine.Leases.Claim.{ClaimAnswer, claim_ready_job-ClaimAnswer}
use money_machine.Dependencies.{with_status, is_dependent, propagate_dependency_failure}
use money_machine.Dependencies.Propagation.{block_each-map}
use money_machine.Reconciliation.{Reconciler, ReconciliationResult, apply_reconciliation_result}
use money_machine.Reconciliation
use money_machine.Reconciliation.Outcomes.{
  reconcile-Reconciled, apply_stays, apply_moves, next_status-cases,
}
use money_machine.Idempotency.Ledger.{record-with_effect}
use money_machine.Engine.{
  is_cancellable, cancel_each, completed, cancel_workflow, retry_failed_job,
  reconcile_uncertain_effect,
}
use money_machine.Engine.Cancelling.{cancel_each-map}
use money_machine.Engine.Reconciling.{
  Stands, ReconcileAnswer, reconcile_uncertain_effect-ReconcileAnswer,
}
use money_machine.Engine.Retrying.{RetryAnswer, retry_failed_job-RetryAnswer}
use money_machine.System.{IsSound, AllSound}
use money_machine.System.Rows.{
  claimed-IsSound, owner_running, running_left, renewed-IsSound, unleased-IsSound,
  with_status-IsSound, retried-IsSound,
}
use money_machine.System.Batches.{SoundIfOk, changed}

-- a call that answers the database alone
abbrev pub SoundIfDone : Outcome Database → Type 0
SoundIfDone (ok db') = AllSound db'
SoundIfDone (err e) = Unit

module _ (locked : ℕ → Bool) (worker_id : String) (now duration : ℕ) (db : Database)
    (s : AllSound db) where
  claim_sound :
      (o : Outcome (Option Job × Database))
      → ClaimAnswer locked worker_id now duration db o
      → SoundIfOk o
  unfolding is_claimable
  claim_sound (ok (none, db')) (_, wrote) = rw wrote s
  claim_sound (ok (some job', db')) (job, m, p, _, made, wrote) =
      let is = All-mem IsSound db.jobs m s in
      let taken : IsSound job' =
        rw made (claimed-IsSound job now is worker_id duration (ground arith)) in
      rw wrote (All-save job_key IsSound job' db.jobs taken s)
  claim_sound (err e) a = tt

  pub claim_ready_job-AllSound : SoundIfOk (claim_ready_job locked worker_id now duration db)
  claim_ready_job-AllSound =
      claim_sound _ (claim_ready_job-ClaimAnswer locked worker_id now duration db)

module _ (job_id : ℕ) (worker_id : String) (now : ℕ) (db : Database) (s : AllSound db) where
  pub heartbeat-AllSound :
      (extension : Option ℕ) → SoundIfDone (heartbeat job_id worker_id now extension db)
  unfolding heartbeat
  heartbeat-AllSound extension = elim (Option-cases (get_job job_id db)) [
    | inl missing ↦ rw missing tt
    | inr (job, found) ↦ elim (Bool-cases (is_owner job.lease_owner worker_id)) [
      | inr foreign ↦ rw (found, foreign) tt
      | inl mine ↦
          let is = All-get job_key IsSound job_id db.jobs found s in
          let kept =
            All-save job_key IsSound _ db.jobs (renewed-IsSound job now is worker_id extension mine)
              s in
          elim (Bool-cases (is_past job.lease_expires_at now)) [
            | inl past ↦ rw (found, mine, past) tt
            | inr alive ↦ rw (found, mine, alive) kept
          ]
    ]
  ]

  pub release_lease-AllSound :
      (status : JobStatus) → SoundIfDone (release_lease job_id worker_id now status db)
  unfolding release_lease require_job_transition
  release_lease-AllSound status =
      elim (Bool-cases (exists (is_status status) legal_release_statuses)) [
        | inr illegal ↦ rw illegal tt
        | inl legal ↦ elim (Option-cases (get_job job_id db)) [
          | inl missing ↦ rw (legal, missing) tt
          | inr (job, found) ↦ elim (Bool-cases (is_owner job.lease_owner worker_id)) [
            | inr foreign ↦ rw (legal, found, foreign) tt
            | inl mine ↦
                let is = All-get job_key IsSound job_id db.jobs found s in
                let more =
                  running_left job now is
                    (ground (arith, owner_running job now is worker_id mine)) in
                rw (legal, found, mine)
                  (All-save job_key IsSound _ db.jobs
                    (unleased-IsSound job now is status (ground arith) more) s)
          ]
        ]
      ]

module _ (job_id now : ℕ) (db : Database) (s : AllSound db) where
  retry_sound : (o : Outcome (Job × Database)) → RetryAnswer job_id now db o → SoundIfOk o
  retry_sound (ok (job', db')) (job, found, may, made, wrote, _) =
      let is = All-get job_key IsSound job_id db.jobs found s in
      let moved : IsSound job' = rw made (retried-IsSound job now is _ may.0 may.1) in
      rw wrote (All-save job_key IsSound job' db.jobs moved s)
  retry_sound (err e) a = tt

  pub retry_failed_job-AllSound : SoundIfOk (retry_failed_job job_id now db)
  retry_failed_job-AllSound = retry_sound _ (retry_failed_job-RetryAnswer job_id now db)

  pub propagate-AllSound : SoundIfOk (propagate_dependency_failure job_id now db)
  unfolding propagate_dependency_failure is_dependent
  propagate-AllSound = rw (block_each-map now (select (is_dependent job_id db) db.jobs)) (
      All-save_all job_key IsSound _ db.jobs
        (changed (with_status blocked now) (is_dependent job_id db) _
          (λ job p is.
            with_status-IsSound job now is blocked (ground arith) refl
              (λ _. is.left (λ e. ground arith) (λ e. ground arith)))
          (select-All (is_dependent job_id db) db.jobs)
          (All-select IsSound (is_dependent job_id db) db.jobs s))
        s)

  cancelled_end :
      (answer : WorkflowRun × ℕ × Database)
      → cancel_workflow job_id now db ≡ ok answer
      → (w : WorkflowRun) → get_workflow job_id db ≡ some w
      → cancel_each now (select (is_cancellable job_id) db.jobs)
        ≡ ok (map (with_status cancelled now) (select (is_cancellable job_id) db.jobs))
      → record db {
        workflows = save workflow_key (completed now w) db.workflows;
        jobs =
            save_all job_key
              (map (with_status cancelled now) (select (is_cancellable job_id) db.jobs))
              db.jobs;
      }
        ≡ answer.2
  unfolding cancel_workflow
  cancelled_end answer h w found each = ground arith

  pub cancel_workflow-AllSound :
      (answer : WorkflowRun × ℕ × Database)
      → cancel_workflow job_id now db ≡ ok answer
      → AllSound answer.2
  unfolding cancel_workflow is_cancellable
  cancel_workflow-AllSound answer h = elim (Option-cases (get_workflow job_id db)) [
    | inl missing ↦ absurd (ground arith)
    | inr (w, found) ↦
        let rows = select-All (is_cancellable job_id) db.jobs in
        let all =
          All-save_all job_key IsSound _ db.jobs
            (changed (with_status cancelled now) (is_cancellable job_id) _
              (λ job p is.
                with_status-IsSound job now is cancelled (ground arith) refl
                  (λ _. is.left (λ e. ground arith) (λ e. ground arith)))
              rows (All-select IsSound (is_cancellable job_id) db.jobs s))
            s in
        subst AllSound (cancelled_end answer h w found (cancel_each-map job_id now _ rows)) all
  ]

  Stands-waits :
      (state : EffectState) (object_id : Option String) (status : JobStatus)
      → Stands job_id state object_id now db state status
      → is_status status running ≡ false
  Stands-waits confirmed object_id status stands = ground arith
  Stands-waits absent object_id status stands = ground arith
  Stands-waits unknown object_id status stands = absurd stands

  operator_sound :
      (state : EffectState) (object_id : Option String) (o : Outcome (EffectAttempt × Database))
      → ReconcileAnswer job_id state object_id now db o
      → SoundIfOk o
  operator_sound state object_id (ok (effect, db'))
        (job, was, status, found, uncertain, _, _, stands, _, _, jobs) =
      let is = All-get job_key IsSound job_id db.jobs found s in
      let moved =
        with_status-IsSound job now is status (ground arith)
          (Stands-waits state object_id status stands)
          (λ _. is.left (λ e. ground arith) (λ e. ground arith)) in
      rw jobs (All-save job_key IsSound _ db.jobs moved s)
  operator_sound state object_id (err e) a = tt

  pub operator-AllSound :
      (state : EffectState) (object_id : Option String)
      → SoundIfOk (reconcile_uncertain_effect job_id state object_id now db)
  operator-AllSound state object_id =
      operator_sound state object_id _
        (reconcile_uncertain_effect-ReconcileAnswer job_id state object_id now db)

-- A conclusion that is applied in the transaction that reached it keeps all jobs sound.
pub conclusion_sound :
    (id : ℕ) (reconciler : Reconciler) (job_id max_attempts now later : ℕ) (db db1 db2 : Database)
    (result : ReconciliationResult)
    → AllSound db
    → Reconciliation.reconcile_uncertain_effect id reconciler job_id max_attempts now db
      ≡ ok (result, db1)
    → apply_reconciliation_result job_id result later db1 ≡ ok db2
    → AllSound db2
conclusion_sound id reconciler job_id max_attempts now later db db1 db2 result s h k =
    let r = reconcile-Reconciled id reconciler job_id max_attempts now db result db1 h in
    let wrote = record-with_effect _ db db1 r.recorded in
    let s1 : AllSound db1 = rw wrote s in
    let found' : get_job job_id db1 ≡ some r.job = rw wrote r.found in
    let is = All-get job_key IsSound job_id db.jobs r.found s in
    elim (next_status-cases result.effect_state result.reconciliation_attempt max_attempts) [
      | inl still ↦
          let stays =
            apply_stays job_id result later db1 r.job found' r.uncertain
              (ground (arith, r.concluded)) in
          let same : db1 ≡ db2 = cc (stays, k) in subst AllSound same s1
      | inr ends ↦
          let moves =
            apply_moves job_id result later db1 r.job found' r.uncertain
              (ground (arith, r.concluded)) in
          let same : save_job (with_status result.next_job_status later r.job) db1 ≡ db2 =
            cc (moves, k) in
          let moved =
            with_status-IsSound r.job later is result.next_job_status (ground (arith, r.uncertain))
              (ground (arith, r.concluded))
              (λ _.
                is.left (λ e. ground (arith, r.uncertain)) (λ e. ground (arith, r.uncertain))) in
          subst AllSound same (All-save job_key IsSound _ db1.jobs moved s1)
    ]
