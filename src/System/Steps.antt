-- ===== src/System/Steps.antt =====
-- The transactions of the library as steps between databases, and what no sequence of them breaks.
use money_machine.Base.{ℕ, String, ◌≡◌, Bool, some, Option, List}
use money_machine.Domain.{JobStatus, AgentRunStatus, EventName, EffectState, ProductLifecycleState}
use money_machine.Errors.{ok}
use money_machine.Tables.{minutes, Job, WorkflowRun, EffectAttempt, Database}
use money_machine.Leases.{claim_ready_job, heartbeat, release_lease, reclaim_expired_leases}
use money_machine.Dependencies.{
  promote_pending_to_ready, propagate_dependency_failure, satisfy_dependency,
}
use money_machine.Reconciliation.{Reconciler, ReconciliationResult, apply_reconciliation_result}
use money_machine.Reconciliation
use money_machine.Scheduler.{CycleCounts, run_scheduler_cycle, schedule_maturity_timer}
use money_machine.Engine.{start_workflow, retry_failed_job, cancel_workflow}
use money_machine.Engine.Specs.{WorkflowSpec}
use money_machine.Engine
use money_machine.Portfolio.{PortfolioDecision}
use money_machine.Successors.Config.{WorkflowsConfig, Derivation}
use money_machine.Dispatcher.{dispatch, dispatch_decision}
use money_machine.Worker.{Run, work_once}
use money_machine.System.Turns.{IsOrderly}

module _ (config : WorkflowsConfig) (derive : Derivation) (derive_id : ℕ → String → ℕ)
    (reconciler : Reconciler) where
  -- One transaction that succeeds. A reconciliation and the application of its result are one. The
  -- worker's turn that finds no implementation of the agent is no step.
  pub data Step (db : Database) : Database → Type 0 where
    claims :
        (locked : ℕ → Bool) (worker_id : String) (now duration : ℕ) {taken : Option Job}
        {db' : Database}
        → claim_ready_job locked worker_id now duration db ≡ ok (taken, db')
        → Step db db'
    beats :
        (job_id : ℕ) (worker_id : String) (now : ℕ) (extension : Option ℕ) {db' : Database}
        → heartbeat job_id worker_id now extension db ≡ ok db'
        → Step db db'
    releases :
        (job_id : ℕ) (worker_id : String) (now : ℕ) (status : JobStatus) {db' : Database}
        → release_lease job_id worker_id now status db ≡ ok db'
        → Step db db'
    reclaims :
        (locked : ℕ → Bool) (now limit : ℕ) {jobs : List Job} {db' : Database}
        → reclaim_expired_leases locked now limit db ≡ ok (jobs, db')
        → Step db db'
    promotes :
        (job_id now : ℕ) {job : Job} {db' : Database}
        → promote_pending_to_ready job_id now db ≡ ok (job, db')
        → Step db db'
    cycles :
        (locked : ℕ → Bool) (now a b c : ℕ) {counts : CycleCounts} {db' : Database}
        → run_scheduler_cycle locked now a b c db ≡ ok (counts, db')
        → Step db db'
    propagates :
        (job_id now : ℕ) {ids : List ℕ} {db' : Database}
        → propagate_dependency_failure job_id now db ≡ ok (ids, db')
        → Step db db'
    satisfies : (job_id now : ℕ) → Step db (satisfy_dependency job_id now db).1
    concludes :
        (id job_id max_attempts now later : ℕ) {result : ReconciliationResult} {db' db'' : Database}
        → Reconciliation.reconcile_uncertain_effect id reconciler job_id max_attempts now db
          ≡ ok (result, db')
        → apply_reconciliation_result job_id result later db' ≡ ok db''
        → Step db db''
    retries :
        (job_id now : ℕ) {job : Job} {db' : Database}
        → retry_failed_job job_id now db ≡ ok (job, db')
        → Step db db'
    cancels :
        (workflow_id now : ℕ) {answer : WorkflowRun × ℕ × Database}
        → cancel_workflow workflow_id now db ≡ ok answer
        → Step db answer.2
    answers :
        (job_id : ℕ) (state : EffectState) (object_id : Option String) (now : ℕ)
        {effect : EffectAttempt} {db' : Database}
        → Engine.reconcile_uncertain_effect job_id state object_id now db ≡ ok (effect, db')
        → Step db db'
    starts :
        (workflows : List WorkflowSpec) (id : ℕ) (kind : String) (state : ProductLifecycleState)
        (shop_id now : ℕ) {w : WorkflowRun} {db' : Database}
        → start_workflow derive_id derive.uuid_text workflows id kind state shop_id now db
          ≡ ok (w, db')
        → Step db db'
    times :
        (id workflow_id date now : ℕ) {job : Option Job} {db' : Database}
        → schedule_maturity_timer derive.uuid_text id workflow_id date now db ≡ ok (job, db')
        → Step db db'
    dispatches :
        (event : EventName) (kind : String) (aggregate_id : ℕ) (workflow_id job_id : Option ℕ)
        (at : ℕ) {ids : List ℕ} {db' : Database}
        → dispatch config derive event kind aggregate_id workflow_id job_id at db ≡ ok (ids, db')
        → Step db db'
    decides :
        (d : PortfolioDecision) (parent_job_id at started_at : ℕ) {ids : List ℕ} {db' : Database}
        → dispatch_decision derive d parent_job_id at started_at db ≡ ok (ids, db')
        → Step db db'
    -- a turn of the worker, where the agent of the claimed job has an implementation and its run
    -- writes no job
    works :
        (locked : ℕ → Bool) (run : Job → Database → Run) (worker_id : String) (now : ℕ)
        {answer : Option AgentRunStatus × Database}
        → ((job : Job) (db' : Database)
            → claim_ready_job locked worker_id now (minutes 5) db ≡ ok (some job, db')
            → IsOrderly db' (run job db'))
        → work_once config derive locked run worker_id now db ≡ ok answer
        → Step db answer.1
    -- reservations, completions, effect attempts, receipts and weekly triggers
    elsewhere : {db' : Database} → db'.jobs ≡ db.jobs → Step db db'

  -- any number of transactions, one after the other
  pub data Reaches (db : Database) : Database → Type 0 where
    here : Reaches db db
    then : {db' db'' : Database} → Reaches db db' → Step db' db'' → Reaches db db''
