-- ===== src/Engine/Tests.antt =====
-- The operator's commands on small tables.
use money_machine.Guard.{require_job_transition}
use money_machine.Base.{◌+◌, ◌≡◌, refl, none, [], ◌∷◌, get, save}
use money_machine.Domain.JobStatus.{pending, failed, uncertain_external_effect}
use money_machine.Domain.EffectState.{unknown, absent}
use money_machine.Errors.{ok}
use money_machine.Tables.{Job, Database, save_job, seconds}
use money_machine.Samples.{sample_job, sample_db, sample_effect}
use money_machine.Retry.{default_backoff, calculate_backoff, evaluate_retry}
use money_machine.Leases.{claimed, unleased}
use money_machine.Engine.{retried, retry_failed_job, cancel_workflow, reconcile_uncertain_effect}
use money_machine.Engine.Retrying.{RetryAnswer, retry_failed_job-RetryAnswer, retry_is_repeatable}
use money_machine.Engine.Cancelling.{CancelAnswer, cancel_workflow-CancelAnswer}
use money_machine.Engine.Reconciling.{ReconcileAnswer, reconcile_uncertain_effect-ReconcileAnswer}

abbrev failing : Database
failing = sample_db (sample_job 1 failed ∷ sample_job 2 pending ∷ [])

retry_failed_job-RetryAnswer_example : RetryAnswer 1 20 failing (retry_failed_job 1 20 failing)
retry_failed_job-RetryAnswer_example = retry_failed_job-RetryAnswer 1 20 failing

-- two seconds later
abbrev again : Job
again = retried 2000020 20 (sample_job 1 failed)

abbrev fails_again : Job
fails_again = unleased 40 failed (claimed "w" 20 300 again)

retry_is_repeatable_example :
    (job : Job) × (db : Database) × (retry_failed_job 1 40 (save_job fails_again failing)
      ≡ ok (job, db))
    × (job.attempt ≡ 0)
    × (job.scheduled_at ≡ 40 + seconds (calculate_backoff 0 default_backoff))
unfolding retry_failed_job get evaluate_retry require_job_transition calculate_backoff save claimed
retry_is_repeatable_example =
    retry_is_repeatable 1 20 40 failing (save_job again failing) (save_job fails_again failing)
      again "w" 300 refl refl refl

cancel_workflow-CancelAnswer_example : CancelAnswer 1 20 failing (cancel_workflow 1 20 failing)
unfolding get
cancel_workflow-CancelAnswer_example = cancel_workflow-CancelAnswer 1 20 failing (refl, (refl, tt))

abbrev uncertain : Database
uncertain = record (sample_db (sample_job 1 uncertain_external_effect ∷ [])) {
  effects = sample_effect 1 unknown 1 ∷ [];
}

reconcile_uncertain_effect-ReconcileAnswer_example :
    ReconcileAnswer 1 absent none 20 uncertain
      (reconcile_uncertain_effect 1 absent none 20 uncertain)
reconcile_uncertain_effect-ReconcileAnswer_example =
    reconcile_uncertain_effect-ReconcileAnswer 1 absent none 20 uncertain
