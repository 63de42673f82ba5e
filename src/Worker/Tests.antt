-- ===== src/Worker/Tests.antt =====
-- A turn whose agent is not commissioned.
use money_machine.Guard.{require_job_transition}
use money_machine.Base.{◌≡◌, refl, Option, [], ◌∷◌, order_by, select}
use money_machine.Domain.{AgentRunStatus}
use money_machine.Domain.JobStatus.{ready}
use money_machine.Errors.{ok}
use money_machine.Tables.{Job, Database, save_job, minutes}
use money_machine.Samples.{sample_job, sample_db, unlocked, sample_config, sample_derivation}
use money_machine.Leases.{claimed, claim_ready_job}
use money_machine.Worker.{Run, not_commissioned, work_once}
use money_machine.Worker.Turns.{Left, work_once-Left}

abbrev one_ready : Database
one_ready = sample_db (sample_job 1 ready ∷ [])

abbrev mine : Job
mine = claimed "w" 20 (minutes 5) (sample_job 1 ready)

abbrev run : Job → Database → Run
run job db = not_commissioned

work_once-Left_example :
    (answer : Option AgentRunStatus × Database) × (work_once sample_config sample_derivation
        unlocked run "w" 20 one_ready
      ≡ ok answer)
    × Left sample_config sample_derivation "w" 20 one_ready mine not_commissioned answer
unfolding claim_ready_job order_by select require_job_transition
work_once-Left_example =
    work_once-Left sample_config sample_derivation unlocked run "w" 20 one_ready
      (save_job mine one_ready) mine refl
