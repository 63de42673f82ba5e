-- ===== src/System/Tests.antt =====
-- A job that is claimed, and released, from a sound table.
use money_machine.Base.{ℕ, String, none, [], ◌∷◌}
use money_machine.Domain.{EffectState}
use money_machine.Domain.AgentRunStatus.{success}
use money_machine.Worker.{Run, finished}
use money_machine.Domain.JobStatus.{ready, succeeded}
use money_machine.Tables.{Job, Database, save_job}
use money_machine.Samples.{sample_job, sample_db}
use money_machine.Leases.{claimed, unleased}
use money_machine.Reconciliation.{Reconciler}

abbrev provider : Reconciler
provider key operation = (EffectState.unknown, none)

abbrev derive_id : ℕ → String → ℕ
derive_id workflow_id job_type = 88

abbrev at_start : Database
at_start = sample_db (sample_job 1 ready ∷ [])

abbrev mine : Job
mine = claimed "w" 20 300 (sample_job 1 ready)

abbrev claimed_db : Database
claimed_db = save_job mine at_start

-- a turn of the worker that succeeds, and what it leaves
abbrev run : Job → Database → Run
run job db = finished success [] db

abbrev worked_db : Database
worked_db = save_job (unleased 20 succeeded mine) claimed_db
