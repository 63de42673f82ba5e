-- ===== src/Dependencies/Tests.antt =====
-- A job that waits for another.
use money_machine.Base.{ℕ, Option, [], ◌∷◌}
use money_machine.Domain.{JobStatus}
use money_machine.Domain.JobStatus.{pending}
use money_machine.Tables.{Database}
use money_machine.Samples.{sample_job, sample_db}

-- job 2 waits for job 1
abbrev waiting : JobStatus → Option ℕ → Database
waiting status satisfied_at = record (sample_db (sample_job 1 status ∷ sample_job 2 pending ∷ [])) {
  dependencies = record { job_id = 2; depends_on_job_id = 1; satisfied_at = satisfied_at } ∷ [];
}
