-- ===== src/Successors/Config.antt =====
-- src/money_machine/orchestration/successor_factory.py: the configuration, the search for a job's
-- specification in it, and the derived UUIDs.
use money_machine.Base.{ℕ, String, Option, none, some, List, [], ◌∷◌, str_eq, if◌then◌else◌}
use money_machine.Domain.{EventName}
use money_machine.Engine.Specs.{JobSpec, WorkflowSpec}

-- `WorkflowsConfig`: the successors of an event, where the map has the event, and the workflows
pub record WorkflowsConfig : Type 0 where
  pub event_successor_map : EventName → Option (List String)
  pub workflows : List WorkflowSpec

-- the derived UUIDs, and the text of one
pub record Derivation : Type 0 where
  pub product_job_id : ℕ → String → ℕ
  pub successor_job_id : ℕ → Option ℕ → String → ℕ
  pub entry_job_id : ℕ → ℕ → String → ℕ
  pub uuid_text : ℕ → String

unfoldable pub spec_in : String → List JobSpec → Option JobSpec
spec_in job_type [] = none
spec_in job_type (spec ∷ specs) =
    if str_eq spec.job_type job_type then some spec else spec_in job_type specs

abbrev pub or_else : Option JobSpec → Option JobSpec → Option JobSpec
or_else (some spec) later = some spec
or_else none later = later

-- the first spec of a type, over all the workflows
unfoldable pub find_job_def : String → List WorkflowSpec → Option JobSpec
find_job_def job_type [] = none
find_job_def job_type (w ∷ ws) = or_else (spec_in job_type w.jobs) (find_job_def job_type ws)
