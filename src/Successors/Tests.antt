-- ===== src/Successors/Tests.antt =====
-- A winner and its successor.
use money_machine.Engine.Specs.{insert_jobs}
use money_machine.Guard.{require_successor_spawn, require_product_transition}
use money_machine.Base.{refl, [], ◌∷◌, get, save}
use money_machine.Samples.{sample_decision, sample_derivation, winning, multiplied}
use money_machine.Successors.{
  create_multiply_successor, spawn_from, create_successor_workflow, create_successor_entry_job,
}
use money_machine.Successors.Multiply.{Spawned, multiply-Spawned}

multiply-Spawned_example :
    Spawned sample_derivation sample_decision 30 31 winning multiplied (77 ∷ [])
unfolding create_multiply_successor get spawn_from require_successor_spawn
    require_product_transition create_successor_workflow save create_successor_entry_job insert_jobs
multiply-Spawned_example =
    multiply-Spawned sample_derivation sample_decision 30 31 winning multiplied (77 ∷ []) refl refl
