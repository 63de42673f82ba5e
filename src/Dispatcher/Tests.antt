-- ===== src/Dispatcher/Tests.antt =====
-- Events that are dispatched again.
use money_machine.Guard.{require_successor_spawn, require_product_transition}
use money_machine.Engine.Specs.{insert_jobs}
use money_machine.Base.{◌≡◌, refl, some, [], ◌∷◌, get, save}
use money_machine.Domain.{JobStatus}
use money_machine.Domain.EventName.{build_completed}
use money_machine.Errors.{ok}
use money_machine.Tables.{Job, Database}
use money_machine.Tables.DedupeKey.{semantic}
use money_machine.Samples.{
  sample_job, sample_db, sample_decision, sample_derivation, sample_config, sample_spec, winning,
  multiplied,
}
use money_machine.Successors.{
  successor_job, create_successors, create_each, create_successor_job, create_multiply_successor,
  spawn_from, create_successor_workflow, create_successor_entry_job,
}
use money_machine.Successors.Config.{find_job_def, spec_in}
use money_machine.Dispatcher.{
  new_event, winner_event, successor_event, dispatch, dispatch_decision, dispatch_key, append_once,
  append, by_dedupe_key, first_job_of,
}
use money_machine.Dispatcher.Once.{dispatch_once}
use money_machine.Dispatcher.Decisions.{dispatch_decision_once}

abbrev built : Database
built = sample_db (sample_job 1 JobStatus.running ∷ [])

-- the build's QA job is its one successor
abbrev qa_job : Job
qa_job =
    successor_job sample_config sample_derivation 78 "ProductQAJob:u:u" 1 40 "ProductQAJob"
      sample_spec

abbrev dispatched : Database
dispatched = record built {
  events =
      new_event build_completed "Job" 1 (some 1) (some 1)
        (semantic build_completed 1 (some 1) (some 1)) 40
      ∷ [];
  jobs = qa_job ∷ built.jobs;
}

dispatch_once_example :
    dispatch sample_config sample_derivation build_completed "Job" 1 (some 1) (some 1) 41 dispatched
    ≡ ok ([], dispatched)
unfolding dispatch dispatch_key append_once append by_dedupe_key create_successors create_each
    create_successor_job find_job_def spec_in insert_jobs
dispatch_once_example =
    dispatch_once sample_config sample_derivation build_completed "Job" 1 (some 1) (some 1) 40 41
      (78 ∷ []) built dispatched refl

abbrev decided : Database
decided = record multiplied {
  events = successor_event sample_decision 4 77 30 ∷ winner_event sample_decision 1 30 ∷ [];
}

dispatch_decision_once_example :
    dispatch_decision sample_derivation sample_decision 1 50 51 decided ≡ ok (77 ∷ [], decided)
unfolding dispatch_decision by_dedupe_key create_multiply_successor get spawn_from
    require_successor_spawn require_product_transition create_successor_workflow save
    create_successor_entry_job insert_jobs append_once append first_job_of
dispatch_decision_once_example =
    dispatch_decision_once sample_derivation sample_decision 1 30 31 (77 ∷ []) winning decided refl
      50 51 refl
