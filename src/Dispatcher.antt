-- ===== src/Dispatcher.antt =====
-- src/money_machine/orchestration/event_dispatcher.py, with `append` and `by_dedupe_key` of
-- src/money_machine/persistence/repositories/events.py.
pub mod Once
pub mod Decisions
mod Tests
use money_machine.Base.{
  ℕ, String, Bool, true, false, not, ◌&&◌, ◌||◌, Option, none, some, List, [], ◌∷◌, str_eq, is_none,
  ◌==◌, if◌then◌else◌,
}
use money_machine.Domain.{EventName, is_event}
use money_machine.Domain.EventName.{assets_completed, winner_detected, successor_created}
use money_machine.Errors.{Outcome, ok, err, value_error, event_append, guard, require, ◌>>=◌, ◌>>◌}
use money_machine.Tables.{Job, Event, DedupeKey, Database, get_job}
use money_machine.Tables.DedupeKey.{job_stalled, semantic, job_completion, product_completion}
use money_machine.Portfolio.{PortfolioDecision}
use money_machine.Successors.{create_successors, is_multiply, create_multiply_successor}
use money_machine.Successors.Config.{WorkflowsConfig, Derivation}

abbrev pub same_id : Option ℕ → Option ℕ → Bool
same_id none none = true
same_id (some a) (some b) = a == b
same_id _ _ = false

-- equality of the keys' texts
abbrev pub same_key : DedupeKey → DedupeKey → Bool
same_key (job_stalled a b) (job_stalled a' b') = a == a' && b == b'
same_key (semantic e a w j) (semantic e' a' w' j') =
    is_event e e' && a == a' && same_id w w' && same_id j j'
same_key (job_completion a j) (job_completion a' j') = a == a' && j == j'
same_key (product_completion a) (product_completion a') = a == a'
same_key _ _ = false

unfoldable pub by_dedupe_key : DedupeKey → List Event → Option Event
by_dedupe_key key [] = none
by_dedupe_key key (e ∷ events) =
    if same_key e.dedupe_key key then some e else by_dedupe_key key events

-- `EventRepository.append`
unfoldable pub append : Event → Database → Outcome Database
append event db = do
  guard (is_none (by_dedupe_key event.dedupe_key db.events)) event_append
  ok (record db { events = event ∷ db.events })

-- `except EventAppendError`: an event that is there already is left as it is. The answer says
-- whether it was.
abbrev pub or_existing : Event → Database → Outcome Database → Outcome (Bool × Database)
or_existing event db (ok db') = ok (false, db')
or_existing event db (err event_append) =
    if is_none (by_dedupe_key event.dedupe_key db.events) then err event_append else ok (true, db)
or_existing event db (err e) = err e

unfoldable pub append_once : Event → Database → Outcome (Bool × Database)
append_once event db = or_existing event db (append event db)

abbrev pub has_job : Option ℕ → Database → Bool
has_job none db = false
has_job (some id) db = not (is_none (get_job id db))

abbrev pub or_zero : Option ℕ → ℕ
or_zero none = 0
or_zero (some id) = id

-- The dedupe key of a dispatch, and whether the event is there under its key of old. A job id that
-- is missing does not get as far as `or_zero`.
unfoldable pub dispatch_key :
    EventName → String → ℕ → Option ℕ → Option ℕ → Database → Outcome (DedupeKey × Bool)
dispatch_key event_name aggregate_type aggregate_id workflow_id job_id db =
    if is_event event_name assets_completed && str_eq aggregate_type "Job"
    then (do
      guard (has_job job_id db) value_error
      ok (job_completion aggregate_id (or_zero job_id), false))
    else if is_event event_name assets_completed && str_eq aggregate_type "products"
    then ok (
      product_completion aggregate_id,
      not (is_none (by_dedupe_key (semantic event_name aggregate_id workflow_id none) db.events)),
    )
    else ok (semantic event_name aggregate_id workflow_id job_id, false)

abbrev pub new_event : EventName → String → ℕ → Option ℕ → Option ℕ → DedupeKey → ℕ → Event
new_event event_name aggregate_type aggregate_id workflow_id job_id key occurred_at = record {
  event_name = event_name;
  aggregate_type = aggregate_type;
  aggregate_id = aggregate_id;
  workflow_id = workflow_id;
  job_id = job_id;
  dedupe_key = key;
  occurred_at = occurred_at;
}

module _ (config : WorkflowsConfig) (derive : Derivation) where
  -- the successors of an event that is new
  abbrev pub follow_up :
      Bool
      → EventName
      → String
      → ℕ
      → Option ℕ
      → Option ℕ
      → ℕ
      → Database
      → Outcome (List ℕ × Database)
  follow_up existed event_name aggregate_type aggregate_id none job_id occurred_at db = ok ([], db)
  follow_up existed event_name aggregate_type aggregate_id (some workflow_id) job_id occurred_at
        db =
      if existed || is_event event_name successor_created
      then ok ([], db)
      else create_successors config derive event_name workflow_id job_id (some aggregate_id)
          (some aggregate_type) occurred_at db

  unfoldable pub dispatch :
      EventName → String → ℕ → Option ℕ → Option ℕ → ℕ → Database → Outcome (List ℕ × Database)
  dispatch event_name aggregate_type aggregate_id workflow_id job_id occurred_at db = do
    (key, by_old_key) ← dispatch_key event_name aggregate_type aggregate_id workflow_id job_id db
    let event = new_event event_name aggregate_type aggregate_id workflow_id job_id key occurred_at
    (existed, db') ← if by_old_key then ok (true, db) else append_once event db
    follow_up existed event_name aggregate_type aggregate_id workflow_id job_id occurred_at db'

abbrev pub winner_key : PortfolioDecision → ℕ → DedupeKey
winner_key d parent_job_id =
    semantic winner_detected d.decision_id (some d.workflow_id) (some parent_job_id)

abbrev pub winner_event : PortfolioDecision → ℕ → ℕ → Event
winner_event d parent_job_id occurred_at =
    new_event winner_detected "decisions" d.decision_id (some d.workflow_id) (some parent_job_id)
      (winner_key d parent_job_id) occurred_at

-- a job of the workflow; the query names no order
unfoldable pub first_job_of : ℕ → List Job → List ℕ
first_job_of workflow_id [] = []
first_job_of workflow_id (job ∷ jobs) =
    if job.workflow_id == workflow_id then job.id ∷ [] else first_job_of workflow_id jobs

abbrev existing_successors : Option ℕ → Database → List ℕ
existing_successors none db = []
existing_successors (some workflow_id) db = first_job_of workflow_id db.jobs

-- The key of SUCCESSOR_CREATED reads like the semantic key of its decision, its workflow and its job.
abbrev pub successor_event : PortfolioDecision → ℕ → ℕ → ℕ → Event
successor_event d spec_id job_id occurred_at =
    new_event successor_created "product_specs" spec_id d.successor_workflow_id (some job_id)
      (semantic successor_created d.decision_id d.successor_workflow_id (some job_id)) occurred_at

-- SUCCESSOR_CREATED, for the first of the new jobs
abbrev pub announce_successor : PortfolioDecision → List ℕ → ℕ → Database → Outcome Database
announce_successor d [] occurred_at db = ok db
announce_successor d (job_id ∷ _) occurred_at db = do
  spec_id ← require d.successor_spec_id value_error
  (existed, db') ← append_once (successor_event d spec_id job_id occurred_at) db
  ok db'

module _ (derive : Derivation) where
  unfoldable pub dispatch_decision :
      PortfolioDecision → ℕ → ℕ → ℕ → Database → Outcome (List ℕ × Database)
  dispatch_decision d parent_job_id occurred_at started_at db =
      if not (is_none (by_dedupe_key (winner_key d parent_job_id) db.events))
        && is_multiply d.decision
      then ok (existing_successors d.successor_workflow_id db, db)
      else (do
        (job_ids, db1) ← create_multiply_successor derive d occurred_at started_at db
        (existed, db2) ← append_once (winner_event d parent_job_id occurred_at) db1
        db3 ←
            if is_multiply d.decision then announce_successor d job_ids occurred_at db2 else ok db2
        ok (job_ids, db3))
