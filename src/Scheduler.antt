-- ===== src/Scheduler.antt =====
-- src/money_machine/orchestration/scheduler.py. `locked` says which rows other transactions have
-- locked, and `uuid_text` prints a UUID.
pub mod Passes
pub mod Stalls
pub mod Timers
mod Tests
use Prim.Native.String.{◌++◌}
use money_machine.Base.{
  map, ◌==◌, ℕ, ◌+◌, String, Bool, true, false, not, ◌&&◌, Option, none, some, List, [], ◌∷◌,
  length, take, select, exists, order_by, save_all, ltb, str_eq, is_none, if◌then◌else◌,
}
use money_machine.Domain.{
  JobStatus, SideEffectClass, RetryClass, AutonomyMode, EventName, is_status,
}
use money_machine.Domain.JobStatus.{pending, running, failed}
use money_machine.Errors.{
  Outcome, ok, err, value_error, integrity_error, resolution, guard, require, ◌>>=◌, ◌>>◌,
}
use money_machine.Guard.{require_job_transition}
use money_machine.Tables.{
  Job, Event, ScheduledTrigger, WorkflowRun, Database, DedupeKey, job_key, get_workflow, minutes,
}
use money_machine.Leases.{failed_attempt, is_over_budget, reclaim_expired_leases}
use money_machine.Dependencies.{promote_pending_to_ready}

-- the rows that `promote_due_jobs` selects
unfoldable pub is_due : ℕ → Job → Bool
is_due now job = is_status job.status pending && not (ltb now job.scheduled_at)

-- One turn of the loop of `promote_due_jobs`, joined to the turns after it: a
-- DependencyResolutionError is caught, and any other exception goes on.
abbrev pub after_promotion :
    (Database → Outcome (List Job × Database))
    → Database
    → Outcome (Job × Database)
    → Outcome (List Job × Database)
after_promotion rest db (ok (job, db')) = do (jobs, db'') ← rest db'; ok (job ∷ jobs, db'')
after_promotion rest db (err (resolution e)) = rest db
after_promotion rest db (err e) = err e

unfoldable pub promote_each : ℕ → List Job → Database → Outcome (List Job × Database)
promote_each now [] db = ok ([], db)
promote_each now (job ∷ jobs) db =
    after_promotion (promote_each now jobs) db (promote_pending_to_ready job.id now db)

unfoldable pub promote_due_jobs : ℕ → ℕ → Database → Outcome (List Job × Database)
promote_due_jobs now limit db =
    promote_each now (take limit (order_by (λ j. j.scheduled_at) (select (is_due now) db.jobs))) db

-- `heartbeat_at < now - stall_threshold`, with the threshold on the other side
abbrev pub is_silent : Option ℕ → ℕ → ℕ → Bool
is_silent none stall_threshold now = false
is_silent (some t) stall_threshold now = ltb (t + stall_threshold) now

-- `lease_expires_at > now`
abbrev pub is_leased_beyond : Option ℕ → ℕ → Bool
is_leased_beyond none now = false
is_leased_beyond (some t) now = ltb now t

unfoldable pub is_stalled : (ℕ → Bool) → ℕ → ℕ → Job → Bool
is_stalled locked stall_threshold now job =
    is_status job.status running
    && is_silent job.heartbeat_at stall_threshold now
    && is_leased_beyond job.lease_expires_at now
    && not (locked job.id)

-- `ORDER BY heartbeat_at`; no selected row has NULL there
abbrev pub last_beat : Job → ℕ
last_beat job = elim job.heartbeat_at [ none ↦ 0 | some t ↦ t ]

abbrev pub stalled_event : ℕ → Job → Event
stalled_event now job = record {
  event_name = EventName.job_stalled;
  aggregate_type = "Job";
  aggregate_id = job.id;
  workflow_id = some job.workflow_id;
  job_id = some job.id;
  dedupe_key = DedupeKey.job_stalled job.id now;
  occurred_at = now;
}

abbrev pub is_stall_of : ℕ → ℕ → Event → Bool
is_stall_of job_id now e = elim e.dedupe_key [
  | DedupeKey.job_stalled k t ↦ k == job_id && t == now
  | _ ↦ false
]

-- the event is flushed under a dedupe key that is unique
add_event : ℕ → Job → List Event → Outcome (List Event)
add_event now job events = do
  guard (not (exists (is_stall_of job.id now) events)) integrity_error
  ok (stalled_event now job ∷ events)

-- The jobs and the events that the loop of `detect_stalled_jobs` writes.
unfoldable pub stall_each : ℕ → List Job → List Event → Outcome (List Job × List Event)
unfolding add_event exists
stall_each now [] events = ok ([], events)
stall_each now (job ∷ jobs) events = do
  require_job_transition running failed
  events' ← add_event now job events
  (jobs', events'') ← stall_each now jobs events'
  ok (failed_attempt now job ∷ jobs', events'')

unfoldable pub detect_stalled_jobs :
    (ℕ → Bool) → ℕ → ℕ → ℕ → Database → Outcome (List Job × Database)
detect_stalled_jobs locked stall_threshold now limit db = do
  (stalled, events') ←
      stall_each now
        (take limit (order_by last_beat (select (is_stalled locked stall_threshold now) db.jobs)))
        db.events
  guard (not (exists is_over_budget stalled)) integrity_error
  ok (stalled, record db { jobs = save_all job_key stalled db.jobs; events = events' })

abbrev pub maturity_key : (ℕ → String) → ℕ → String
maturity_key uuid_text workflow_id = "MATURITY_CHECK:" ++ uuid_text workflow_id

abbrev pub maturity_job : (ℕ → String) → ℕ → ℕ → ℕ → ℕ → Job
maturity_job uuid_text id workflow_id maturity_date now = record {
  id = id;
  workflow_id = workflow_id;
  job_type = "maturity_check";
  object_type = "workflow_runs";
  object_id = workflow_id;
  owner_agent_id = "A01";
  status = pending;
  scheduled_at = maturity_date;
  attempt = 0;
  max_attempts = 3;
  idempotency_key = maturity_key uuid_text workflow_id;
  side_effect_class = SideEffectClass.none;
  retry_class = RetryClass.safe;
  allowed_mode = AutonomyMode.simulation;
  lease_owner = none;
  lease_expires_at = none;
  heartbeat_at = none;
  updated_at = now;
}

abbrev pub has_job_key : String → Job → Bool
has_job_key key job = str_eq job.idempotency_key key

-- `id` is the UUID of the new job. Its idempotency key is unique among the jobs.
unfoldable pub schedule_maturity_timer :
    (ℕ → String) → ℕ → ℕ → ℕ → ℕ → Database → Outcome (Option Job × Database)
unfolding exists
schedule_maturity_timer uuid_text id workflow_id maturity_date now db = do
  workflow ← require (get_workflow workflow_id db) value_error
  if not (is_none workflow.completed_at) then ok (none, db) else (do
    let job = maturity_job uuid_text id workflow_id maturity_date now
    guard (not (exists (has_job_key job.idempotency_key) db.jobs)) integrity_error
    ok (some job, record db { jobs = job ∷ db.jobs }))

abbrev pub has_trigger_key : String → ScheduledTrigger → Bool
has_trigger_key trigger_key t = str_eq t.trigger_key trigger_key

-- `trigger_key` is unique, so that the row found is the only one of its key.
abbrev pub refire : String → ℕ → ScheduledTrigger → ScheduledTrigger
refire trigger_key next_fire_at t =
    if has_trigger_key trigger_key t then record t { next_fire_at = next_fire_at } else t

abbrev pub weekly_trigger : ℕ → String → ℕ → String → ScheduledTrigger
weekly_trigger shop_id trigger_key next_fire_at cron_expression = record {
  shop_id = shop_id;
  trigger_kind = "WEEKLY_REVIEW";
  trigger_key = trigger_key;
  cron_expression = cron_expression;
  next_fire_at = next_fire_at;
  active = true;
}

unfoldable pub schedule_weekly_timer : ℕ → String → ℕ → String → Database → Database
unfolding exists
schedule_weekly_timer shop_id trigger_key next_fire_at cron_expression db =
    if exists (has_trigger_key trigger_key) db.triggers
    then record db { triggers = map (refire trigger_key next_fire_at) db.triggers }
    else record db {
      triggers = weekly_trigger shop_id trigger_key next_fire_at cron_expression ∷ db.triggers;
    }

-- The counts that `run_scheduler_cycle` returns.
pub record CycleCounts : Type 0 where
  pub promoted : ℕ
  pub reclaimed : ℕ
  pub stalled : ℕ

unfoldable pub run_scheduler_cycle :
    (ℕ → Bool) → ℕ → ℕ → ℕ → ℕ → Database → Outcome (CycleCounts × Database)
run_scheduler_cycle locked now promote_limit reclaim_limit stall_limit db = do
  (reclaimed, db1) ← reclaim_expired_leases locked now reclaim_limit db
  (stalled, db2) ← detect_stalled_jobs locked (minutes 5) now stall_limit db1
  (promoted, db3) ← promote_due_jobs now promote_limit db2
  ok (
    record { promoted = length promoted; reclaimed = length reclaimed; stalled = length stalled },
    db3,
  )
