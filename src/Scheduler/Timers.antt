-- ===== src/Scheduler/Timers.antt =====
-- The durable timers: a maturity check is scheduled once, a weekly trigger is kept once.
use money_machine.Base.{
  ℕ, ◌<◌, ◌≤◌, String, ◌≡◌, refl, true, false, some, List, [], ◌∷◌, map, arith, All, exists, select,
  length, str_eq, eq_iff, is_none, leb, Bool-cases, Option-cases, inl, inr, get,
}
use text.Mathlib.TextPositions.{eq_refl}
use money_machine.Errors.{ok, err, integrity_error, resolution}
use money_machine.Tables.{Job, WorkflowRun, ScheduledTrigger, Database, get_workflow}
use money_machine.Dependencies.{evaluate_row, evaluate_job_readiness, promote_pending_to_ready}
use money_machine.Dependencies.Reasons.{error_for, not_due}
use money_machine.Scheduler.{
  maturity_key, maturity_job, schedule_maturity_timer, has_trigger_key, refire,
  schedule_weekly_timer,
}

module _ (uuid_text : ℕ → String) (id workflow_id maturity_date now : ℕ) (db db' : Database)
    (job : Job) where
  abbrev Scheduled : Type 0
  Scheduled =
      (job ≡ maturity_job uuid_text id workflow_id maturity_date now)
      × (db' ≡ record db { jobs = job ∷ db.jobs })
      × ((w : WorkflowRun) × (get_workflow workflow_id db ≡ some w)
          × (is_none w.completed_at ≡ true))

  schedule-Scheduled :
      schedule_maturity_timer uuid_text id workflow_id maturity_date now db ≡ ok (some job, db')
      → Scheduled
  unfolding schedule_maturity_timer
  schedule-Scheduled h = elim (Option-cases (get_workflow workflow_id db)) [
    | inl missing ↦ absurd (ground arith)
    | inr (w, found) ↦ (ground arith, ground arith, (w, found, ground arith))
  ]

  -- Once a maturity timer is set, setting it again for the same workflow, at any date, is refused
  -- with IntegrityError; and the job that was set is not promoted before its date.
  pub maturity_timer_set_once :
      (id' maturity_date' later : ℕ)
      → schedule_maturity_timer uuid_text id workflow_id maturity_date now db ≡ ok (some job, db')
      → (schedule_maturity_timer uuid_text id' workflow_id maturity_date' later db'
          ≡ err integrity_error)
        × (later < maturity_date
            → promote_pending_to_ready id later db' ≡ err (resolution (error_for not_due)))
  unfolding schedule_maturity_timer exists promote_pending_to_ready evaluate_job_readiness
      evaluate_row get
  maturity_timer_set_once id' maturity_date' later h =
      let (same, wrote, (w, found, still_open)) = schedule-Scheduled h in
      let found' : get_workflow workflow_id db' ≡ some w = rw wrote found in
      (
        rw (found', still_open, wrote, same, eq_refl (maturity_key uuid_text workflow_id)),
        (λ early. rw (wrote, same) (ground arith)),
      )

-- the rows of one key
abbrev pub triggers_of : String → List ScheduledTrigger → List ScheduledTrigger
triggers_of key ts = select (has_trigger_key key) ts

refire-key :
    (key k : String) (at : ℕ) (t : ScheduledTrigger)
    → has_trigger_key k (refire key at t) ≡ has_trigger_key k t
refire-key key k at t = ground arith

refire-other :
    (key k : String) (at : ℕ) (ts : List ScheduledTrigger)
    → str_eq key k ≡ false
    → triggers_of k (map (refire key at) ts) ≡ triggers_of k ts
unfolding select
refire-other key k at [] ne = refl
refire-other key k at (t ∷ ts) ne = ground (
  arith,
  refire-other key k at ts ne,
  eq_iff t.trigger_key key,
  eq_iff t.trigger_key k,
  eq_iff key k,
)

refire-same :
    (key : String) (at : ℕ) (ts : List ScheduledTrigger)
    → (length (triggers_of key (map (refire key at) ts)) ≡ length (triggers_of key ts))
      × All (λ t. t.next_fire_at ≡ at) (triggers_of key (map (refire key at) ts))
unfolding select
refire-same key at [] = (refl, tt)
refire-same key at (t ∷ ts) = ground (arith, refire-same key at ts)

exists-length :
    (key : String) (ts : List ScheduledTrigger)
    → exists (has_trigger_key key) ts ≡ leb 1 (length (triggers_of key ts))
unfolding exists select
exists-length key [] = refl
exists-length key (t ∷ ts) = ground (arith, exists-length key ts)

absent_rows :
    (key : String) (ts : List ScheduledTrigger)
    → exists (has_trigger_key key) ts ≡ false
    → triggers_of key ts ≡ []
unfolding exists select
absent_rows key [] h = refl
absent_rows key (t ∷ ts) h = ground (arith, absent_rows key ts)

-- Scheduling a weekly trigger leaves one row under its key if there was at most one, and that row
-- fires at the given moment; the rows of every other key stay as they are.
pub schedule_weekly_timer_once :
    (shop_id : ℕ) (key : String) (at : ℕ) (cron k : String) (db : Database)
    → length (triggers_of key db.triggers) ≤ 1
    → (length (triggers_of key (schedule_weekly_timer shop_id key at cron db).triggers) ≡ 1)
      × All
          (λ t. t.next_fire_at ≡ at)
          (triggers_of key (schedule_weekly_timer shop_id key at cron db).triggers)
      × (str_eq key k ≡ false
          → triggers_of k (schedule_weekly_timer shop_id key at cron db).triggers
            ≡ triggers_of k db.triggers)
unfolding schedule_weekly_timer select
schedule_weekly_timer_once shop_id key at cron k db few =
    elim (Bool-cases (exists (has_trigger_key key) db.triggers)) [
      | inl present ↦
          let (kept, fires) = refire-same key at db.triggers in
          rw present (
            ground (arith, kept, exists-length key db.triggers),
            fires,
            refire-other key k at db.triggers,
          )
      | inr fresh ↦
          let absent = absent_rows key db.triggers fresh in
          rw (fresh, eq_refl key, absent) (refl, (refl, tt), (λ other. rw other))
    ]
