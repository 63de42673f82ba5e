-- ===== src/Scheduler/Tests.antt =====
-- Passes and timers on small tables.
use money_machine.Base.{ℕ, ◌<◌, String, ◌≡◌, refl, [], ◌∷◌, All, Memᴰ, ◌⊎◌, length, get}
use money_machine.Domain.JobStatus.{pending}
use money_machine.Errors.{err, integrity_error, resolution}
use money_machine.Tables.{Job, Database}
use money_machine.Samples.{sample_job, running_job, sample_db, unlocked}
use money_machine.Dependencies.{promote_pending_to_ready}
use money_machine.Dependencies.Reasons.{error_for, not_due}
use money_machine.Scheduler.{detect_stalled_jobs, maturity_job, schedule_maturity_timer}
use money_machine.Scheduler.Stalls.{IsStalled, stalled, Detected, detect_stalled_jobs-Detected}
use money_machine.Scheduler.Timers.{maturity_timer_set_once}

abbrev table : Database
table = sample_db (sample_job 1 pending ∷ running_job 2 ∷ [])

detect_stalled_jobs-Detected_example :
    All (IsStalled unlocked 5 90) (stalled unlocked 5 90 10 table)
    × ((job : Job)
        → Memᴰ job table.jobs
        → IsStalled unlocked 5 90 job
        → Memᴰ job (stalled unlocked 5 90 10 table)
          ⊎ (length (stalled unlocked 5 90 10 table) ≡ 10))
    × Detected unlocked 5 90 10 table (detect_stalled_jobs unlocked 5 90 10 table)
detect_stalled_jobs-Detected_example = detect_stalled_jobs-Detected unlocked 5 90 10 table

abbrev uuid_text : ℕ → String
uuid_text id = "u"

abbrev timer : Job
timer = maturity_job uuid_text 5 1 500 20

abbrev timed : Database
timed = record table { jobs = timer ∷ table.jobs }

maturity_timer_set_once_example :
    (schedule_maturity_timer uuid_text 6 1 700 30 timed ≡ err integrity_error)
    × (30 < 500 → promote_pending_to_ready 5 30 timed ≡ err (resolution (error_for not_due)))
unfolding schedule_maturity_timer get
maturity_timer_set_once_example =
    maturity_timer_set_once uuid_text 5 1 500 20 table timed timer 6 700 30 refl
