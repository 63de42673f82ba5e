-- ===== src/Guard/Jobs.antt =====
-- The life of a job: what the table of transitions promises.
use mathlib.Core.Path.{fun_ext}
use money_machine.Base.{
  ℕ, suc, ◌≤◌, ◌<◌, ◌≡◌, refl, ◌↔◌, ◌⊎◌, Bool, true, List, ◌∷◌, arith, exists, ◌==◌,
}
use money_machine.Domain.{JobStatus, is_status}
use money_machine.Domain.JobStatus.{
  pending, ready, running, uncertain_external_effect, succeeded, terminal_failure, cancelled,
}
use money_machine.Errors.{err, ok, invalid_transition}
use money_machine.Guard.{require_job_transition, is_terminal}
use money_machine.Guard.Run.{advance, advance_visits_rank}

-- Exactly SUCCEEDED, TERMINAL_FAILURE and CANCELLED are terminal.
pub is_terminal_iff :
    (s : JobStatus)
    → (is_terminal s ≡ true) ↔ ((s ≡ succeeded) ⊎ (s ≡ terminal_failure) ⊎ (s ≡ cancelled))
unfolding is_terminal
is_terminal_iff s = ground arith

-- From a terminal status every run of at least one transition is refused.
pub terminal_is_final :
    (s t u : JobStatus) (path : List JobStatus)
    → is_terminal s ≡ true
    → advance require_job_transition s (u ∷ path) ≡ err invalid_transition
unfolding is_terminal advance require_job_transition
terminal_is_final s t u path h = ground arith

-- how far a job has come
progress : JobStatus → ℕ
progress ready = 1
progress running = 2
progress succeeded = 3
progress uncertain_external_effect = 3
progress _ = 0

progress-climbs :
    (s t : JobStatus) → require_job_transition s t ≡ ok tt → progress t ≤ suc (progress s)
unfolding require_job_transition progress
progress-climbs pending t h = ground arith
progress-climbs _ t h = ground arith

ready-alone : (u : JobStatus) → (progress u == progress ready) ≡ is_status ready u
unfolding progress
ready-alone pending = refl
ready-alone _ = refl

running-alone : (u : JobStatus) → (progress u == progress running) ≡ is_status running u
unfolding progress
running-alone pending = refl
running-alone _ = refl

pub passed : JobStatus → List JobStatus → Bool
passed status path = exists (is_status status) path

module _ (status : JobStatus)
    (alone : (u : JobStatus) → (progress u == progress status) ≡ is_status status u) where
  passes :
      (s t : JobStatus) (path : List JobStatus)
      → advance require_job_transition s path ≡ ok t
      → progress s < progress status
      → progress status ≤ progress t
      → passed status path ≡ true
  unfolding passed
  passes s t path h below above = rw (← fun_ext alone) (
      advance_visits_rank require_job_transition progress progress-climbs path s t (progress status)
        h below above)

-- A job that the guard has taken from PENDING to SUCCEEDED has been READY and RUNNING.
pub succeeds_through_running :
    (path : List JobStatus)
    → advance require_job_transition pending path ≡ ok succeeded
    → (passed ready path ≡ true) × (passed running path ≡ true)
unfolding progress
succeeds_through_running path h = (
  passes ready ready-alone pending succeeded path h (omega arith) (omega arith),
  passes running running-alone pending succeeded path h (omega arith) (omega arith),
)
