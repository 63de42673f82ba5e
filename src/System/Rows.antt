-- ===== src/System/Rows.antt =====
-- What each operation makes of one sound job.
use money_machine.Base.{ℕ, ◌+◌, ◌<◌, String, ◌≡◌, refl, ◌≢◌, true, false, Option, arith}
use money_machine.Domain.{JobStatus, is_status}
use money_machine.Domain.JobStatus.{ready, running, failed}
use money_machine.Tables.{Job}
use money_machine.Leases.{claimed, is_owner, renewed, unleased, failed_attempt}
use money_machine.Leases.Reclaim.{reclaimed}
use money_machine.Dependencies.{with_status}
use money_machine.Engine.{retried}
use money_machine.System.{IsSound}

module _ (job : Job) (now : ℕ) (s : IsSound job) where
  pub claimed-IsSound :
      (worker_id : String) (duration : ℕ)
      → is_status job.status ready ≡ true
      → IsSound (claimed worker_id now duration job)
  unfolding claimed
  claimed-IsSound worker_id duration r = record {
    owned = refl;
    leased = refl;
    beating = refl;
    within = s.within;
    left = λ _ _. s.left (λ e. ground arith) (λ e. ground arith);
  }

  -- the holder of a lease has a running job
  pub owner_running :
      (worker_id : String) → is_owner job.lease_owner worker_id ≡ true → job.status ≡ running
  owner_running worker_id o = ground (arith, s.owned)

  pub renewed-IsSound :
      (worker_id : String) (extension : Option ℕ)
      → is_owner job.lease_owner worker_id ≡ true
      → IsSound (renewed now extension job)
  renewed-IsSound worker_id extension o =
      let runs = owner_running worker_id o in
      record {
        owned = s.owned;
        leased = ground (arith, s.leased);
        beating = ground arith;
        within = s.within;
        left = s.left;
      }

  -- A job without a lease may take any status but RUNNING, if it is FAILED or has attempts left.
  pub unleased-IsSound :
      (status : JobStatus)
      → is_status status running ≡ false
      → job.attempt < job.max_attempts
      → IsSound (unleased now status job)
  unleased-IsSound status other more = record {
    owned = ground arith;
    leased = ground arith;
    beating = ground arith;
    within = s.within;
    left = λ _ _. more;
  }

  pub running_left : is_status job.status running ≡ true → job.attempt < job.max_attempts
  running_left r = s.left (λ e. ground arith) (λ e. ground arith)

  pub failed_attempt-IsSound :
      is_status job.status running ≡ true → IsSound (failed_attempt now job)
  failed_attempt-IsSound r =
      let more = running_left r in
      record {
        owned = refl;
        leased = refl;
        beating = refl;
        within = ground arith;
        left = λ f _. absurd (f refl);
      }

  pub reclaimed-IsSound : is_status job.status running ≡ true → IsSound (reclaimed now job)
  reclaimed-IsSound r =
      let more = running_left r in
      record {
        owned = ground arith;
        leased = ground arith;
        beating = ground arith;
        within = ground arith;
        left = λ f t. ground arith;
      }

  -- A job that is not running may take any other status, if it has attempts left or fails.
  pub with_status-IsSound :
      (status : JobStatus)
      → is_status job.status running ≡ false
      → is_status status running ≡ false
      → (status ≢ failed → job.attempt < job.max_attempts)
      → IsSound (with_status status now job)
  with_status-IsSound status idle other more = record {
    owned = ground (arith, s.owned);
    leased = ground (arith, s.leased);
    beating = ground (arith, s.beating);
    within = s.within;
    left = λ f t. more f;
  }

  pub retried-IsSound :
      (at : ℕ)
      → job.status ≡ failed
      → job.attempt + 1 < job.max_attempts
      → IsSound (retried at now job)
  retried-IsSound at f more = record {
    owned = ground (arith, s.owned);
    leased = ground (arith, s.leased);
    beating = ground (arith, s.beating);
    within = s.within;
    left = λ _ _. ground arith;
  }
