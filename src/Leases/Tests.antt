-- ===== src/Leases/Tests.antt =====
-- Leases on a table of two jobs.
use money_machine.Guard.{require_job_transition}
use money_machine.Base.{
  ℕ, Bool, ◌==◌, ◌≤◌, ◌≡◌, refl, true, none, some, [], ◌∷◌, Memᴰ, All, save_all, length, exists,
  order_by, select, save,
}
use money_machine.Domain.JobStatus.{ready, succeeded}
use money_machine.Errors.{err, lease, lease_not_held}
use money_machine.Tables.{Job, Database, save_job}
use money_machine.Samples.{sample_job, running_job, sample_db, unlocked}
use money_machine.Leases.{
  is_reclaimable, claimed, claim_ready_job, heartbeat, release_lease, reclaim_expired_leases,
}
use money_machine.Leases.Claim.{ClaimAnswer, claim_ready_job-ClaimAnswer}
use money_machine.Leases.Holding.{
  ReleaseAnswer, HeartbeatAnswer, release_lease-ReleaseAnswer, heartbeat-HeartbeatAnswer,
}
use money_machine.Leases.Reclaim.{
  taken, reclaimed, ReclaimAnswer, reclaim_expired_leases-ReclaimAnswer, reclaimed_is_fenced,
}

abbrev two_ready : Database
two_ready = sample_db (sample_job 1 ready ∷ record (sample_job 2 ready) { scheduled_at = 5 } ∷ [])

abbrev held : Database
held = sample_db (running_job 1 ∷ sample_job 2 ready ∷ [])

claim_ready_job-ClaimAnswer_example :
    ClaimAnswer unlocked "w" 20 300 two_ready (claim_ready_job unlocked "w" 20 300 two_ready)
claim_ready_job-ClaimAnswer_example = claim_ready_job-ClaimAnswer unlocked "w" 20 300 two_ready

-- job 2, which is due first, and job 1, once they are claimed by two workers
abbrev first_claimed : Job
first_claimed = claimed "w" 20 300 (record (sample_job 2 ready) { scheduled_at = 5 })

abbrev second_claimed : Job
second_claimed = claimed "v" 21 300 (sample_job 1 ready)

abbrev second_locked : ℕ → Bool
second_locked id = id == 2

release_lease-ReleaseAnswer_example :
    ReleaseAnswer 1 "w" 60 succeeded held (release_lease 1 "w" 60 succeeded held)
release_lease-ReleaseAnswer_example = release_lease-ReleaseAnswer 1 "w" 60 succeeded held

heartbeat-HeartbeatAnswer_example :
    HeartbeatAnswer 1 "w" 60 (some 300) held (heartbeat 1 "w" 60 (some 300) held)
heartbeat-HeartbeatAnswer_example = heartbeat-HeartbeatAnswer 1 "w" 60 (some 300) held

reclaim_expired_leases-ReclaimAnswer_example :
    (length (taken unlocked 150 10 held) ≤ 10)
    × All (λ job. is_reclaimable unlocked 150 job ≡ true) (taken unlocked 150 10 held)
    × ReclaimAnswer unlocked 150 10 held (reclaim_expired_leases unlocked 150 10 held)
reclaim_expired_leases-ReclaimAnswer_example =
    reclaim_expired_leases-ReclaimAnswer unlocked 150 10 held

abbrev taken_back : Job
taken_back = reclaimed 150 (running_job 1)

reclaimed_is_fenced_example :
    (heartbeat 1 "w" 160 none (save_job taken_back held) ≡ err (lease lease_not_held))
    × (release_lease 1 "w" 160 succeeded (save_job taken_back held) ≡ err (lease lease_not_held))
unfolding reclaim_expired_leases exists order_by select require_job_transition save save_all
reclaimed_is_fenced_example =
    reclaimed_is_fenced unlocked 150 10 held (save_job taken_back held) (taken_back ∷ []) taken_back
      "w" 160 none succeeded refl (Memᴰ.head refl) refl
