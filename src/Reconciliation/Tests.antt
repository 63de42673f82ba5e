-- ===== src/Reconciliation/Tests.antt =====
-- A job whose publication may or may not have happened.
use money_machine.Idempotency.{
  get_idempotency_record, get_latest_effect_attempt, record_effect_attempt,
}
use money_machine.Base.{◌+◌, ◌<◌, ◌≡◌, refl, none, [], ◌∷◌, get, latest, select}
use money_machine.Domain.JobStatus.{uncertain_external_effect, failed}
use money_machine.Domain.EffectState.{unknown, absent}
use money_machine.Tables.{Job, Database}
use money_machine.Samples.{sample_job, sample_db, sample_reservation, sample_effect}
use money_machine.Idempotency.Ledger.{with_effect}
use money_machine.Reconciliation.{
  Reconciler, ReconciliationResult, new_attempt, reconcile_uncertain_effect,
}
use money_machine.Reconciliation.Budget.{attempts, reconcile_spends_budget}

-- the provider has no such object
abbrev provider : Reconciler
provider key operation = (absent, none)

abbrev job : Job
job = sample_job 1 uncertain_external_effect

abbrev asked_once : Database
asked_once = record (sample_db (job ∷ [])) {
  reservations = sample_reservation 1 ∷ [];
  effects = sample_effect 1 unknown 1 ∷ [];
}

abbrev answered : Database
answered = with_effect (new_attempt 61 provider job (sample_reservation 1) 2 20) asked_once

abbrev answer : ReconciliationResult
answer = record {
  effect_state = absent;
  next_job_status = failed;
  reconciliation_attempt = 2;
  provider_object_id = none;
}

reconcile_spends_budget_example :
    (attempts "k" asked_once < 3)
    × (attempts "k" answered ≡ attempts "k" asked_once + 1)
    × (failed ≡ uncertain_external_effect → (absent ≡ unknown) × (attempts "k" answered < 3))
unfolding get reconcile_uncertain_effect get_idempotency_record get_latest_effect_attempt latest
    select record_effect_attempt
reconcile_spends_budget_example =
    reconcile_spends_budget 61 provider 1 3 20 asked_once answered job answer refl refl
