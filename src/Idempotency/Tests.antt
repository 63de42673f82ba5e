-- ===== src/Idempotency/Tests.antt =====
-- Reservations and effect attempts under one key.
use money_machine.Base.{ℕ, String, ◌≡◌, refl, true, some, [], ◌∷◌, arith, latest, select}
use money_machine.Domain.{SideEffectClass}
use money_machine.Domain.EffectState.{unknown, absent}
use money_machine.Errors.{err, key_reserved}
use money_machine.Tables.{EffectAttempt, Database}
use money_machine.Samples.{sample_db, sample_reservation, sample_effect}
use money_machine.Idempotency.{
  get_latest_effect_attempt, is_reconciliation_resolved, reserve_idempotency_key,
  record_effect_attempt,
}
use money_machine.Idempotency.Reservation.{Request, reserve, settle, Passes, reserved_at_most_once}
use money_machine.Idempotency.Ledger.{record-latest, with_effect}

abbrev asks : ℕ → String → Request
asks job_id key = record {
  id = 50;
  key = key;
  job_id = job_id;
  operation = "etsy.publish";
  side_effect_class = SideEffectClass.external_write;
  now = 5;
}

abbrev reserved : Database
reserved = record (sample_db []) { reservations = sample_reservation 3 ∷ [] }

reserved_at_most_once_example :
    reserve (asks 4 "k") (settle reserved (reserve (asks 4 "j") reserved)) ≡ err key_reserved
unfolding reserve_idempotency_key
reserved_at_most_once_example =
    reserved_at_most_once (asks 3 "k") (asks 4 "k") (sample_db []) reserved
      (settle reserved (reserve (asks 4 "j") reserved)) (sample_reservation 3) refl
      (Passes.reserves (asks 4 "j") Passes.start) refl

abbrev asked_once : Database
asked_once = record reserved { effects = sample_effect 3 unknown 1 ∷ [] }

abbrev second : EffectAttempt
second = record (sample_effect 3 absent 2) { id = 61 }

record-latest_example :
    (get_latest_effect_attempt "k" (with_effect second asked_once) ≡ some second)
    × (is_reconciliation_resolved "k" (with_effect second asked_once) ≡ true)
unfolding record_effect_attempt get_latest_effect_attempt latest select
record-latest_example =
    record-latest second asked_once (with_effect second asked_once) refl (omega arith)
