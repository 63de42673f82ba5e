-- ===== src/Idempotency.antt =====
-- src/money_machine/orchestration/idempotency.py. `id` is the UUID that a new row is given, and
-- IntegrityError is raised where the schema's constraints are broken.
pub mod Reservation
pub mod Ledger
mod Tests
use money_machine.Base.{
  ℕ, String, Bool, true, false, not, ◌&&◌, ◌||◌, Option, none, some, List, [], ◌∷◌, map, exists,
  select, latest, str_eq, is_none, ◌==◌, if◌then◌else◌,
}
use money_machine.Domain.{SideEffectClass, AutonomyMode, EffectState}
use money_machine.Domain.EffectState.{confirmed, absent, unknown}
use money_machine.Errors.{
  Outcome, ok, key_reserved, value_error, integrity_error, guard, require, ◌>>=◌, ◌>>◌,
}
use money_machine.Tables.{IdempotencyRecord, EffectAttempt, Receipt, Database}

abbrev pub has_key : String → IdempotencyRecord → Bool
has_key key r = str_eq r.idempotency_key key

unfoldable pub find_reservation : String → List IdempotencyRecord → Option IdempotencyRecord
find_reservation key [] = none
find_reservation key (r ∷ rs) = if has_key key r then some r else find_reservation key rs

-- `scalars().one_or_none()`, for a column that is unique
unfoldable pub get_idempotency_record : String → Database → Option IdempotencyRecord
unfolding find_reservation
get_idempotency_record key db = find_reservation key db.reservations

-- The answer is the row, which has every field of an `IdempotencyReservation`.
unfoldable pub reserve_idempotency_key :
    ℕ
    → String
    → ℕ
    → String
    → SideEffectClass
    → ℕ
    → Database
    → Outcome (IdempotencyRecord × Database)
unfolding exists
reserve_idempotency_key id key job_id operation side_effect_class now db = do
  guard (not (exists (has_key key) db.reservations)) key_reserved
  let reservation : IdempotencyRecord = record {
    id = id;
    idempotency_key = key;
    job_id = job_id;
    operation = operation;
    side_effect_class = side_effect_class;
    reserved_at = now;
    completed_at = none;
  }
  ok (reservation, record db { reservations = reservation ∷ db.reservations })

abbrev pub complete : String → ℕ → IdempotencyRecord → IdempotencyRecord
complete key now r = if has_key key r then record r { completed_at = some now } else r

unfoldable pub mark_idempotency_completed : String → ℕ → Database → Outcome Database
unfolding get_idempotency_record
mark_idempotency_completed key now db = do
  _ ← require (get_idempotency_record key db) value_error
  ok (record db { reservations = map (complete key now) db.reservations })

abbrev pub is_attempt_of : String → EffectAttempt → Bool
is_attempt_of key e = str_eq e.idempotency_key key

abbrev pub attempt_number : EffectAttempt → ℕ
attempt_number e = e.reconciliation_attempt

unfoldable pub get_latest_effect_attempt : String → Database → Option EffectAttempt
get_latest_effect_attempt key db = latest attempt_number (select (is_attempt_of key) db.effects)

-- the check `effect_state_evidence`
abbrev pub has_evidence : EffectState → Option String → Bool
has_evidence confirmed provider_object_id = not (is_none provider_object_id)
has_evidence absent provider_object_id = is_none provider_object_id
has_evidence unknown provider_object_id = true

-- the unique pair of key and attempt number
abbrev pub is_same_attempt : EffectAttempt → EffectAttempt → Bool
is_same_attempt new e =
    is_attempt_of new.idempotency_key e && e.reconciliation_attempt == new.reconciliation_attempt

unfoldable pub record_effect_attempt : EffectAttempt → Database → Outcome Database
unfolding exists
record_effect_attempt new db = do
  guard (not (exists (is_same_attempt new) db.effects)) integrity_error
  guard (has_evidence new.effect_state new.provider_object_id) integrity_error
  ok (record db { effects = new ∷ db.effects })

abbrev pub is_resolved : Option EffectAttempt → Bool
is_resolved none = false
is_resolved (some e) = elim e.effect_state [ unknown ↦ false | _ ↦ true ]

unfoldable pub is_reconciliation_resolved : String → Database → Bool
unfolding get_latest_effect_attempt
is_reconciliation_resolved key db = is_resolved (get_latest_effect_attempt key db)

-- the unique triple of key, operation and moment
abbrev pub is_same_receipt : Receipt → Receipt → Bool
is_same_receipt new r =
    str_eq r.idempotency_key new.idempotency_key
    && str_eq r.operation new.operation
    && r.recorded_at == new.recorded_at

-- Receipts without an amount.
unfoldable pub record_receipt : Receipt → Database → Outcome Database
unfolding exists
record_receipt new db = do
  guard (not (exists (is_same_receipt new) db.receipts)) integrity_error
  ok (record db { receipts = new ∷ db.receipts })
