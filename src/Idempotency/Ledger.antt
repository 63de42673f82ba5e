-- ===== src/Idempotency/Ledger.antt =====
-- The attempts of one effect: numbered, and read back by the highest number.
use money_machine.Base.{ℕ, ◌≤◌, ◌≡◌, refl, Option, none, some, ◌∷◌, arith, select, latest}
use text.Mathlib.TextPositions.{eq_refl}
use money_machine.Errors.{ok}
use money_machine.Tables.{EffectAttempt, Database}
use money_machine.Idempotency.{
  get_latest_effect_attempt, record_effect_attempt, is_resolved, is_reconciliation_resolved,
}

-- the number that the next attempt must pass
abbrev pub last_number : Option EffectAttempt → ℕ
last_number none = 0
last_number (some e) = e.reconciliation_attempt

abbrev pub with_effect : EffectAttempt → Database → Database
with_effect new db = record db { effects = new ∷ db.effects }

pub record-with_effect :
    (new : EffectAttempt) (db db' : Database)
    → record_effect_attempt new db ≡ ok db'
    → db' ≡ with_effect new db
unfolding record_effect_attempt
record-with_effect new db db' h = ground arith

latest-with_effect :
    (new : EffectAttempt) (db : Database)
    → last_number (get_latest_effect_attempt new.idempotency_key db) ≤ new.reconciliation_attempt
    → get_latest_effect_attempt new.idempotency_key (with_effect new db) ≡ some new
unfolding get_latest_effect_attempt select latest
latest-with_effect new db above = ground (arith, eq_refl new.idempotency_key)

-- An attempt that is recorded under a number no lower than that of the latest one, or under any
-- number where there is none, is what is read back for its key, and the key then counts as resolved
-- exactly when the attempt found its effect CONFIRMED or ABSENT.
pub record-latest :
    (new : EffectAttempt) (db db' : Database)
    → record_effect_attempt new db ≡ ok db'
    → last_number (get_latest_effect_attempt new.idempotency_key db) ≤ new.reconciliation_attempt
    → (get_latest_effect_attempt new.idempotency_key db' ≡ some new)
      × (is_reconciliation_resolved new.idempotency_key db' ≡ is_resolved (some new))
unfolding is_reconciliation_resolved
record-latest new db db' h above =
    rw (record-with_effect new db db' h, latest-with_effect new db above) (refl, refl)
