-- ===== src/Idempotency/Reservation.antt =====
-- A key is reserved once.
use money_machine.Base.{
  ℕ, String, ◌≡◌, refl, sym, subst, map, true, false, not, List, [], ◌∷◌, arith, exists, ◌==◌,
}
use text.Mathlib.TextPositions.{eq_refl}
use money_machine.Domain.{SideEffectClass}
use money_machine.Errors.{Outcome, ok, err, key_reserved}
use money_machine.Tables.{IdempotencyRecord, Database}
use money_machine.Idempotency.{
  has_key, reserve_idempotency_key, get_idempotency_record, complete, mark_idempotency_completed,
}
use money_machine.Dependencies.{is_reserved_by_other, check_idempotency_collision}

-- the arguments of a reservation
pub record Request : Type 0 where
  pub id : ℕ
  pub key : String
  pub job_id : ℕ
  pub operation : String
  pub side_effect_class : SideEffectClass
  pub now : ℕ

abbrev pub reserve : Request → Database → Outcome (IdempotencyRecord × Database)
reserve q db = reserve_idempotency_key q.id q.key q.job_id q.operation q.side_effect_class q.now db

-- the database after a reservation, which a refused one leaves alone
abbrev pub settle : Database → Outcome (IdempotencyRecord × Database) → Database
settle db (ok (_, db')) = db'
settle db (err _) = db

abbrev IsReserved : String → Database → Type 0
IsReserved key db = exists (has_key key) db.reservations ≡ true

reserve-IsReserved :
    (q : Request) (key : String) (db : Database)
    → IsReserved key db
    → IsReserved key (settle db (reserve q db))
unfolding reserve_idempotency_key exists
reserve-IsReserved q key db h = ground arith

now_in_table :
    (q : Request) (db : Database) {r : IdempotencyRecord} {db' : Database}
    → reserve q db ≡ ok (r, db')
    → IsReserved q.key db'
unfolding reserve_idempotency_key exists
now_in_table q db h = ground (arith, eq_refl q.key)

completed_rows :
    (done_key key : String) (at : ℕ) (rows : List IdempotencyRecord)
    → exists (has_key key) rows ≡ true
    → exists (has_key key) (map (complete done_key at) rows) ≡ true
unfolding exists
completed_rows done_key key at [] h = cc
completed_rows done_key key at (r ∷ rows) h = ground (arith, completed_rows done_key key at rows)

completed-IsReserved :
    (done_key key : String) (at : ℕ) (db db' : Database)
    → mark_idempotency_completed done_key at db ≡ ok db'
    → IsReserved key db
    → IsReserved key db'
unfolding mark_idempotency_completed get_idempotency_record
completed-IsReserved done_key key at db db' h reserved =
    let kept = completed_rows done_key key at db.reservations reserved in
    let wrote : db'.reservations ≡ map (complete done_key at) db.reservations = ground arith in
    rw wrote kept

-- What may happen between two reservations: reservations, granted or refused, completions, and whatever
-- leaves the table of the reservations alone.
pub data Passes (db : Database) : Database → Type 0 where
  start : Passes db db
  reserves :
      {now_db : Database} (q : Request)
      → Passes db now_db
      → Passes db (settle now_db (reserve q now_db))
  completes :
      {now_db next_db : Database} (key : String) (at : ℕ)
      → Passes db now_db
      → mark_idempotency_completed key at now_db ≡ ok next_db
      → Passes db next_db
  elsewhere :
      {now_db next_db : Database}
      → Passes db now_db
      → next_db.reservations ≡ now_db.reservations
      → Passes db next_db

Passes-IsReserved :
    (key : String) {db db' : Database} → Passes db db' → IsReserved key db → IsReserved key db'
Passes-IsReserved key start h = h
Passes-IsReserved key (reserves q before) h =
    reserve-IsReserved q key _ (Passes-IsReserved key before h)
Passes-IsReserved key (completes done_key at before run) h =
    completed-IsReserved done_key key at _ _ run (Passes-IsReserved key before h)
Passes-IsReserved key (elsewhere before same) h =
    subst (λ rows. exists (has_key key) rows ≡ true) (sym same) (Passes-IsReserved key before h)

-- Once a key has been reserved, every later reservation of it is refused, by whatever job, after
-- whatever other reservations, granted or refused, whatever completions, and whatever operations that
-- leave the table of reservations alone.
pub reserved_at_most_once :
    (first again : Request) (db db' later : Database) (r : IdempotencyRecord)
    → reserve first db ≡ ok (r, db')
    → Passes db' later
    → again.key ≡ first.key
    → reserve again later ≡ err key_reserved
unfolding reserve_idempotency_key
reserved_at_most_once first again db db' later r h between same =
    let kept : IsReserved again.key later =
      Passes-IsReserved again.key between (rw same (now_in_table first db h)) in
    rw kept

others_free :
    (key : String) (job_id : ℕ) (rows : List IdempotencyRecord)
    → exists (has_key key) rows ≡ false
    → exists (is_reserved_by_other job_id key) rows ≡ false
unfolding exists
others_free key job_id [] h = refl
others_free key job_id (r ∷ rows) h = ground (arith, others_free key job_id rows)

-- A reserved key collides for every job but the one that reserved it.
pub reserved_collides_for_others :
    (q : Request) (other : ℕ) (db db' : Database) (r : IdempotencyRecord)
    → reserve q db ≡ ok (r, db')
    → check_idempotency_collision other q.key db' ≡ not (q.job_id == other)
unfolding reserve_idempotency_key check_idempotency_collision
reserved_collides_for_others q other db db' r h =
    ground (arith, eq_refl q.key, others_free q.key other db.reservations)
