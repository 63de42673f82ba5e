-- ===== src/Errors.antt =====
-- The exceptions that the orchestration raises, and computations that may raise one.
use money_machine.Base.{◌≡◌, refl, ap, ◌⊎◌, inl, inr, Bool, true, false, Option, none, some, arith}

-- leases.py
pub data LeaseError : Type 0 where
  lease_expired lease_not_held : LeaseError

-- dependency_resolver.py; the base class is `resolution_failed`
pub data ResolutionError : Type 0 where
  resolution_failed dependency_not_satisfied workflow_inactive : ResolutionError
  idempotency_collision : ResolutionError

-- engine.py; the base class is `engine_failed`
pub data EngineError : Type 0 where
  engine_failed workflow_not_found job_not_found invalid_retry : EngineError

-- A family of classes under one base is one constructor, so that an `except` of the base class
-- matches that constructor.
pub data Error : Type 0 where
  value_error invalid_transition integrity_error key_reserved : Error
  budget_exhausted event_append : Error
  lease : LeaseError → Error
  resolution : ResolutionError → Error
  engine : EngineError → Error

pub data Outcome {ℓ} (A : Type ℓ) : Type ℓ where
  ok : A → Outcome A
  err : Error → Outcome A

-- `if not test: raise e`
abbrev pub guard : Bool → Error → Outcome (Unit {0})
guard false raised = err raised
guard true raised = ok tt

-- `if row is None: raise e`
abbrev pub require {ℓ} : {A : Type ℓ} → Option A → Error → Outcome A
require (some row) raised = ok row
require none raised = err raised

-- A statement after one that may raise, with its value or without.
infixl 5 ◌>>=◌ ◌>>◌
abbrev pub ◌>>=◌ {ℓ κ} : {Row : Type ℓ} {B : Type κ} → Outcome Row → (Row → Outcome B) → Outcome B
err raised >>= next = err raised
ok row >>= next = next row

abbrev pub ◌>>◌ {κ} : {B : Type κ} → Outcome (Unit {0}) → Outcome B → Outcome B
check >> rest = check >>= λ done. rest

-- The parts of a `do` block that has succeeded.
pub >>=-eq-ok {ℓ κ} :
    {Row : Type ℓ} {B : Type κ} (call : Outcome Row) (next : Row → Outcome B) {answer : B}
    → (call >>= next) ≡ ok answer
    → (row : Row) × (call ≡ ok row) × (next row ≡ ok answer)
>>=-eq-ok (err raised) next h = cc
>>=-eq-ok (ok row) next h = (row, refl, h)

pub guard-eq-ok : (b : Bool) (e : Error) {u : Unit {0}} → guard b e ≡ ok u → b ≡ true
guard-eq-ok true e h = refl
guard-eq-ok false e h = cc

pub require-eq-ok {ℓ} :
    {A : Type ℓ} (o : Option A) (e : Error) {a : A} → require o e ≡ ok a → o ≡ some a
require-eq-ok none e h = cc
require-eq-ok (some a) e h = ground arith

-- Equal answers of a call that returns a value and the database have equal parts.
module _ {A B : Type 0} where
  abbrev value_or : A × B → Outcome (A × B) → A × B
  value_or d (ok p) = p
  value_or d (err e) = d

  pub ok-eq-fst :
      (a a' : A) (b b' : B) → ◌≡◌ {A = Outcome (A × B)} (ok (a, b)) (ok (a', b')) → a ≡ a'
  ok-eq-fst a a' b b' h = ap (λ o. (value_or (a, b) o).0) h

  pub ok-eq-snd :
      (a a' : A) (b b' : B) → ◌≡◌ {A = Outcome (A × B)} (ok (a, b)) (ok (a', b')) → b ≡ b'
  ok-eq-snd a a' b b' h = ap (λ o. (value_or (a, b) o).1) h

pub Outcome-cases {ℓ} :
    {A : Type ℓ} (o : Outcome A) → ((a : A) × (o ≡ ok a)) ⊎ ((e : Error) × (o ≡ err e))
Outcome-cases (ok a) = inl (a, refl)
Outcome-cases (err e) = inr (e, refl)
