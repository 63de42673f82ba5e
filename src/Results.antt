-- ===== src/Results.antt =====
-- Computations that may stop with an error of any type, for the parts of the program that raise
-- exceptions of their own.
use money_machine.Base.{◌≡◌, refl, subst, ◌⊎◌, inl, inr, Bool, true, false, Option, none, some}

pub data Result {ℓ} (E A : Type ℓ) : Type ℓ where
  done : A → Result E A
  refused : E → Result E A

module _ {E : Type 0} where
  -- `if not test: raise e`
  abbrev pub check : Bool → E → Result E (Unit {0})
  check true e = done tt
  check false e = refused e

  -- `if value is None: raise e`
  abbrev pub present : {A : Type 0} → Option A → E → Result E A
  present (some a) e = done a
  present none e = refused e

  infixl 5 ◌>>=◌ ◌>>◌
  abbrev pub ◌>>=◌ : {A B : Type 0} → Result E A → (A → Result E B) → Result E B
  done a >>= next = next a
  refused e >>= next = refused e

  abbrev pub ◌>>◌ : {B : Type 0} → Result E (Unit {0}) → Result E B → Result E B
  call >> rest = call >>= λ _. rest

  -- The parts of a `do` block that has ended.
  pub >>=-eq-done :
      {A B : Type 0} (call : Result E A) (next : A → Result E B) {answer : B}
      → (call >>= next) ≡ done answer
      → (a : A) × (call ≡ done a) × (next a ≡ done answer)
  >>=-eq-done (done a) next h = (a, refl, h)
  >>=-eq-done (refused e) next h = cc

  pub >>-eq-done :
      {B : Type 0} (b : Bool) (e : E) (rest : Result E B) {answer : B}
      → (check b e >> rest) ≡ done answer
      → (b ≡ true) × (rest ≡ done answer)
  >>-eq-done true e rest h = (refl, h)
  >>-eq-done false e rest h = cc

  pub call-eq-done :
      {B : Type 0} (call : Result E (Unit {0})) (rest : Result E B) {answer : B}
      → (call >> rest) ≡ done answer
      → (call ≡ done tt) × (rest ≡ done answer)
  call-eq-done (done u) rest h = (refl, h)
  call-eq-done (refused e) rest h = cc

  pub present-eq-done :
      {A B : Type 0} (o : Option A) (e : E) (next : A → Result E B) {answer : B}
      → (present o e >>= next) ≡ done answer
      → (a : A) × (o ≡ some a) × (next a ≡ done answer)
  present-eq-done (some a) e next h = (a, refl, h)
  present-eq-done none e next h = cc

  pub check-eq-done : (b : Bool) (e : E) {u : Unit {0}} → check b e ≡ done u → b ≡ true
  check-eq-done true e h = refl
  check-eq-done false e h = cc

  pub Result-cases :
      {A : Type 0} (r : Result E A) → ((a : A) × (r ≡ done a)) ⊎ ((e : E) × (r ≡ refused e))
  Result-cases (done a) = inl (a, refl)
  Result-cases (refused e) = inr (e, refl)

  -- what holds of a result where there is one
  abbrev pub IfDone : {A : Type 0} → (A → Type 0) → Result E A → Type 0
  IfDone P (done a) = P a
  IfDone P (refused e) = Unit

  pub IfDone-bind :
      {A B : Type 0} {P : A → Type 0} (Q : B → Type 0) (call : Result E A) (next : A → Result E B)
      → IfDone P call
      → ((a : A) → P a → IfDone Q (next a))
      → IfDone Q (call >>= next)
  IfDone-bind Q (done a) next p rest = rest a p
  IfDone-bind Q (refused e) next p rest = tt

  pub IfDone-check :
      {B : Type 0} (Q : B → Type 0) (b : Bool) (e : E) (rest : Result E B)
      → (b ≡ true → IfDone Q rest)
      → IfDone Q (check b e >> rest)
  IfDone-check Q true e rest h = h refl
  IfDone-check Q false e rest h = tt

  pub IfDone-done :
      {A : Type 0} (P : A → Type 0) (call : Result E A) {a : A}
      → call ≡ done a
      → IfDone P call
      → P a
  IfDone-done P call e p = subst (IfDone P) e p
