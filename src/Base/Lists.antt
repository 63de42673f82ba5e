-- ===== src/Base/Lists.antt =====
-- Lists measured by native numbers, predicates on every item, and `WHERE` and `LIMIT`.
use Prim.Native.Nat.{ℕ, zero, suc, ◌≤◌}
use mathlib.Core.Path.{◌≡◌, refl, sym, ap, ◌∙◌}
use mathlib.Core.Logic.{◌⊎◌, inl, inr}
use mathlib.Core.Bool.{Bool, true, false}
use mathlib.Core.Option.{Option, none, some}
use mathlib.Core.List.{List, [], ◌∷◌, ◌++◌, map, Memᴰ}
use native.Mathlib.Omega.{arith}
use money_machine.Base.Tests.{if◌then◌else◌, Bool-cases}

module _ {ℓ} {A : Type ℓ} where
  abbrev pub length : List A → ℕ
  length [] = 0
  length (x ∷ xs) = suc (length xs)

  abbrev pub get_elem? : List A → ℕ → Option A
  get_elem? [] i = none
  get_elem? (x ∷ xs) zero = some x
  get_elem? (x ∷ xs) (suc i) = get_elem? xs i

  abbrev pub take : ℕ → List A → List A
  take zero xs = []
  take (suc n) [] = []
  take (suc n) (x ∷ xs) = x ∷ take n xs

  -- the rows that a `WHERE` clause keeps
  unfoldable pub select : (A → Bool) → List A → List A
  select p [] = []
  select p (x ∷ xs) = let rest = select p xs in if p x then x ∷ rest else rest

  -- `EXISTS (SELECT ... WHERE p)`
  unfoldable pub exists : (A → Bool) → List A → Bool
  exists p [] = false
  exists p (x ∷ xs) = if p x then true else exists p xs

  abbrev pub All {κ} : (A → Type κ) → List A → Type κ
  All P [] = Unit
  All P (x ∷ xs) = P x × All P xs

module _ {ℓ κ} {A : Type ℓ} (P : A → Type κ) where
  pub All-map {μ} : {Q : A → Type μ} (xs : List A) → ((x : A) → P x → Q x) → All P xs → All Q xs
  All-map [] f h = tt
  All-map (x ∷ xs) f h = (f x h.0, All-map xs f h.1)

  pub All-take : (n : ℕ) (xs : List A) → All P xs → All P (take n xs)
  All-take zero xs h = tt
  All-take (suc n) [] h = tt
  All-take (suc n) (x ∷ xs) h = (h.0, All-take n xs h.1)

  pub All-select : (p : A → Bool) (xs : List A) → All P xs → All P (select p xs)
  unfolding select
  All-select p [] h = tt
  All-select p (x ∷ xs) h = ground (arith, All-select p xs h.1)

  pub All-append : (xs ys : List A) → All P xs → All P ys → All P (xs ++ ys)
  All-append [] ys h k = k
  All-append (x ∷ xs) ys h k = (h.0, All-append xs ys h.1 k)

  pub All-mem : {x : A} (xs : List A) → Memᴰ x xs → All P xs → P x
  All-mem [] m h = elim m [ ]
  All-mem (y ∷ xs) (Memᴰ.head e) h = rw e h.0
  All-mem (y ∷ xs) (Memᴰ.tail m) h = All-mem xs m h.1

module _ {ℓ} {A : Type ℓ} where
  -- what `select` keeps passes the test
  pub select-All : (p : A → Bool) (xs : List A) → All (λ x. p x ≡ true) (select p xs)
  unfolding select
  select-All p [] = tt
  select-All p (x ∷ xs) = ground (arith, select-All p xs)

  mem-select_cons :
      (p : A → Bool) {x y : A} {xs kept : List A}
      → p y ≡ true
      → (Memᴰ x kept → Memᴰ x xs × (p x ≡ true))
      → Memᴰ x (y ∷ kept)
      → Memᴰ x (y ∷ xs) × (p x ≡ true)
  mem-select_cons p e rest (Memᴰ.head q) = (Memᴰ.head q, ap p q ∙ e)
  mem-select_cons p e rest (Memᴰ.tail m) = let r = rest m in (Memᴰ.tail r.0, r.1)

  -- what `select` keeps is a row of the table that passes the test
  pub mem-select :
      (p : A → Bool) {x : A} (xs : List A) → Memᴰ x (select p xs) → Memᴰ x xs × (p x ≡ true)
  unfolding select
  mem-select p [] m = elim m [ ]
  mem-select p {x} (y ∷ xs) m = elim (Bool-cases (p y)) [
    | inl kept ↦ mem-select_cons p kept (mem-select p xs) (rw kept at m)
    | inr dropped ↦ let r = mem-select p xs (rw dropped at m) in (Memᴰ.tail r.0, r.1)
  ]

  pub selected :
      (p : A → Bool) {x : A} (xs : List A) → Memᴰ x xs → p x ≡ true → Memᴰ x (select p xs)
  unfolding select
  selected p [] m holds = m
  selected p (y ∷ xs) (Memᴰ.head e) holds =
      let kept : p y ≡ true = sym (ap p e) ∙ holds in rw kept (Memᴰ.head e)
  selected p (y ∷ xs) (Memᴰ.tail m) holds = elim (Bool-cases (p y)) [
    | inl kept ↦ rw kept (Memᴰ.tail (selected p xs m holds))
    | inr dropped ↦ rw dropped (selected p xs m holds)
  ]

  -- a row is among the first n, or these are n others
  pub mem-take :
      (n : ℕ) {x : A} (xs : List A) → Memᴰ x xs → Memᴰ x (take n xs) ⊎ (length (take n xs) ≡ n)
  mem-take zero xs m = inr refl
  mem-take (suc n) [] m = elim m [ ]
  mem-take (suc n) (y ∷ xs) (Memᴰ.head e) = inl (Memᴰ.head e)
  mem-take (suc n) (y ∷ xs) (Memᴰ.tail m) = elim (mem-take n xs m) [
    | inl there ↦ inl (Memᴰ.tail there)
    | inr full ↦ inr (ap suc full)
  ]

  pub length-take-le : (n : ℕ) (xs : List A) → length (take n xs) ≤ n
  length-take-le zero xs = omega arith
  length-take-le (suc n) [] = omega arith
  length-take-le (suc n) (x ∷ xs) = omega (arith, length-take-le n xs)

pub length-map {ℓ κ} :
    {A : Type ℓ} {B : Type κ} (f : A → B) (xs : List A) → length (map f xs) ≡ length xs
length-map f [] = refl
length-map f (x ∷ xs) = ap suc (length-map f xs)
