-- ===== src/Base/Order.antt =====
-- `ORDER BY` a column, ascending; rows with equal columns stay in table order.
use Prim.Native.Nat.{ℕ, ◌+◌, ◌≤◌}
use mathlib.Core.Path.{◌≡◌, refl, subst}
use mathlib.Core.Logic.{inl, inr}
use mathlib.Core.Option.{Option, none, some}
use mathlib.Core.List.{List, [], ◌∷◌, Memᴰ}
use native.Mathlib.Omega.{arith}
use money_machine.Base.Tests.{leb, if◌then◌else◌, Bool-cases, Option-cases}
use money_machine.Base.Lists.{All, All-map}

module _ {A : Type 0} (measure : A → ℕ) where
  abbrev pub sum_by : List A → ℕ
  sum_by [] = 0
  sum_by (x ∷ xs) = measure x + sum_by xs

module _ {A : Type 0} (column : A → ℕ) where
  place : A → List A → List A
  place x [] = x ∷ []
  place x (y ∷ ys) =
      let rest = place x ys in if leb (column x) (column y) then x ∷ y ∷ ys else y ∷ rest

  unfoldable pub order_by : List A → List A
  unfolding place
  order_by [] = []
  order_by (x ∷ xs) = place x (order_by xs)

  -- `ORDER BY column DESC LIMIT 1`
  unfoldable pub latest : List A → Option A
  latest [] = none
  latest (x ∷ xs) = elim (latest xs) [
    | none ↦ some x
    | some y ↦ if leb (column y) (column x) then some x else some y
  ]

  latest-none : (xs : List A) → latest xs ≡ none → xs ≡ []
  unfolding latest
  latest-none [] h = refl
  latest-none (x ∷ xs) h = ground arith

  -- what `latest` finds: no row in an empty table, else a row with the greatest column
  abbrev pub Latest : List A → Option A → Type 0
  Latest xs none = xs ≡ []
  Latest xs (some x) = Memᴰ x xs × All (λ y. column y ≤ column x) xs

  Latest-cons :
      (x y : A) (xs : List A)
      → Latest xs (some y)
      → Latest (x ∷ xs) (if leb (column y) (column x) then some x else some y)
  Latest-cons x y xs h = elim (Bool-cases (leb (column y) (column x))) [
    | inl above ↦ rw above (Memᴰ.head refl, (omega arith, All-map _ xs (λ z le. ground arith) h.1))
    | inr below ↦ rw below (Memᴰ.tail h.0, (ground arith, h.1))
  ]

  pub latest-Latest : (xs : List A) → Latest xs (latest xs)
  unfolding latest
  latest-Latest [] = refl
  latest-Latest (x ∷ xs) = elim (Option-cases (latest xs)) [
    | inl e ↦ rw (e, latest-none xs e) (Memᴰ.head refl, (omega arith, tt))
    | inr (y, e) ↦ rw e (Latest-cons x y xs (subst (Latest xs) e (latest-Latest xs)))
  ]

  module _ (measure : A → ℕ) where
    sum_by-place :
        (x : A) (xs : List A) → sum_by measure (place x xs) ≡ measure x + sum_by measure xs
    unfolding place
    sum_by-place x [] = refl
    sum_by-place x (y ∷ ys) = ground (arith, sum_by-place x ys)

    -- the order of the rows does not change a sum over them
    pub sum_by-order_by : (xs : List A) → sum_by measure (order_by xs) ≡ sum_by measure xs
    unfolding order_by
    sum_by-order_by [] = refl
    sum_by-order_by (x ∷ xs) = omega (arith, sum_by-place x (order_by xs), sum_by-order_by xs)

  module _ {ℓ} (P : A → Type ℓ) where
    All-place : (x : A) (xs : List A) → P x → All P xs → All P (place x xs)
    unfolding place
    All-place x [] p h = (p, tt)
    All-place x (y ∷ ys) p h = ground (arith, All-place x ys p h.1)

    pub All-order_by : (xs : List A) → All P xs → All P (order_by xs)
    unfolding order_by
    All-order_by [] h = tt
    All-order_by (x ∷ xs) h = All-place x (order_by xs) h.0 (All-order_by xs h.1)

  mem-place : (x : A) {z : A} (xs : List A) → Memᴰ z (x ∷ xs) → Memᴰ z (place x xs)
  unfolding place
  mem-place x [] m = m
  mem-place x (y ∷ ys) m = elim (Bool-cases (leb (column x) (column y))) [
    | inl first ↦ rw first m
    | inr later ↦ rw later (elim m [
      | Memᴰ.head e ↦ Memᴰ.tail (mem-place x ys (Memᴰ.head e))
      | Memᴰ.tail (Memᴰ.head e) ↦ Memᴰ.head e
      | Memᴰ.tail (Memᴰ.tail n) ↦ Memᴰ.tail (mem-place x ys (Memᴰ.tail n))
    ])
  ]

  pub mem-order_by : {z : A} (xs : List A) → Memᴰ z xs → Memᴰ z (order_by xs)
  unfolding order_by
  mem-order_by [] m = m
  mem-order_by (x ∷ xs) (Memᴰ.head e) = mem-place x (order_by xs) (Memᴰ.head e)
  mem-order_by (x ∷ xs) (Memᴰ.tail m) = mem-place x (order_by xs) (Memᴰ.tail (mem-order_by xs m))

  -- what the first row of `order_by` is: a row with the least column
  abbrev pub First : List A → List A → Type 0
  First xs [] = xs ≡ []
  First xs (x ∷ rest) = Memᴰ x xs × All (λ y. column x ≤ column y) xs

  First-place : (x : A) (sorted xs : List A) → First xs sorted → First (x ∷ xs) (place x sorted)
  unfolding place
  First-place x [] xs h = rw h (Memᴰ.head refl, (omega arith, tt))
  First-place x (y ∷ ys) xs h = elim (Bool-cases (leb (column x) (column y))) [
    | inl first ↦ rw first (Memᴰ.head refl, (omega arith, All-map _ xs (λ z le. ground arith) h.1))
    | inr later ↦ rw later (Memᴰ.tail h.0, (ground arith, h.1))
  ]

  pub order_by-First : (xs : List A) → First xs (order_by xs)
  unfolding order_by
  order_by-First [] = refl
  order_by-First (x ∷ xs) = First-place x (order_by xs) xs (order_by-First xs)
