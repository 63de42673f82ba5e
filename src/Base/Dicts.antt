-- ===== src/Base/Dicts.antt =====
-- Dictionaries with text keys as association lists, and equality of lists, options and dictionaries.
-- Two dictionaries are equal whatever their order, as in Python.
use Prim.Native.Nat.{ℕ, zero, suc, ◌+◌}
use Prim.Native.String.{String}
use mathlib.Core.Path.{◌≡◌, refl}
use mathlib.Core.Logic.{inl, inr}
use mathlib.Core.Bool.{Bool, true, false, ◌&&◌, ◌||◌}
use mathlib.Core.Option.{Option, none, some}
use mathlib.Core.List.{List, [], ◌∷◌, ◌++◌, map}
use native.Mathlib.Omega.{arith}
use native.Mathlib.Numerals.{add-one}
use text.Mathlib.TextEquality.{eq_iff}
use money_machine.Base.Tests.{◌==◌, ==_iff, str_eq, if◌then◌else◌, Bool-cases}

-- `Dict V` as Python's `dict[str, V]`
abbrev pub Dict : Type 0 → Type 0
Dict V = List (String × V)

module _ {A : Type 0} where
  abbrev pub all_of : (A → Bool) → List A → Bool
  all_of p [] = true
  all_of p (x ∷ xs) = p x && all_of p xs

  unfoldable pub list_eq : (A → A → Bool) → List A → List A → Bool
  list_eq eq [] [] = true
  list_eq eq (x ∷ xs) (y ∷ ys) = eq x y && list_eq eq xs ys
  list_eq eq _ _ = false

  abbrev pub option_eq : (A → A → Bool) → Option A → Option A → Bool
  option_eq eq none none = true
  option_eq eq (some x) (some y) = eq x y
  option_eq eq _ _ = false

  pub list_eq-eq :
      (eq : A → A → Bool) (sound : (x y : A) → eq x y ≡ true → x ≡ y) (xs ys : List A)
      → list_eq eq xs ys ≡ true
      → xs ≡ ys
  unfolding list_eq
  list_eq-eq eq sound [] [] h = refl
  list_eq-eq eq sound (x ∷ xs) (y ∷ ys) h = ground (arith, sound x y, list_eq-eq eq sound xs ys)
  list_eq-eq eq sound [] (y ∷ ys) h = cc
  list_eq-eq eq sound (x ∷ xs) [] h = cc

  pub option_eq-eq :
      (eq : A → A → Bool) (sound : (x y : A) → eq x y ≡ true → x ≡ y) (a b : Option A)
      → option_eq eq a b ≡ true
      → a ≡ b
  option_eq-eq eq sound none none h = refl
  option_eq-eq eq sound (some x) (some y) h = ground (arith, sound x y)
  option_eq-eq eq sound none (some y) h = cc
  option_eq-eq eq sound (some x) none h = cc

pub str_eq-eq : (s t : String) → str_eq s t ≡ true → s ≡ t
str_eq-eq s t = (eq_iff s t).0

pub eq-str_eq : (s t : String) → s ≡ t → str_eq s t ≡ true
eq-str_eq s t = (eq_iff s t).1

pub ==-eq : (a b : ℕ) → (a == b) ≡ true → a ≡ b
==-eq a b = (==_iff a b).0

-- `s in xs`
unfoldable pub contains_str : String → List String → Bool
contains_str s [] = false
contains_str s (x ∷ xs) = str_eq x s || contains_str s xs

-- equal as sets
unfoldable pub same_keys : List String → List String → Bool
same_keys xs ys = all_of (λ x. contains_str x ys) xs && all_of (λ y. contains_str y xs) ys

contains_all :
    (s : String) (xs ys : List String)
    → contains_str s xs ≡ true
    → all_of (λ x. contains_str x ys) xs ≡ true
    → contains_str s ys ≡ true
unfolding contains_str
contains_all s [] ys h k = cc
contains_all s (x ∷ xs) ys h k = elim (Bool-cases (str_eq x s)) [
  | inl same ↦ ground (arith, str_eq-eq x s same)
  | inr other ↦ ground (arith, contains_all s xs ys)
]

all_of_trans :
    (xs ys zs : List String)
    → all_of (λ x. contains_str x ys) xs ≡ true
    → all_of (λ y. contains_str y zs) ys ≡ true
    → all_of (λ x. contains_str x zs) xs ≡ true
all_of_trans [] ys zs h k = refl
all_of_trans (x ∷ xs) ys zs h k = ground (arith, contains_all x ys zs, all_of_trans xs ys zs)

pub same_keys_trans :
    (xs ys zs : List String)
    → same_keys xs ys ≡ true
    → same_keys ys zs ≡ true
    → same_keys xs zs ≡ true
unfolding same_keys
same_keys_trans xs ys zs h k = ground (arith, all_of_trans xs ys zs, all_of_trans zs ys xs)

module _ {V : Type 0} where
  abbrev pub keys : Dict V → List String
  keys = map (λ entry. entry.0)

  unfoldable pub lookup : String → Dict V → Option V
  lookup k [] = none
  lookup k ((j, v) ∷ d) = if str_eq j k then some v else lookup k d

  -- `d.pop(k, None)`
  unfoldable pub without : String → Dict V → Dict V
  without k [] = []
  without k ((j, v) ∷ d) = let rest = without k d in if str_eq j k then rest else (j, v) ∷ rest

  unfoldable pub dict_eq : (V → V → Bool) → Dict V → Dict V → Bool
  unfolding same_keys lookup
  dict_eq eq d e =
      same_keys (keys d) (keys e)
      && all_of (λ entry. option_eq eq (lookup entry.0 e) (some entry.1)) d

-- `list(range(n))`
unfoldable pub range : ℕ → List ℕ
range zero = []
range (suc n) = range n ++ (n ∷ [])

pub range-add_one : (n : ℕ) → range (n + 1) ≡ range n ++ (n ∷ [])
unfolding range
range-add_one n = rw add-one
