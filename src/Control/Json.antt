-- ===== src/Control/Json.antt =====
-- JSON values as Python's `json.loads` gives them to src/money_machine/control/state.py: the keys of an
-- object are texts. The tests of the forms that the state file uses, and what they mean.
use money_machine.Base.{
  String, Bool, true, false, ◌&&◌, ◌||◌, ◌≡◌, refl, sym, subst, ◌⊎◌, inl, inr, ◌↔◌, List, [], ◌∷◌,
  All, all_of, Dict, keys, same_keys, ℤ, arith, Bool-cases,
}

mutual
  pub data Json : Type 0 where
    null : Json
    flag : Bool → Json
    number : ℤ → Json
    decimal : String → Json
    text : String → Json
    array : Elements → Json
    object : Members → Json

  pub data Elements : Type 0 where
    end : Elements
    element : Json → Elements → Elements

  pub data Members : Type 0 where
    empty : Members
    member : String → Json → Members → Members

abbrev pub elements : Elements → List Json
elements end = []
elements (element j js) = j ∷ elements js

abbrev pub members : Members → Dict Json
members empty = []
members (member key j ms) = (key, j) ∷ members ms

-- `isinstance(value, str)`
unfoldable pub is_text : Json → Bool
is_text (text s) = true
is_text _ = false

-- `value is None`
unfoldable pub is_null : Json → Bool
is_null null = true
is_null _ = false

-- `isinstance(value, bool)`
unfoldable pub is_flag : Json → Bool
is_flag (flag b) = true
is_flag _ = false

-- `_is_int`
unfoldable pub is_int : Json → Bool
is_int (number n) = true
is_int _ = false

-- a list whose elements pass a test
unfoldable pub is_array_of : (Json → Bool) → Json → Bool
is_array_of test (array js) = all_of test (elements js)
is_array_of test _ = false

-- an object whose values pass a test
unfoldable pub is_object_of : (Json → Bool) → Json → Bool
is_object_of test (object ms) = all_of (λ m. test m.1) (members ms)
is_object_of test _ = false

-- an object with exactly these keys
unfoldable pub has_keys : List String → Json → Bool
has_keys names (object ms) = same_keys (keys (members ms)) names
has_keys names _ = false

abbrev pub IsText : Json → Type 0
IsText j = (s : String) × (j ≡ text s)

abbrev pub IsFlag : Json → Type 0
IsFlag j = (b : Bool) × (j ≡ flag b)

abbrev pub IsInt : Json → Type 0
IsInt j = (n : ℤ) × (j ≡ number n)

abbrev pub IsArrayOf : (Json → Type 0) → Json → Type 0
IsArrayOf P j = (js : Elements) × (j ≡ array js) × All P (elements js)

abbrev pub IsObjectOf : (Json → Type 0) → Json → Type 0
IsObjectOf P j = (ms : Members) × (j ≡ object ms) × All (λ m. P m.1) (members ms)

abbrev pub HasKeys : List String → Json → Type 0
HasKeys names j = (ms : Members) × (j ≡ object ms) × (same_keys (keys (members ms)) names ≡ true)

-- A test decides a form.
abbrev pub Decides : (Json → Bool) → (Json → Type 0) → Type 0
Decides test P = (j : Json) → (test j ≡ true) ↔ P j

pub is_text-Decides : Decides is_text IsText
unfolding is_text
is_text-Decides j = ((λ h. ground arith), (λ (s, e). rw e refl))

pub is_null-Decides : Decides is_null (λ j. j ≡ null)
unfolding is_null
is_null-Decides j = ((λ h. ground arith), (λ e. rw e refl))

pub is_flag-Decides : Decides is_flag IsFlag
unfolding is_flag
is_flag-Decides j = ((λ h. ground arith), (λ (b, e). rw e refl))

pub is_int-Decides : Decides is_int IsInt
unfolding is_int
is_int-Decides (number n) = ((λ h. (n, refl)), (λ p. refl))
is_int-Decides j = ((λ h. ground arith), (λ (n, e). cc))

pub has_keys-Decides : (names : List String) → Decides (has_keys names) (HasKeys names)
unfolding has_keys
has_keys-Decides names (object ms) = ((λ h. (ms, refl, h)), (λ (ns, e, h). ground arith))
has_keys-Decides names j = ((λ h. ground arith), (λ (ms, e, h). cc))

module _ {A : Type 0} (test : A → Bool) (P : A → Type 0)
    (decides : (x : A) → (test x ≡ true) ↔ P x) where
  pub all_of-All : (xs : List A) → all_of test xs ≡ true → All P xs
  all_of-All [] h = tt
  all_of-All (x ∷ xs) h = ((decides x).0 (ground arith), all_of-All xs (ground arith))

  pub All-all_of : (xs : List A) → All P xs → all_of test xs ≡ true
  All-all_of [] h = refl
  All-all_of (x ∷ xs) (h, hs) = ground (arith, (decides x).1 h, All-all_of xs hs)

module _ (test : Json → Bool) (P : Json → Type 0) (decides : Decides test P) where
  pub is_array_of-Decides : Decides (is_array_of test) (IsArrayOf P)
  unfolding is_array_of
  is_array_of-Decides (array js) = (
    (λ h. (js, refl, all_of-All test P decides (elements js) h)),
    (λ (ks, e, hs).
        subst (λ k. is_array_of test k ≡ true) (sym e)
          (All-all_of test P decides (elements ks) hs)),
  )
  is_array_of-Decides j = ((λ h. ground arith), (λ (js, e, hs). cc))

  pub is_object_of-Decides : Decides (is_object_of test) (IsObjectOf P)
  unfolding is_object_of
  is_object_of-Decides (object ms) = (
    (λ h. (ms, refl, all_of-All (λ m. test m.1) (λ m. P m.1) (λ m. decides m.1) (members ms) h)),
    (λ (ns, e, hs).
        subst (λ k. is_object_of test k ≡ true) (sym e)
          (All-all_of (λ m. test m.1) (λ m. P m.1) (λ m. decides m.1) (members ns) hs)),
  )
  is_object_of-Decides j = ((λ h. ground arith), (λ (ms, e, hs). cc))

module _ {s t : Json → Bool} {P Q : Json → Type 0} (left : Decides s P) (right : Decides t Q) where
  pub or-Decides : Decides (λ j. s j || t j) (λ j. P j ⊎ Q j)
  or-Decides j = (
    (λ h. elim (Bool-cases (s j)) [
      | inl holds ↦ inl ((left j).0 holds)
      | inr fails ↦ inr ((right j).0 (ground arith))
    ]),
    (λ p. elim p [ inl x ↦ ground (arith, (left j).1 x) | inr y ↦ ground (arith, (right j).1 y) ]),
  )

  pub and-Decides : Decides (λ j. s j && t j) (λ j. P j × Q j)
  and-Decides j = (
    (λ h. ((left j).0 (ground arith), (right j).0 (ground arith))),
    (λ (x, y). ground (arith, (left j).1 x, (right j).1 y)),
  )
