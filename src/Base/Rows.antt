-- ===== src/Base/Rows.antt =====
-- A table as the list of its rows, and its primary key.
use Prim.Native.Nat.{ℕ}
use mathlib.Core.Path.{◌≡◌, refl, subst, ap, sym, ◌∙◌}
use mathlib.Core.Logic.{inl, inr}
use mathlib.Core.Bool.{false}
use mathlib.Core.Option.{Option, none, some}
use mathlib.Core.List.{List, [], ◌∷◌, Memᴰ}
use native.Mathlib.Omega.{arith}
use money_machine.Base.Tests.{◌==◌, if◌then◌else◌, is_none, Bool-cases}
use money_machine.Base.Lists.{All, All-map}

module _ {A : Type 0} (key : A → ℕ) where
  -- `session.get`: the row with the key
  unfoldable pub get : ℕ → List A → Option A
  get k [] = none
  get k (x ∷ xs) = if key x == k then some x else get k xs

  -- the flush of a changed row: it is written over the row with its key
  unfoldable pub save : A → List A → List A
  save r [] = []
  save r (x ∷ xs) = let rest = save r xs in if key x == key r then r ∷ rest else x ∷ rest

  -- the flush of several changed rows
  unfoldable pub save_all : List A → List A → List A
  save_all [] xs = xs
  save_all (r ∷ rs) xs = save_all rs (save r xs)

  pub get-save :
      (k : ℕ) (r : A) (xs : List A)
      → get k (save r xs)
        ≡ (if key r == k then (if is_none (get k xs) then none else some r) else get k xs)
  unfolding get save
  get-save k r [] = ground arith
  get-save k r (x ∷ xs) = ground (arith, get-save k r xs)

  -- the row that is found has the key
  pub key-get : (k : ℕ) (xs : List A) {r : A} → get k xs ≡ some r → key r ≡ k
  unfolding get
  key-get k [] h = cc
  key-get k (x ∷ xs) {r} h = ground (arith, key-get k xs {r = r})

  module _ {ℓ} (P : A → Type ℓ) where
    pub All-save : (r : A) (xs : List A) → P r → All P xs → All P (save r xs)
    unfolding save
    All-save r [] p h = tt
    All-save r (x ∷ xs) p h = ground (arith, All-save r xs p h.1)

    pub All-save_all : (rs xs : List A) → All P rs → All P xs → All P (save_all rs xs)
    unfolding save_all
    All-save_all [] xs p h = h
    All-save_all (r ∷ rs) xs p h = All-save_all rs (save r xs) p.1 (All-save r xs p.0 h)

    pub All-get : (k : ℕ) (xs : List A) {r : A} → get k xs ≡ some r → All P xs → P r
    unfolding get
    All-get k [] e h = cc
    All-get k (x ∷ xs) {r} e h = elim (Bool-cases (key x == k)) [
      | inl here ↦ let q : x ≡ r = ground arith in subst P q h.0
      | inr later ↦ All-get k xs (rw later at e) h.1
    ]

  -- a row with the key of the saved row is the saved row
  pub save-saved : (r : A) (xs : List A) → All (λ x. key x ≡ key r → x ≡ r) (save r xs)
  unfolding save
  save-saved r [] = tt
  save-saved r (x ∷ xs) = elim (Bool-cases (key x == key r)) [
    | inl same ↦ rw same ((λ _. refl), save-saved r xs)
    | inr other ↦ rw other ((λ e. ground arith), save-saved r xs)
  ]

  -- a row of the table is found under its key, if not itself then one before it
  pub get-mem : (x : A) (xs : List A) → Memᴰ x xs → is_none (get (key x) xs) ≡ false
  unfolding get
  get-mem x [] m = elim m [ ]
  get-mem x (y ∷ xs) (Memᴰ.head e) = let k : key x ≡ key y = ap key e in ground arith
  get-mem x (y ∷ xs) (Memᴰ.tail m) = ground (arith, get-mem x xs m)

  module _ {ℓ} (P : A → Type ℓ) where
    -- after the flush of rows that all have P, a row with the key of one of them has P
    pub save_all-saved :
        (r : A) (rs xs : List A)
        → Memᴰ r rs
        → All P rs
        → All (λ x. key x ≡ key r → P x) (save_all rs xs)
    unfolding save_all
    save_all-saved r [] xs m h = elim m [ ]
    save_all-saved r (s ∷ rs) xs (Memᴰ.head e) h =
        All-save_all (λ x. key x ≡ key r → P x) rs (save s xs) (All-map P rs (λ x p _. p) h.1)
          (All-map (λ x. key x ≡ key s → x ≡ s) (save s xs)
            (λ x is_s same. subst P (sym (is_s (same ∙ ap key e))) h.0) (save-saved s xs))
    save_all-saved r (s ∷ rs) xs (Memᴰ.tail m) h = save_all-saved r rs (save s xs) m h.1
