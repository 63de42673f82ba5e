-- ===== src/Base/Bulk.antt =====
-- A bulk update: the rows that a query selects are changed and flushed, each under its key.
use Prim.Native.Nat.{ℕ}
use mathlib.Core.Path.{◌≡◌, refl, ap, sym, ◌∙◌}
use mathlib.Core.Logic.{◌≢◌, inl, inr}
use mathlib.Core.Bool.{Bool, true, false}
use mathlib.Core.Option.{none}
use mathlib.Core.List.{List, [], ◌∷◌, map}
use native.Mathlib.Omega.{arith}
use money_machine.Base.Tests.{◌==◌, if◌then◌else◌, Bool-cases}
use money_machine.Base.Lists.{All, All-map, All-select, select}
use money_machine.Base.Rows.{get, save, save_all}

module _ {A : Type 0} (key : A → ℕ) where
  -- the primary key: no two rows share one
  abbrev pub HasUniqueKeys : List A → Type 0
  HasUniqueKeys [] = Unit
  HasUniqueKeys (x ∷ xs) = (get key (key x) xs ≡ none) × HasUniqueKeys xs

  save-absent : (r : A) (xs : List A) → get key (key r) xs ≡ none → save key r xs ≡ xs
  unfolding get save
  save-absent r [] h = refl
  save-absent r (x ∷ xs) h = ground (arith, save-absent r xs)

  save_all-cons :
      (x : A) (rs xs : List A)
      → All (λ r. key r ≢ key x) rs
      → save_all key rs (x ∷ xs) ≡ x ∷ save_all key rs xs
  unfolding save save_all
  save_all-cons x [] xs h = refl
  save_all-cons x (r ∷ rs) xs h =
      let miss : (key x == key r) ≡ false = ground (arith, h.0) in
      rw miss (save_all-cons x rs (save key r xs) h.1)

  absent-All : (k : ℕ) (xs : List A) → get key k xs ≡ none → All (λ x. key x ≢ k) xs
  unfolding get
  absent-All k [] h = tt
  absent-All k (x ∷ xs) h = ((λ e. ground arith), absent-All k xs (ground arith))

  save_all-hit :
      (r x : A) (rs xs : List A)
      → key r ≡ key x
      → get key (key x) xs ≡ none
      → All (λ s. key s ≢ key x) rs
      → save_all key (r ∷ rs) (x ∷ xs) ≡ r ∷ save_all key rs xs
  unfolding save_all save
  save_all-hit r x rs xs same absent others =
      let hit : (key x == key r) ≡ true = ground arith in
      let kept : save key r xs ≡ xs = save-absent r xs (rw same absent) in
      rw (hit, kept) (save_all-cons r rs xs (All-map _ rs (λ s other e. other (e ∙ same)) others))

  module _ (p : A → Bool) (f : A → A) (same : (x : A) → key (f x) ≡ key x) where
    abbrev pub change : A → A
    change x = if p x then f x else x

    others-map : (k : ℕ) (xs : List A) → All (λ x. key x ≢ k) xs → All (λ x. key x ≢ k) (map f xs)
    others-map k [] h = tt
    others-map k (x ∷ xs) h = ((λ e. h.0 (sym (same x) ∙ e)), others-map k xs h.1)

    others-select :
        (x : A) (xs : List A)
        → get key (key x) xs ≡ none
        → All (λ s. key s ≢ key x) (map f (select p xs))
    others-select x xs h = others-map (key x) _ (All-select _ p xs (absent-All (key x) xs h))

    -- With unique keys a bulk update changes the selected rows in place, and no other.
    pub save_all-select :
        (xs : List A) → HasUniqueKeys xs → save_all key (map f (select p xs)) xs ≡ map change xs
    unfolding select
    save_all-select [] h = unfold save_all in refl
    save_all-select (x ∷ xs) h = elim (Bool-cases (p x)) [
      | inl hit ↦ rw hit (
          save_all-hit (f x) x _ xs (same x) h.0 (others-select x xs h.0)
          ∙ ap (◌∷◌ (f x)) (save_all-select xs h.1))
      | inr miss ↦
          rw miss
            (save_all-cons x _ xs (others-select x xs h.0) ∙ ap (◌∷◌ x) (save_all-select xs h.1))
    ]
