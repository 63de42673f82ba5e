-- ===== src/Eligibility/Sorting.antt =====
-- Python's `sorted`, which is stable: insertion by a test that holds of equals.
use money_machine.Base.{
  ℕ, zero, suc, ◌≤◌, ◌≡◌, refl, ap, sym, subst, some, get_elem?, select, Bool, true, false, List,
  [], ◌∷◌, ◌++◌, ◌⊎◌, if◌then◌else◌, All, All-map, length, arith, Bool-cases, inl, inr,
}

module _ {A : Type 0} (le : A → A → Bool) where
  insert : A → List A → List A
  insert x [] = x ∷ []
  insert x (y ∷ ys) = let rest = insert x ys in if le x y then x ∷ y ∷ ys else y ∷ rest

  unfoldable pub sort_by : List A → List A
  unfolding insert
  sort_by [] = []
  sort_by (x ∷ xs) = insert x (sort_by xs)

  length-insert : (x : A) (xs : List A) → length (insert x xs) ≡ suc (length xs)
  unfolding insert
  length-insert x [] = refl
  length-insert x (y ∷ ys) = ground (arith, length-insert x ys)

  pub length-sort_by : (xs : List A) → length (sort_by xs) ≡ length xs
  unfolding sort_by
  length-sort_by [] = refl
  length-sort_by (x ∷ xs) = omega (arith, length-insert x (sort_by xs), length-sort_by xs)

  -- every item stands before what follows it
  abbrev pub IsSorted : List A → Type 0
  IsSorted [] = Unit
  IsSorted (x ∷ xs) = All (λ y. le x y ≡ true) xs × IsSorted xs

  -- the first item after an insertion is the new one or the old first
  insert-first :
      (x : A) (zs : List A) {best : A} {others : List A}
      → insert x zs ≡ best ∷ others
      → ((x ≡ best) × (zs ≡ others)) ⊎ ((ys : List A) × (zs ≡ best ∷ ys) × (others ≡ insert x ys))
  unfolding insert
  insert-first x [] e = inl (ground arith, ground arith)
  insert-first x (z ∷ zs) e = elim (Bool-cases (le x z)) [
    | inl before ↦ inl (ground arith, ground arith)
    | inr after ↦ inr (zs, ground arith, ground arith)
  ]

  module _ (P : A → Type 0) where
    All-insert : (x : A) (xs : List A) → P x → All P xs → All P (insert x xs)
    unfolding insert
    All-insert x [] p h = (p, tt)
    All-insert x (y ∷ ys) p h = ground (arith, All-insert x ys p h.1)

    insert-All : (x : A) (xs : List A) → All P (insert x xs) → P x × All P xs
    unfolding insert
    insert-All x [] h = h
    insert-All x (y ∷ ys) h = elim (Bool-cases (le x y)) [
      | inl before ↦ rw before at h
      | inr after ↦
          let h' : P y × All P (insert x ys) = rw after at h in
          let (p, rest) = insert-All x ys h'.1 in (p, (h'.0, rest))
    ]

    pub All-sort_by : (xs : List A) → All P xs → All P (sort_by xs)
    unfolding sort_by
    All-sort_by [] h = tt
    All-sort_by (x ∷ xs) h = All-insert x (sort_by xs) h.0 (All-sort_by xs h.1)

    -- what holds of the sorted items holds of the items
    pub sort_by-All : (xs : List A) → All P (sort_by xs) → All P xs
    unfolding sort_by
    sort_by-All [] h = tt
    sort_by-All (x ∷ xs) h = let (p, rest) = insert-All x (sort_by xs) h in (p, sort_by-All xs rest)

    -- The first sorted item stands somewhere among the items, and the others around it.
    pub top-split :
        (xs : List A) {best : A} {others : List A}
        → sort_by xs ≡ best ∷ others
        → All P others
        → (before after : List A) × (xs ≡ before ++ (best ∷ after)) × All P before × All P after
    unfolding sort_by
    top-split [] e h = cc
    top-split (x ∷ xs) {best} {others} e h = elim (insert-first x (sort_by xs) e) [
      | inl (same, rest) ↦
          ([], xs, ap (λ z. z ∷ xs) same, tt, sort_by-All xs (subst (All P) (sym rest) h))
      | inr (ys, sorted, rest) ↦
          let (p, hs) = insert-All x ys (subst (All P) rest h) in
          let (before, after, split, left, right) = top-split xs sorted hs in
          (x ∷ before, after, ap (λ zs. x ∷ zs) split, (p, left), right)
    ]

    module _ (best : A) (first : (y : A) → P y → le best y ≡ true)
        (last : (y : A) → P y → le y best ≡ false) where
      insert-top : (zs : List A) → All P zs → insert best zs ≡ best ∷ zs
      unfolding insert
      insert-top [] h = refl
      insert-top (z ∷ zs) h = ground (arith, first z h.0)

      -- an item that stands before all the others comes first
      pub sort_by-top :
          (before after : List A)
          → All P before
          → All P after
          → sort_by (before ++ (best ∷ after)) ≡ best ∷ sort_by (before ++ after)
      unfolding sort_by insert
      sort_by-top [] after h k = insert-top (sort_by after) (All-sort_by after k)
      sort_by-top (x ∷ before) after h k = rw (sort_by-top before after h.1 k, last x h.0) refl

  module _ (total : (x y : A) → le x y ≡ false → le y x ≡ true)
      (trans : (x y z : A) → le x y ≡ true → le y z ≡ true → le x z ≡ true) where
    insert-IsSorted : (x : A) (xs : List A) → IsSorted xs → IsSorted (insert x xs)
    unfolding insert
    insert-IsSorted x [] h = (tt, tt)
    insert-IsSorted x (y ∷ ys) h = elim (Bool-cases (le x y)) [
      | inl before ↦ rw before ((before, All-map _ ys (λ z after. trans x y z before after) h.0), h)
      | inr after ↦
          rw after
            (All-insert (λ z. le y z ≡ true) x ys (total x y after) h.0, insert-IsSorted x ys h.1)
    ]

    pub sort_by-IsSorted : (xs : List A) → IsSorted (sort_by xs)
    unfolding sort_by
    sort_by-IsSorted [] = tt
    sort_by-IsSorted (x ∷ xs) = insert-IsSorted x (sort_by xs) (sort_by-IsSorted xs)

  -- A test that fails for an item and for all that may follow it keeps none of these.
  select-nil :
      (p : A → Bool) (x : A) (xs : List A)
      → ((y : A) → le x y ≡ true → p y ≡ false)
      → All (λ y. le x y ≡ true) xs
      → select p xs ≡ []
  unfolding select
  select-nil p x [] fails h = refl
  select-nil p x (y ∷ ys) fails h = ground (arith, fails y h.0, select-nil p x ys fails h.1)

  -- At most k items of a sorted list pass a test that fails from the item at k on.
  pub length-select-le :
      (p : A → Bool) (last : A) (xs : List A) (k : ℕ)
      → IsSorted xs
      → get_elem? xs k ≡ some last
      → p last ≡ false
      → ((y : A) → le last y ≡ true → p y ≡ false)
      → length (select p xs) ≤ k
  unfolding select
  length-select-le p last [] k sorted at fails rest = cc
  length-select-le p last (x ∷ xs) zero sorted at fails rest =
      let e : x ≡ last = ground arith in
      let fails' : p x ≡ false = rw e fails in
      let none_left =
        select-nil p x xs (subst (λ z. (y : A) → le z y ≡ true → p y ≡ false) (sym e) rest)
          sorted.0 in
      ground (arith, ap length none_left)
  length-select-le p last (x ∷ xs) (suc k) sorted at fails rest =
      ground (arith, length-select-le p last xs k sorted.1 at fails rest)
