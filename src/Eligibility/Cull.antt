-- ===== src/Eligibility/Cull.antt =====
-- Which listings are culled.
use money_machine.Base.{
  ℕ, suc, zero, ◌-◌, ◌*◌, ◌/◌, ◌≤◌, ◌<◌, ◌≡◌, refl, ◌⊎◌, inl, inr, none, List, [], ◌∷◌, ◌++◌, map,
  arith, select, length, ltb, ◌==◌, pos, get_elem?, Bool-cases, Option-cases,
}
use money_machine.Results.{done, IfDone, IfDone-done}
use money_machine.Eligibility.{
  score, ranks_before, cohort, below, cull_pool, cull_group, cull_shops, cull_ids, shops_of,
}
use money_machine.Eligibility.Models.{ListingCandidate}
use money_machine.Eligibility.Sorting.{
  sort_by, IsSorted, sort_by-IsSorted, length-sort_by, length-select-le,
}
use money_machine.Eligibility.Ranks.{
  ranks_before_trans, ranks_before-total, ranks_before-score, score_ltb_irrefl,
}

get_elem?-none : {A : Type 0} (xs : List A) (k : ℕ) → get_elem? xs k ≡ none → length xs ≤ k
get_elem?-none [] k h = omega arith
get_elem?-none (x ∷ xs) zero h = cc
get_elem?-none (x ∷ xs) (suc k) h = omega (arith, get_elem?-none xs k h)

-- fewer than the pool are culled of a sorted group
cull_pool-lt :
    (pool : ℕ) (ordered : List ListingCandidate)
    → IsSorted ranks_before ordered
    → IfDone (λ culled. (culled ≡ []) ⊎ (length culled < pool)) (cull_pool pool ordered)
unfolding cull_pool
cull_pool-lt pool ordered sorted = elim (Bool-cases (pool == 0)) [
  | inl empty ↦ rw empty (inl refl)
  | inr some_pool ↦ elim (Option-cases (get_elem? ordered (pool - 1))) [
    | inl missing ↦ rw (some_pool, missing) tt
    | inr (last, at) ↦
        let le =
          length-select-le ranks_before (below (score last)) last ordered (pool - 1) sorted at
            (score_ltb_irrefl (score last)) (λ y h. ranks_before-score last y h) in
        rw (some_pool, at) (inr (ground (arith, le)))
  ]
]

pool_size-le : (percent n : ℕ) → percent ≤ 100 → n * percent / 100 ≤ n
pool_size-le percent n h = let le : n * percent ≤ n * 100 = grind arith in omega (arith, le)

cull_pool-done :
    (pool : ℕ) (ordered : List ListingCandidate)
    → pool ≤ length ordered
    → (culled : List ListingCandidate) × (cull_pool pool ordered ≡ done culled)
unfolding cull_pool
cull_pool-done pool ordered h = elim (Bool-cases (pool == 0)) [
  | inl empty ↦ ([], rw empty)
  | inr some_pool ↦ elim (Option-cases (get_elem? ordered (pool - 1))) [
    | inl missing ↦
        let short = get_elem?-none ordered (pool - 1) missing in absurd (ground (arith, short))
    | inr (last, at) ↦ (select (below (score last)) ordered, rw (some_pool, at))
  ]
]

-- Of a cohort of five at least, fewer are culled than the percentage allows; of a smaller one, none.
pub cull_group-lt :
    (percent : ℕ) (group : List ListingCandidate) {culled : List ListingCandidate}
    → cull_group (pos percent) group ≡ done culled
    → (culled ≡ []) ⊎ ((5 ≤ length group) × (length culled * 100 < length group * percent))
unfolding cull_group
cull_group-lt percent group {culled} h = elim (Bool-cases (ltb (length group) 5)) [
  | inl small ↦ inl (IfDone-done (λ c. c ≡ []) (done []) (rw small at h) refl)
  | inr large ↦
      let pool = length group * percent / 100 in
      let ordered = sort_by ranks_before group in
      let h' : cull_pool pool ordered ≡ done culled = rw large at h in
      elim (IfDone-done (λ c. (c ≡ []) ⊎ (length c < pool)) (cull_pool pool ordered) h'
        (cull_pool-lt pool ordered
          (sort_by-IsSorted ranks_before ranks_before-total ranks_before_trans group))) [
            | inl empty ↦ inl empty
            | inr few ↦ inr (ground arith, omega (arith, few))
          ]
]

cull_group-done :
    (percent : ℕ) (group : List ListingCandidate)
    → percent ≤ 100
    → (culled : List ListingCandidate) × (cull_group (pos percent) group ≡ done culled)
unfolding cull_group
cull_group-done percent group h = elim (Bool-cases (ltb (length group) 5)) [
  | inl small ↦ ([], rw small)
  | inr large ↦ rw large (
      cull_pool-done (length group * percent / 100) (sort_by ranks_before group)
        (omega (arith, pool_size-le percent (length group) h, length-sort_by ranks_before group)))
]

cull_shops-done :
    (percent : ℕ) (listings : List ListingCandidate) (shops : List ℕ)
    → percent ≤ 100
    → (culled : List ℕ) × (cull_shops (pos percent) listings shops ≡ done culled)
unfolding cull_shops
cull_shops-done percent listings [] h = ([], refl)
cull_shops-done percent listings (shop ∷ shops) h =
    let (group, culls) = cull_group-done percent (cohort shop listings) h in
    let (rest, later) = cull_shops-done percent listings shops h in
    (map (λ listing. listing.listing_id) group ++ rest, rw (culls, later))

-- A percentage of a hundred at most never raises.
pub cull_ids-done :
    (percent : ℕ) (listings : List ListingCandidate)
    → percent ≤ 100
    → (culled : List ℕ) × (cull_ids (pos percent) listings ≡ done culled)
unfolding cull_ids
cull_ids-done percent listings h = cull_shops-done percent listings (shops_of listings) h
