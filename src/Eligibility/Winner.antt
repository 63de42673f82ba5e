-- ===== src/Eligibility/Winner.antt =====
-- Which listing of a cohort is its winner.
use money_machine.Base.{
  ℕ, ◌<◌, ◌≡◌, refl, inl, inr, true, false, some, List, [], ◌∷◌, arith, All, All-map, All-append,
  get_elem?, ◌++◌, ◌↔◌, Bool-cases, ap, ◌∙◌,
}
use money_machine.Eligibility.{
  score, score_ltb, ranks_before, ranks_after, winner_of, unique_winner, ties, orders_of,
}
use money_machine.Eligibility.Models.{ListingCandidate}
use money_machine.Eligibility.Sorting.{
  sort_by, IsSorted, sort_by-IsSorted, All-sort_by, sort_by-top, top-split,
}
use money_machine.Eligibility.Ranks.{
  ranks_before_trans, ranks_before-total, ranks_before-score, score_ltb-le-lt,
}

-- the score of the item is below that of the best
abbrev pub IsLower : ListingCandidate → ListingCandidate → Type 0
IsLower best y = score_ltb (score y) (score best) ≡ true

-- the winner has been ordered, and stands once in the group, among listings with lower scores
abbrev pub IsWinner : List ListingCandidate → ListingCandidate → Type 0
IsWinner group best =
    (0 < orders_of best.snapshot)
    × ((before after : List ListingCandidate) × (group ≡ before ++ (best ∷ after))
        × All (IsLower best) before
        × All (IsLower best) after)

others_behind :
    (best : ListingCandidate) (others : List ListingCandidate)
    → IsSorted ranks_after (best ∷ others)
    → ties (get_elem? others 0) best ≡ false
    → All (IsLower best) others
unfolding ties
others_behind best [] sorted h = tt
others_behind best (second ∷ others) sorted h =
    let not_above = ranks_before-score second best sorted.0.0 in
    let lower : score_ltb (score second) (score best) ≡ true = ground (arith, not_above) in
    (
      lower,
      All-map _ others
          (λ y after.
            score_ltb-le-lt (score y) (score second) (score best)
              (ranks_before-score y second after) lower)
          sorted.1.0,
    )

-- the first of ranked listings, where it wins
winner_of-first :
    (ranked : List ListingCandidate) {id : ℕ}
    → IsSorted ranks_after ranked
    → winner_of ranked ≡ some id
    → (best : ListingCandidate) × (others : List ListingCandidate) × (ranked ≡ best ∷ others)
      × (best.listing_id ≡ id)
      × (0 < orders_of best.snapshot)
      × All (IsLower best) others
unfolding winner_of
winner_of-first [] sorted h = cc
winner_of-first (best ∷ others) {id} sorted h =
    let untied : ties (get_elem? others 0) best ≡ false = ground arith in
    let is_id : best.listing_id ≡ id = ground arith in
    let ordered : 0 < orders_of best.snapshot = ground arith in
    (best, others, refl, is_id, ordered, others_behind best others sorted untied)

lower-untied :
    (best : ListingCandidate) (others : List ListingCandidate)
    → All (IsLower best) others
    → ties (get_elem? others 0) best ≡ false
unfolding ties
lower-untied best [] h = refl
lower-untied best (second ∷ others) h = ground (arith, h.0)

behind : (best y : ListingCandidate) → IsLower best y → ranks_before best y ≡ false
behind best y lower = elim (Bool-cases (ranks_before best y)) [
  | inl before ↦ absurd (ground (arith, ranks_before-score best y before))
  | inr after ↦ after
]

winner-found :
    (group : List ListingCandidate) (best : ListingCandidate)
    → IsWinner group best
    → unique_winner group ≡ some best.listing_id
unfolding unique_winner winner_of
winner-found group best (ordered, (before, after, split, left, right)) =
    let first =
      sort_by-top ranks_after (IsLower best) best
        (λ y lower. ranks_before-total best y (behind best y lower)) (behind best) before after left
        right in
    let rest = sort_by ranks_after (before ++ after) in
    let lower =
      All-sort_by ranks_after (IsLower best) (before ++ after)
        (All-append (IsLower best) before after left right) in
    rw (split, first) (ground (arith, lower-untied best rest lower))

-- A listing is the winner of a group exactly where it has been ordered and is alone at the top: it
-- stands once in the group, and every other listing of the group has a lower score.
pub unique_winner-IsWinner :
    (group : List ListingCandidate) (id : ℕ)
    → (unique_winner group ≡ some id)
      ↔ ((best : ListingCandidate) × (best.listing_id ≡ id) × IsWinner group best)
unfolding unique_winner
unique_winner-IsWinner group id = (
  (λ h.
      let sorted =
        sort_by-IsSorted ranks_after (λ a b. ranks_before-total b a)
          (λ a b c h k. ranks_before_trans c b a k h) group in
      let (best, others, ranked, is_id, ordered, lower) =
        winner_of-first (sort_by ranks_after group) sorted h in
      (best, is_id, (ordered, top-split ranks_after (IsLower best) group ranked lower))),
  (λ (best, is_id, wins). winner-found group best wins ∙ ap some is_id),
)
