-- ===== src/Eligibility.antt =====
-- src/money_machine/assets/portfolio_eligibility.py: the portfolio decisions on the listings of a
-- round, and the slot for a new experiment. Times are seconds; the counts of a snapshot are natural
-- numbers; the percentage, which the source reads from a text, is an integer.
pub mod Models
pub mod Sorting
pub mod Ranks
pub mod Cull
pub mod Winner
pub mod Rounds
pub mod Rules
pub mod Explaining
pub mod Results
mod Tests
pub mod Decide
pub mod Slots
use money_machine.Eligibility.Models.{SnapshotView, ListingCandidate, PortfolioResult, Score}
use money_machine.Base.{
  ℕ, ◌+◌, ◌-◌, ◌*◌, ◌/◌, String, Bool, true, false, not, ◌&&◌, ◌||◌, Option, none, some, List, [],
  ◌∷◌, ◌++◌, map, length, select, exists, get_elem?, ltb, leb, ◌==◌, if◌then◌else◌, is_none, ℤ, pos,
  negsuc,
}
use money_machine.Results.{Result, done, refused, check, present, ◌>>=◌, ◌>>◌}
use money_machine.Domain.{DecisionType, EventName}
use money_machine.Domain.DecisionType.{hold, repair, cull, multiply}
use money_machine.Domain.EventName.{
  listing_held, listing_repair_requested, listing_cull_requested, winner_detected,
}
use money_machine.Eligibility.Sorting.{sort_by}

-- `a < b`, and a later comparison where they are equal
abbrev pub then_ltb : ℕ → ℕ → Bool → Bool
then_ltb a b later = if ltb a b then true else if ltb b a then false else later

-- `a < b` of two tuples
unfoldable pub score_ltb : Score → Score → Bool
score_ltb a b = then_ltb a.orders b.orders (
    then_ltb a.gross_revenue b.gross_revenue
      (then_ltb a.favourites b.favourites (ltb a.views b.views)))

-- `_score`
abbrev pub score_of : Option SnapshotView → Score
score_of none = record { orders = 0; gross_revenue = 0; favourites = 0; views = 0 }
score_of (some s) = record {
  orders = s.orders;
  gross_revenue = s.gross_revenue;
  favourites = s.favourites;
  views = s.views;
}

abbrev pub score : ListingCandidate → Score
score listing = score_of listing.snapshot

abbrev pub is_reconciled : Option SnapshotView → Bool
is_reconciled none = false
is_reconciled (some s) = s.reconciled

-- seen, and never bought
abbrev pub is_unsold : Option SnapshotView → Bool
is_unsold none = false
is_unsold (some s) = ltb 0 s.views && s.orders == 0

-- `_in_percentile_cohort`
unfoldable pub in_percentile_cohort : ListingCandidate → Bool
in_percentile_cohort listing =
    is_reconciled listing.snapshot
    && (listing.in_window
        && (not listing.has_defect
            && (not (ltb listing.live_days 30) && not (is_unsold listing.snapshot))))

-- the sort key `(_score(item), item.listing_id)`, ascending and descending
unfoldable pub ranks_before : ListingCandidate → ListingCandidate → Bool
ranks_before a b =
    if score_ltb (score a) (score b)
    then true
    else if score_ltb (score b) (score a)
    then false
    else leb a.listing_id b.listing_id

abbrev pub ranks_after : ListingCandidate → ListingCandidate → Bool
ranks_after a b = ranks_before b a

-- the listings of one shop that count for the percentile
unfoldable pub cohort : ℕ → List ListingCandidate → List ListingCandidate
cohort shop listings =
    select (λ listing. in_percentile_cohort listing && listing.shop_id == shop) listings

-- the errors: ValueError for a naive time, IndexError for a percentage above a hundred
pub data EligibilityError : Type 0 where
  naive_time index_error : EligibilityError

-- `(len(ordered) * percent) // 100`, and 0 where that is not positive
abbrev pub pool_size : ℤ → ℕ → ℕ
pool_size (pos percent) n = n * percent / 100
pool_size (negsuc k) n = 0

abbrev pub below : Score → ListingCandidate → Bool
below cutoff item = score_ltb (score item) cutoff

-- the loop body of `_cull_ids` for a sorted group
unfoldable pub cull_pool :
    ℕ → List ListingCandidate → Result EligibilityError (List ListingCandidate)
cull_pool pool ordered = if pool == 0 then done [] else (do
  last ← present (get_elem? ordered (pool - 1)) index_error
  done (select (below (score last)) ordered))

unfoldable pub cull_group :
    ℤ → List ListingCandidate → Result EligibilityError (List ListingCandidate)
cull_group percent group =
    if ltb (length group) 5
    then done []
    else cull_pool (pool_size percent (length group)) (sort_by ranks_before group)

-- the shops of the cohort, each once
unfoldable pub shops_of : List ListingCandidate → List ℕ
shops_of [] = []
shops_of (listing ∷ listings) =
    let rest = shops_of listings in
    if in_percentile_cohort listing && not (exists (λ shop. shop == listing.shop_id) rest)
    then listing.shop_id ∷ rest
    else rest

ids_of : List ListingCandidate → List ℕ
ids_of listings = map (λ listing. listing.listing_id) listings

-- `_cull_ids`
unfoldable pub cull_shops : ℤ → List ListingCandidate → List ℕ → Result EligibilityError (List ℕ)
unfolding ids_of
cull_shops percent listings [] = done []
cull_shops percent listings (shop ∷ shops) = do
  group ← cull_group percent (cohort shop listings)
  rest ← cull_shops percent listings shops
  done (ids_of group ++ rest)

unfoldable pub cull_ids : ℤ → List ListingCandidate → Result EligibilityError (List ℕ)
cull_ids percent listings = cull_shops percent listings (shops_of listings)

-- the second best has the score of the best
ties : Option ListingCandidate → ListingCandidate → Bool
ties none best = false
ties (some second) best =
    not (score_ltb (score second) (score best)) && not (score_ltb (score best) (score second))

pub orders_of : Option SnapshotView → ℕ
orders_of none = 0
orders_of (some s) = s.orders

-- the winner among ranked listings
unfoldable pub winner_of : List ListingCandidate → Option ℕ
unfolding ties orders_of
winner_of [] = none
winner_of (best ∷ others) =
    if orders_of best.snapshot == 0
    then none
    else if ties (get_elem? others 0) best
    then none
    else some best.listing_id

-- `_unique_winner`
unfoldable pub unique_winner : List ListingCandidate → Option ℕ
unique_winner group = winner_of (sort_by ranks_after group)

abbrev pub is_in : List ℕ → ℕ → Bool
is_in ids id = exists (λ x. x == id) ids

-- a winner is chosen unless it is culled
chosen_winner : List ℕ → Option ℕ → List ℕ
chosen_winner culled none = []
chosen_winner culled (some winner) = if is_in culled winner then [] else winner ∷ []

-- `_multiply_ids`
unfoldable pub multiply_shops : List ℕ → List ListingCandidate → List ℕ → List ℕ
unfolding chosen_winner
multiply_shops culled listings [] = []
multiply_shops culled listings (shop ∷ shops) =
    chosen_winner culled (unique_winner (cohort shop listings))
    ++ multiply_shops culled listings shops

unfoldable pub multiply_ids : List ListingCandidate → List ℕ → List ℕ
multiply_ids listings culled = multiply_shops culled listings (shops_of listings)
