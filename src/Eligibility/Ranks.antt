-- ===== src/Eligibility/Ranks.antt =====
-- The order of the listings by score and id.
use money_machine.Base.{ℕ, ◌≡◌, Bool, true, false, arith, leb, if◌then◌else◌, sym, ◌∙◌}
use money_machine.Eligibility.{score, score_ltb, then_ltb, ranks_before}
use money_machine.Eligibility.Models.{ListingCandidate, Score}

-- One step of a comparison from the left.
then_ltb_trans :
    (a b c : ℕ) (p q r : Bool)
    → (p ≡ true → q ≡ true → r ≡ true)
    → then_ltb a b p ≡ true
    → then_ltb b c q ≡ true
    → then_ltb a c r ≡ true
then_ltb_trans a b c p q r later h k = ground (arith, later)

then_ltb-total :
    (a b : ℕ) (p q : Bool) → (p ≡ false → q ≡ true) → then_ltb a b p ≡ false → then_ltb b a q ≡ true
then_ltb-total a b p q later h = ground (arith, later)

then_ltb-le-lt :
    (a b c : ℕ) (p q r : Bool)
    → (p ≡ false → q ≡ true → r ≡ true)
    → then_ltb b a p ≡ false
    → then_ltb b c q ≡ true
    → then_ltb a c r ≡ true
then_ltb-le-lt a b c p q r later h k = ground (arith, later)

-- the whole key, compared from the left
by_key : Score → ℕ → Score → ℕ → Bool
by_key s id s' id' = then_ltb s.orders s'.orders (
    then_ltb s.gross_revenue s'.gross_revenue
      (then_ltb s.favourites s'.favourites (then_ltb s.views s'.views (leb id id'))))

by_key-eq :
    (s s' : Score) (id id' : ℕ)
    → (if score_ltb s s' then true else if score_ltb s' s then false else leb id id')
      ≡ by_key s id s' id'
unfolding score_ltb by_key
by_key-eq s s' id id' = ground arith

ranks_before-eq :
    (a b : ListingCandidate)
    → ranks_before a b ≡ by_key (score a) a.listing_id (score b) b.listing_id
unfolding ranks_before
ranks_before-eq a b = by_key-eq (score a) (score b) a.listing_id b.listing_id

by_key_trans :
    (s t u : Score) (i j k : ℕ)
    → by_key s i t j ≡ true
    → by_key t j u k ≡ true
    → by_key s i u k ≡ true
unfolding by_key
by_key_trans s t u i j k = then_ltb_trans s.orders t.orders u.orders _ _ _ (
    then_ltb_trans s.gross_revenue t.gross_revenue u.gross_revenue _ _ _ (
      then_ltb_trans s.favourites t.favourites u.favourites _ _ _ (
        then_ltb_trans s.views t.views u.views (leb i j) (leb j k) (leb i k)
          (λ h h'. ground arith))))

by_key-total : (s t : Score) (i j : ℕ) → by_key s i t j ≡ false → by_key t j s i ≡ true
unfolding by_key
by_key-total s t i j = then_ltb-total s.orders t.orders _ _ (
    then_ltb-total s.gross_revenue t.gross_revenue _ _ (
      then_ltb-total s.favourites t.favourites _ _
        (then_ltb-total s.views t.views (leb i j) (leb j i) (λ h. ground arith))))

pub ranks_before_trans :
    (a b c : ListingCandidate)
    → ranks_before a b ≡ true
    → ranks_before b c ≡ true
    → ranks_before a c ≡ true
ranks_before_trans a b c h k =
    ranks_before-eq a c
    ∙ by_key_trans (score a) (score b) (score c) a.listing_id b.listing_id c.listing_id
        (sym (ranks_before-eq a b) ∙ h) (sym (ranks_before-eq b c) ∙ k)

pub ranks_before-total :
    (a b : ListingCandidate) → ranks_before a b ≡ false → ranks_before b a ≡ true
ranks_before-total a b h =
    ranks_before-eq b a
    ∙ by_key-total (score a) (score b) a.listing_id b.listing_id (sym (ranks_before-eq a b) ∙ h)

score_ltb-asymm : (s t : Score) → score_ltb s t ≡ true → score_ltb t s ≡ false
unfolding score_ltb
score_ltb-asymm s t h = ground arith

-- what ranks behind has no lower score
pub ranks_before-score :
    (a b : ListingCandidate) → ranks_before a b ≡ true → score_ltb (score b) (score a) ≡ false
unfolding ranks_before
ranks_before-score a b h = ground (arith, score_ltb-asymm (score a) (score b))

pub score_ltb_irrefl : (s : Score) → score_ltb s s ≡ false
unfolding score_ltb
score_ltb_irrefl s = ground arith

-- a score that is not above one below another is below that one
pub score_ltb-le-lt :
    (s t u : Score) → score_ltb t s ≡ false → score_ltb t u ≡ true → score_ltb s u ≡ true
unfolding score_ltb
score_ltb-le-lt s t u = then_ltb-le-lt s.orders t.orders u.orders _ _ _ (
    then_ltb-le-lt s.gross_revenue t.gross_revenue u.gross_revenue _ _ _
      (then_ltb-le-lt s.favourites t.favourites u.favourites _ _ _ (λ h k. ground arith)))
