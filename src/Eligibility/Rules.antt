-- ===== src/Eligibility/Rules.antt =====
-- The rules of a round of src/money_machine/assets/portfolio_eligibility.py, written apart from its code:
-- which class a listing has, what an earlier result holds back, and what a result records.
use money_machine.Base.{
  ℕ, ◌+◌, ◌<◌, ◌≤◌, ◌≡◌, refl, ◌≢◌, ◌⊎◌, inl, inr, String, true, false, Option, none, some, List,
  [], ◌∷◌, arith, All, Memᴰ, exists, ◌==◌, Bool-cases, Option-cases, subst,
}
use money_machine.Domain.{EventName, DecisionType}
use money_machine.Domain.EventName.{
  listing_held, listing_repair_requested, listing_cull_requested, winner_detected,
}
use money_machine.Domain.DecisionType.{hold, repair, cull, multiply}
use money_machine.Eligibility.{is_in}
use money_machine.Eligibility.Models.{SnapshotView, ListingCandidate, PortfolioResult}
use money_machine.Eligibility.Decide.{classify, suppressed, prior_of, build, plain, suppressed_by}

-- mature, without a defect, and not seen without being ordered
abbrev pub IsRankable : ListingCandidate → SnapshotView → Type 0
IsRankable listing snapshot =
    (listing.has_defect ≡ false)
    × (30 ≤ listing.live_days)
    × (0 < snapshot.views → snapshot.orders ≢ 0)

-- The class of a listing: repaired for a defect, or where it is mature and has been seen and never
-- ordered; else, where it is mature, culled or multiplied if it is among those, and held in its window.
abbrev pub IsClass : ListingCandidate → SnapshotView → List ℕ → List ℕ → DecisionType → Type 0
IsClass listing snapshot culled winners repair =
    (listing.has_defect ≡ true)
    ⊎ ((30 ≤ listing.live_days) × (0 < snapshot.views) × (snapshot.orders ≡ 0))
IsClass listing snapshot culled winners cull =
    IsRankable listing snapshot × Memᴰ listing.listing_id culled
IsClass listing snapshot culled winners multiply =
    IsRankable listing snapshot × ¬ Memᴰ listing.listing_id culled × Memᴰ listing.listing_id winners
IsClass listing snapshot culled winners hold =
    IsRankable listing snapshot
    × ¬ Memᴰ listing.listing_id culled
    × ¬ Memᴰ listing.listing_id winners
    × (listing.in_window ≡ true)

is_in-Mem : (ids : List ℕ) (id : ℕ) → is_in ids id ≡ true → Memᴰ id ids
unfolding exists
is_in-Mem [] id h = cc
is_in-Mem (x ∷ ids) id h = elim (Bool-cases (x == id)) [
  | inl same ↦ Memᴰ.head (ground arith)
  | inr other ↦ Memᴰ.tail (is_in-Mem ids id (ground arith))
]

Mem-is_in : (ids : List ℕ) (id : ℕ) → Memᴰ id ids → is_in ids id ≡ true
unfolding exists
Mem-is_in [] id m = elim m [ ]
Mem-is_in (x ∷ ids) id (Memᴰ.head e) = ground arith
Mem-is_in (x ∷ ids) id (Memᴰ.tail m) = ground (arith, Mem-is_in ids id m)

not_in : (ids : List ℕ) (id : ℕ) → is_in ids id ≡ false → ¬ Memᴰ id ids
not_in ids id h m = let there = Mem-is_in ids id m in cc

not_member : (ids : List ℕ) (id : ℕ) → ¬ Memᴰ id ids → is_in ids id ≡ false
not_member ids id h = elim (Bool-cases (is_in ids id)) [
  | inl there ↦ absurd (h (is_in-Mem ids id there))
  | inr missing ↦ missing
]

module _ (listing : ListingCandidate) (snapshot : SnapshotView) (culled winners : List ℕ) where
  pub classify-IsClass :
      (d : DecisionType)
      → classify listing snapshot culled winners ≡ some d
      → IsClass listing snapshot culled winners d
  unfolding classify
  classify-IsClass repair h = ground arith
  classify-IsClass cull h = (
    (ground arith, ground arith, (λ seen. ground arith)),
    is_in-Mem culled listing.listing_id (ground arith),
  )
  classify-IsClass multiply h = (
    (ground arith, ground arith, (λ seen. ground arith)),
    not_in culled listing.listing_id (ground arith),
    is_in-Mem winners listing.listing_id (ground arith),
  )
  classify-IsClass hold h = (
    (ground arith, ground arith, (λ seen. ground arith)),
    not_in culled listing.listing_id (ground arith),
    not_in winners listing.listing_id (ground arith),
    ground arith,
  )

  pub IsClass-classify :
      (d : DecisionType)
      → IsClass listing snapshot culled winners d
      → classify listing snapshot culled winners ≡ some d
  unfolding classify
  IsClass-classify repair h = ground arith
  IsClass-classify cull ((sound, mature, ordered), m) =
      ground (arith, Mem-is_in culled listing.listing_id m)
  IsClass-classify multiply ((sound, mature, ordered), free, m) =
      ground
        (arith, not_member culled listing.listing_id free, Mem-is_in winners listing.listing_id m)
  IsClass-classify hold ((sound, mature, ordered), free, other, window) = ground (
    arith,
    not_member culled listing.listing_id free,
    not_member winners listing.listing_id other,
  )

-- `prior` is the last of the results for the listing.
pub data IsLast (id : ℕ) : List PortfolioResult → PortfolioResult → Type 0 where
  last :
      {prior : PortfolioResult} {priors : List PortfolioResult}
      → prior.listing_id ≡ id
      → All (λ p. p.listing_id ≢ id) priors
      → IsLast id (prior ∷ priors) prior
  earlier :
      {prior other : PortfolioResult} {priors : List PortfolioResult}
      → IsLast id priors prior
      → IsLast id (other ∷ priors) prior

-- A HOLD keeps a listing until its next collection, and a REPAIR until it has another snapshot.
abbrev pub HoldsBack : ListingCandidate → PortfolioResult → ℕ → Type 0
HoldsBack listing prior now =
    ((prior.decision ≡ hold) × ((t : ℕ) × (prior.next_collection_at ≡ some t) × (now < t)))
    ⊎ ((prior.decision ≡ repair)
        × ((s : SnapshotView) × (listing.snapshot ≡ some s) × (s.snapshot_id ≡ prior.snapshot_id)))

-- the last result for the listing, where there is one, does not hold it back
abbrev pub IsFree : ListingCandidate → List PortfolioResult → ℕ → Type 0
IsFree listing priors now =
    (prior : PortfolioResult)
    → IsLast listing.listing_id priors prior
    → ¬ HoldsBack listing prior now

prior_of-missing :
    (id : ℕ) (priors : List PortfolioResult)
    → prior_of id priors ≡ none
    → All (λ p. p.listing_id ≢ id) priors
unfolding prior_of
prior_of-missing id [] h = tt
prior_of-missing id (p ∷ priors) h =
    ((λ same. ground arith), prior_of-missing id priors (ground arith))

prior_of-IsLast :
    (id : ℕ) (priors : List PortfolioResult) (prior : PortfolioResult)
    → prior_of id priors ≡ some prior
    → IsLast id priors prior
unfolding prior_of
prior_of-IsLast id [] prior h = cc
prior_of-IsLast id (p ∷ priors) prior h = elim (Option-cases (prior_of id priors)) [
  | inr (later, found) ↦
      let same : later ≡ prior = ground arith in
      IsLast.earlier (subst (IsLast id priors) same (prior_of-IsLast id priors later found))
  | inl missing ↦
      let same : p ≡ prior = ground arith in
      let own : p.listing_id ≡ id = ground arith in
      subst (IsLast id (p ∷ priors)) same (IsLast.last own (prior_of-missing id priors missing))
]

missing-prior_of :
    (id : ℕ) (priors : List PortfolioResult)
    → All (λ p. p.listing_id ≢ id) priors
    → prior_of id priors ≡ none
unfolding prior_of
missing-prior_of id [] h = refl
missing-prior_of id (p ∷ priors) (other, h) = ground (arith, missing-prior_of id priors h)

IsLast-prior_of :
    (id : ℕ) (priors : List PortfolioResult) (prior : PortfolioResult)
    → IsLast id priors prior
    → prior_of id priors ≡ some prior
unfolding prior_of
IsLast-prior_of id [] prior l = elim l [ ]
IsLast-prior_of id (p ∷ priors) prior (IsLast.last own others) =
    ground (arith, missing-prior_of id priors others)
IsLast-prior_of id (p ∷ priors) prior (IsLast.earlier before) =
    rw (IsLast-prior_of id priors prior before) refl

suppressed-HoldsBack :
    (listing : ListingCandidate) (prior : PortfolioResult) (now : ℕ)
    → suppressed listing (some prior) now ≡ true
    → HoldsBack listing prior now
unfolding suppressed suppressed_by
suppressed-HoldsBack listing prior now h = ground arith

HoldsBack-suppressed :
    (listing : ListingCandidate) (prior : PortfolioResult) (now : ℕ)
    → HoldsBack listing prior now
    → suppressed listing (some prior) now ≡ true
unfolding suppressed suppressed_by
HoldsBack-suppressed listing prior now (inl (is, (t, next, early))) = ground arith
HoldsBack-suppressed listing prior now (inr (is, (s, found, same))) = ground arith

pub suppressed-IsFree :
    (listing : ListingCandidate) (priors : List PortfolioResult) (now : ℕ)
    → suppressed listing (prior_of listing.listing_id priors) now ≡ false
    → IsFree listing priors now
suppressed-IsFree listing priors now h prior last_is held =
    let found = IsLast-prior_of listing.listing_id priors prior last_is in
    let back = HoldsBack-suppressed listing prior now held in cc

pub IsFree-suppressed :
    (listing : ListingCandidate) (priors : List PortfolioResult) (now : ℕ)
    → IsFree listing priors now
    → suppressed listing (prior_of listing.listing_id priors) now ≡ false
unfolding suppressed
IsFree-suppressed listing priors now free =
    elim (Option-cases (prior_of listing.listing_id priors)) [
      | inl missing ↦ rw missing refl
      | inr (prior, found) ↦ elim (Bool-cases (suppressed listing (some prior) now)) [
        | inl back ↦ absurd (
            free prior (prior_of-IsLast listing.listing_id priors prior found)
              (suppressed-HoldsBack listing prior now back))
        | inr not_back ↦ rw found not_back
      ]
    ]

-- the event that a decision announces
abbrev pub event_of : DecisionType → EventName
event_of hold = listing_held
event_of repair = listing_repair_requested
event_of cull = listing_cull_requested
event_of multiply = winner_detected

-- a HOLD is looked at again after seven days
abbrev pub next_of : DecisionType → ℕ → Option ℕ
next_of hold now = some (now + 604800)
next_of _ now = none

-- What a result records of its listing and its class; no deactivation has been executed.
pub record IsResult (listing : ListingCandidate) (snapshot : SnapshotView) (d : DecisionType)
    (now : ℕ) (r : PortfolioResult) : Type 0 where
  pub listing_id : r.listing_id ≡ listing.listing_id
  pub snapshot_id : r.snapshot_id ≡ snapshot.snapshot_id
  pub decision : r.decision ≡ d
  pub decided_at : r.decided_at ≡ now
  pub event_names : r.event_names ≡ event_of d ∷ []
  pub next_collection_at : r.next_collection_at ≡ next_of d now
  pub not_executed : r.deactivation_executed ≡ false

pub build-IsResult :
    (derive : String → List ℕ → ℕ) (listing : ListingCandidate) (snapshot : SnapshotView)
    (d : DecisionType) (now : ℕ)
    → IsResult listing snapshot d now (build derive listing snapshot d now)
unfolding build plain
build-IsResult derive listing snapshot hold now = record {
  listing_id = refl;
  snapshot_id = refl;
  decision = refl;
  decided_at = refl;
  event_names = refl;
  next_collection_at = refl;
  not_executed = refl;
}
build-IsResult derive listing snapshot repair now = record {
  listing_id = refl;
  snapshot_id = refl;
  decision = refl;
  decided_at = refl;
  event_names = refl;
  next_collection_at = refl;
  not_executed = refl;
}
build-IsResult derive listing snapshot cull now = record {
  listing_id = refl;
  snapshot_id = refl;
  decision = refl;
  decided_at = refl;
  event_names = refl;
  next_collection_at = refl;
  not_executed = refl;
}
build-IsResult derive listing snapshot multiply now = record {
  listing_id = refl;
  snapshot_id = refl;
  decision = refl;
  decided_at = refl;
  event_names = refl;
  next_collection_at = refl;
  not_executed = refl;
}
