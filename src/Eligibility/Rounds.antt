-- ===== src/Eligibility/Rounds.antt =====
-- What a round of decisions records.
use money_machine.Base.{
  ℕ, ◌≡◌, refl, ◌≢◌, inl, inr, String, true, false, Option, none, some, List, [], ◌∷◌, arith, All,
  All-mem, Memᴰ, Option-cases, subst, sym, ◌∙◌, ap,
}
use money_machine.Domain.{DecisionType}
use money_machine.Domain.DecisionType.{hold, repair, cull, multiply}
use money_machine.Portfolio.{PortfolioDecision}
use money_machine.Portfolio.Paths.{HasPath}
use money_machine.Eligibility.Models.{SnapshotView, ListingCandidate, PortfolioResult}
use money_machine.Eligibility.Decide.{
  classify, suppressed, prior_of, build, recorded, decide_on, decide, decide_all, add_result,
}

-- no two listings share an id
abbrev pub HasUniqueIds : List ListingCandidate → Type 0
HasUniqueIds [] = Unit
HasUniqueIds (listing ∷ listings) =
    All (λ l. l.listing_id ≢ listing.listing_id) listings × HasUniqueIds listings

-- a result of another listing is passed over
prior_of-add_other :
    (id : ℕ) (o : Option PortfolioResult) (rest : List PortfolioResult)
    → ((r : PortfolioResult) → o ≡ some r → r.listing_id ≢ id)
    → prior_of id (add_result o rest) ≡ prior_of id rest
unfolding prior_of add_result
prior_of-add_other id none rest h = refl
prior_of-add_other id (some r) rest h = elim (Option-cases (prior_of id rest)) [
  | inr (later, found) ↦ ground arith
  | inl missing ↦ let other = h r refl in ground (arith, other)
]

-- a result of the listing itself is found where there is no later one
prior_of-add_own :
    (id : ℕ) (o : Option PortfolioResult) (rest : List PortfolioResult)
    → prior_of id rest ≡ none
    → ((r : PortfolioResult) → o ≡ some r → r.listing_id ≡ id)
    → prior_of id (add_result o rest) ≡ o
unfolding prior_of add_result
prior_of-add_own id none rest missing h = missing
prior_of-add_own id (some r) rest missing h = let own = h r refl in ground (arith, own)

module _ (derive : String → List ℕ → ℕ) where
  -- The decision of the domain model that a result stands for
  abbrev pub as_decision : ListingCandidate → PortfolioResult → PortfolioDecision
  as_decision listing r = record {
    decision_id = r.decision_id;
    workflow_id = listing.workflow_id;
    decision = r.decision;
    metrics_snapshot_ids = r.snapshot_id ∷ [];
    repair_job_id = r.repair_job_id;
    deactivation_job_id = r.deactivation_job_id;
    successor_workflow_id = r.successor_workflow_id;
    successor_spec_id = r.successor_spec_id;
  }

  pub build-HasPath :
      (listing : ListingCandidate) (snapshot : SnapshotView) (d : DecisionType) (now : ℕ)
      → derive "successor-workflow" (listing.workflow_id ∷ listing.listing_id ∷ [])
        ≢ listing.workflow_id
      → HasPath d (as_decision listing (build derive listing snapshot d now))
  unfolding build
  build-HasPath listing snapshot hold now fresh = (refl, refl, refl, refl)
  build-HasPath listing snapshot repair now fresh = ((λ e. cc), refl, refl, refl)
  build-HasPath listing snapshot cull now fresh = (refl, (λ e. cc), refl, refl)
  build-HasPath listing snapshot multiply now fresh = (refl, refl, (_, refl, fresh), (λ e. cc))

  -- where a result comes from
  abbrev pub Comes :
      List ℕ → List ℕ → List PortfolioResult → ℕ → ListingCandidate → PortfolioResult → Type 0
  Comes culled winners priors now listing r =
      (snapshot : SnapshotView) × (listing.snapshot ≡ some snapshot)
      × (snapshot.reconciled ≡ true)
      × (suppressed listing (prior_of listing.listing_id priors) now ≡ false)
      × ((d : DecisionType) × (classify listing snapshot culled winners ≡ some d)
          × (r ≡ build derive listing snapshot d now))

  module _ (culled winners : List ℕ) (priors : List PortfolioResult) (now : ℕ) where
    decide_on-Comes :
        (listing : ListingCandidate) (snapshot : Option SnapshotView) {r : PortfolioResult}
        → listing.snapshot ≡ snapshot
        → decide_on derive culled winners priors now listing snapshot ≡ some r
        → Comes culled winners priors now listing r
    unfolding decide_on recorded
    decide_on-Comes listing none e h = cc
    decide_on-Comes listing (some snapshot) {r} e h =
        elim (Option-cases (classify listing snapshot culled winners)) [
          | inl nothing ↦ absurd (ground arith)
          | inr (d, class) ↦ (snapshot, e, ground arith, ground arith, (d, class, ground arith))
        ]

    pub decide-Comes :
        (listing : ListingCandidate) {r : PortfolioResult}
        → decide derive culled winners priors now listing ≡ some r
        → Comes culled winners priors now listing r
    unfolding decide
    decide-Comes listing h = decide_on-Comes listing listing.snapshot refl h

    build-listing_id :
        (listing : ListingCandidate) (snapshot : SnapshotView) (d : DecisionType)
        → (build derive listing snapshot d now).listing_id ≡ listing.listing_id
    unfolding build
    build-listing_id listing snapshot hold = refl
    build-listing_id listing snapshot repair = refl
    build-listing_id listing snapshot cull = refl
    build-listing_id listing snapshot multiply = refl

    pub build-decision :
        (listing : ListingCandidate) (snapshot : SnapshotView) (d : DecisionType)
        → (build derive listing snapshot d now).decision ≡ d
    unfolding build
    build-decision listing snapshot hold = refl
    build-decision listing snapshot repair = refl
    build-decision listing snapshot cull = refl
    build-decision listing snapshot multiply = refl

    decide-listing_id :
        (listing : ListingCandidate) {r : PortfolioResult}
        → decide derive culled winners priors now listing ≡ some r
        → r.listing_id ≡ listing.listing_id
    decide-listing_id listing h =
        let (snapshot, found, reconciled, free, (d, class, built)) = decide-Comes listing h in
        ap (λ (r : PortfolioResult). r.listing_id) built ∙ build-listing_id listing snapshot d

    -- the listings of other ids leave no result under an id
    prior_of-none :
        (id : ℕ) (listings : List ListingCandidate)
        → All (λ l. l.listing_id ≢ id) listings
        → prior_of id (decide_all derive culled winners priors now listings) ≡ none
    unfolding prior_of decide_all
    prior_of-none id [] h = refl
    prior_of-none id (l ∷ listings) h =
        prior_of-add_other id (decide derive culled winners priors now l)
          (decide_all derive culled winners priors now listings)
          (λ r e same. h.0 (sym (decide-listing_id l e) ∙ same))
        ∙ prior_of-none id listings h.1

    -- A result is read back under the id of its listing.
    pub prior_of-decide_all :
        (listing : ListingCandidate) (listings : List ListingCandidate)
        → HasUniqueIds listings
        → Memᴰ listing listings
        → prior_of listing.listing_id (decide_all derive culled winners priors now listings)
          ≡ decide derive culled winners priors now listing
    unfolding decide_all
    prior_of-decide_all listing [] unique m = elim m [ ]
    prior_of-decide_all listing (l ∷ listings) unique (Memᴰ.head e) =
        subst
          (λ k.
            prior_of k.listing_id (decide_all derive culled winners priors now (l ∷ listings))
            ≡ decide derive culled winners priors now k)
          (sym e)
          (prior_of-add_own l.listing_id (decide derive culled winners priors now l)
            (decide_all derive culled winners priors now listings)
            (prior_of-none l.listing_id listings unique.0) (λ r. decide-listing_id l))
    prior_of-decide_all listing (l ∷ listings) unique (Memᴰ.tail m) =
        prior_of-add_other listing.listing_id (decide derive culled winners priors now l)
          (decide_all derive culled winners priors now listings)
          (λ r e same. All-mem _ listings m unique.0 (sym same ∙ decide-listing_id l e))
        ∙ prior_of-decide_all listing listings unique.1 m
