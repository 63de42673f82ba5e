-- ===== src/Eligibility/Explaining.antt =====
-- The results of `evaluate_portfolio` by the rules: every result is explained by them, and every listing that
-- they decide has a result.
use money_machine.Base.{
  ℕ, ◌≡◌, refl, ◌≢◌, inl, inr, String, true, Option, none, some, List, [], ◌∷◌, arith, All, All-map,
  Memᴰ, subst, sym, Option-cases,
}
use money_machine.Domain.{DecisionType}
use money_machine.Portfolio.Paths.{HasPath}
use money_machine.Eligibility.Models.{SnapshotView, ListingCandidate, PortfolioResult}
use money_machine.Eligibility.Decide.{build, decide, decide_all, add_result}
use money_machine.Eligibility.Rules.{
  IsClass, IsFree, IsResult, classify-IsClass, IsClass-classify, suppressed-IsFree,
  IsFree-suppressed, build-IsResult,
}
use money_machine.Eligibility.Rounds.{
  as_decision, build-HasPath, build-decision, Comes, decide-Comes,
}

module _ (derive : String → List ℕ → ℕ) where
  -- The listing is decided: its metrics are reconciled, no earlier result holds it back, and it has the
  -- class.
  abbrev pub IsDecided :
      List ℕ
      → List ℕ
      → List PortfolioResult
      → ℕ
      → ListingCandidate
      → SnapshotView
      → DecisionType
      → Type 0
  IsDecided culled winners priors now listing snapshot d =
      (listing.snapshot ≡ some snapshot)
      × (snapshot.reconciled ≡ true)
      × IsFree listing priors now
      × IsClass listing snapshot culled winners d

  -- A result is for a decided listing of the round, records its class, and has the ids of its path.
  abbrev pub Explained :
      List ℕ → List ℕ → List PortfolioResult → ℕ → List ListingCandidate → PortfolioResult → Type 0
  Explained culled winners priors now listings r =
      (listing : ListingCandidate) × (snapshot : SnapshotView) × (d : DecisionType) × Memᴰ listing
        listings
      × IsDecided culled winners priors now listing snapshot d
      × IsResult listing snapshot d now r
      × HasPath r.decision (as_decision derive listing r)

  -- a decided listing of the round has a result
  abbrev pub IsComplete :
      List ℕ
      → List ℕ
      → List PortfolioResult
      → ℕ
      → List ListingCandidate
      → List PortfolioResult
      → Type 0
  IsComplete culled winners priors now listings results =
      (listing : ListingCandidate) (snapshot : SnapshotView) (d : DecisionType)
      → Memᴰ listing listings
      → IsDecided culled winners priors now listing snapshot d
      → (r : PortfolioResult) × Memᴰ r results × IsResult listing snapshot d now r

  pub add_result-All :
      (P : PortfolioResult → Type 0) (o : Option PortfolioResult) (rest : List PortfolioResult)
      → ((r : PortfolioResult) → o ≡ some r → P r)
      → All P rest
      → All P (add_result o rest)
  unfolding add_result
  add_result-All P none rest p h = h
  add_result-All P (some r) rest p h = (p r refl, h)

  module _ (culled winners : List ℕ) (priors : List PortfolioResult) (now : ℕ) where
    Comes-HasPath :
        (listing : ListingCandidate) (r : PortfolioResult)
        → derive "successor-workflow" (listing.workflow_id ∷ listing.listing_id ∷ [])
          ≢ listing.workflow_id
        → Comes derive culled winners priors now listing r
        → HasPath r.decision (as_decision derive listing r)
    Comes-HasPath listing r fresh (snapshot, found, reconciled, free, (d, class, built)) =
        subst (λ r. HasPath r.decision (as_decision derive listing r)) (sym built)
          (subst (λ t. HasPath t (as_decision derive listing (build derive listing snapshot d now)))
            (sym (build-decision derive culled winners priors now listing snapshot d))
            (build-HasPath derive listing snapshot d now fresh))

    decide-Explained :
        (listing : ListingCandidate) (listings : List ListingCandidate) (r : PortfolioResult)
        → derive "successor-workflow" (listing.workflow_id ∷ listing.listing_id ∷ [])
          ≢ listing.workflow_id
        → decide derive culled winners priors now listing ≡ some r
        → Explained culled winners priors now (listing ∷ listings) r
    decide-Explained listing listings r fresh decided =
        let comes = decide-Comes derive culled winners priors now listing decided in
        let (snapshot, found, reconciled, free, (d, class, built)) = comes in
        (
          listing,
          snapshot,
          d,
          Memᴰ.head refl,
          (
            found,
            reconciled,
            suppressed-IsFree listing priors now free,
            classify-IsClass listing snapshot culled winners d class,
          ),
          subst (IsResult listing snapshot d now) (sym built)
              (build-IsResult derive listing snapshot d now),
          Comes-HasPath listing r fresh comes,
        )

    pub decide_all-Explained :
        (listings : List ListingCandidate)
        → All
            (λ l. derive "successor-workflow" (l.workflow_id ∷ l.listing_id ∷ []) ≢ l.workflow_id)
            listings
        → All
            (Explained culled winners priors now listings)
            (decide_all derive culled winners priors now listings)
    unfolding decide_all
    decide_all-Explained [] fresh = tt
    decide_all-Explained (listing ∷ listings) fresh =
        add_result-All (Explained culled winners priors now (listing ∷ listings))
          (decide derive culled winners priors now listing)
          (decide_all derive culled winners priors now listings)
          (λ r. decide-Explained listing listings r fresh.0)
          (All-map _ (decide_all derive culled winners priors now listings)
            (λ r (l, s, d, m, is, records, path). (l, s, d, Memᴰ.tail m, is, records, path))
            (decide_all-Explained listings fresh.1))

    IsDecided-decide :
        (listing : ListingCandidate) (snapshot : SnapshotView) (d : DecisionType)
        → IsDecided culled winners priors now listing snapshot d
        → decide derive culled winners priors now listing
          ≡ some (build derive listing snapshot d now)
    unfolding decide
    IsDecided-decide listing snapshot d (found, reconciled, free, class) = rw found (
        ground (
          arith,
          reconciled,
          IsFree-suppressed listing priors now free,
          IsClass-classify listing snapshot culled winners d class,
        ))

    decided_there :
        (listing : ListingCandidate) (r : PortfolioResult) (listings : List ListingCandidate)
        → Memᴰ listing listings
        → decide derive culled winners priors now listing ≡ some r
        → Memᴰ r (decide_all derive culled winners priors now listings)
    unfolding decide_all add_result
    decided_there listing r [] m h = elim m [ ]
    decided_there listing r (l ∷ listings) (Memᴰ.head e) h =
        let own : decide derive culled winners priors now l ≡ some r =
          subst (λ k. decide derive culled winners priors now k ≡ some r) e h in
        rw own (Memᴰ.head refl)
    decided_there listing r (l ∷ listings) (Memᴰ.tail m) h =
        let rest = decided_there listing r listings m h in
        elim (Option-cases (decide derive culled winners priors now l)) [
          | inl passed ↦ rw passed rest
          | inr (other, decided) ↦ rw decided (Memᴰ.tail rest)
        ]

    pub decide_all-IsComplete :
        (listings : List ListingCandidate)
        → IsComplete culled winners priors now listings
            (decide_all derive culled winners priors now listings)
    decide_all-IsComplete listings listing snapshot d m is = (
      build derive listing snapshot d now,
      decided_there listing _ listings m (IsDecided-decide listing snapshot d is),
      build-IsResult derive listing snapshot d now,
    )
