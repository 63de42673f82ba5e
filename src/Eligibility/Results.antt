-- ===== src/Eligibility/Results.antt =====
-- The results of `evaluate_portfolio`: where they come from, and what a second round adds.
use money_machine.Base.{
  ℕ, ◌+◌, ◌≤◌, ◌<◌, ◌≡◌, refl, ◌≢◌, ◌⊎◌, inl, inr, String, Bool, true, false, some, List, [], ◌∷◌,
  arith, All, Memᴰ, subst, sym, ◌∙◌, ap, ℤ, pos,
}
use money_machine.Domain.{DecisionType}
use money_machine.Domain.DecisionType.{hold, repair, cull, multiply}
use money_machine.Results.{done, Result-cases}
use money_machine.Eligibility.{cull_ids, multiply_ids}
use money_machine.Eligibility.Models.{SnapshotView, ListingCandidate, PortfolioResult}
use money_machine.Eligibility.Cull.{cull_ids-done}
use money_machine.Eligibility.Decide.{
  classify, suppressed, prior_of, collection_gap, build, decide, decide_all, evaluate_portfolio,
}
use money_machine.Eligibility.Explaining.{
  add_result-All, Explained, IsComplete, decide_all-Explained, decide_all-IsComplete,
}
use money_machine.Eligibility.Rounds.{
  HasUniqueIds, build-decision, decide-Comes, prior_of-decide_all,
}

module _ (derive : String → List ℕ → ℕ) where
  -- the decisions of a second round
  abbrev pub IsFinal : PortfolioResult → Type 0
  IsFinal r = (r.decision ≡ cull) ⊎ (r.decision ≡ multiply)

  module _ (culled winners : List ℕ) (now later : ℕ) (soon : later < now + collection_gap) where
    held_back :
        (listing : ListingCandidate) (snapshot : SnapshotView) (d : DecisionType)
        → listing.snapshot ≡ some snapshot
        → suppressed listing (some (build derive listing snapshot d now)) later ≡ false
        → (d ≡ cull) ⊎ (d ≡ multiply)
    unfolding suppressed build
    held_back listing snapshot hold found free = absurd (ground arith)
    held_back listing snapshot repair found free = absurd (ground (arith, found))
    held_back listing snapshot cull found free = inl refl
    held_back listing snapshot multiply found free = inr refl

    -- a listing of the second round was decided in the first, and alike
    decided_before :
        (listing : ListingCandidate) (snapshot : SnapshotView) (d : DecisionType)
        → listing.snapshot ≡ some snapshot
        → snapshot.reconciled ≡ true
        → classify listing snapshot culled winners ≡ some d
        → decide derive culled winners [] now listing ≡ some (build derive listing snapshot d now)
    unfolding decide prior_of suppressed
    decided_before listing snapshot d found reconciled class =
        rw found (ground (arith, reconciled, class))

    module _ (listings : List ListingCandidate) (unique : HasUniqueIds listings) where
      first : List PortfolioResult
      first = decide_all derive culled winners [] now listings

      -- what the second round decides on a listing is final
      decide-IsFinal :
          (listing : ListingCandidate) {r : PortfolioResult}
          → Memᴰ listing listings
          → decide derive culled winners first later listing ≡ some r
          → IsFinal r
      unfolding first
      decide-IsFinal listing m decided =
          let (snapshot, found, reconciled, free, (d, class, built)) =
            decide-Comes derive culled winners first later listing decided in
          let before =
            prior_of-decide_all derive culled winners [] now listing listings unique m
            ∙ decided_before listing snapshot d found reconciled class in
          let final =
            held_back listing snapshot d found
              (subst (λ prior. suppressed listing prior later ≡ false) before free) in
          subst (λ r. IsFinal r) (sym built)
            (subst (λ t. (t ≡ cull) ⊎ (t ≡ multiply))
              (sym (build-decision derive culled winners first later listing snapshot d)) final)

      second_round :
          (some_of_them : List ListingCandidate)
          → ((l : ListingCandidate) → Memᴰ l some_of_them → Memᴰ l listings)
          → All IsFinal (decide_all derive culled winners first later some_of_them)
      unfolding decide_all
      second_round [] within = tt
      second_round (l ∷ rest) within =
          add_result-All derive IsFinal (decide derive culled winners first later l)
            (decide_all derive culled winners first later rest)
            (λ r decided. decide-IsFinal l (within l (Memᴰ.head refl)) decided)
            (second_round rest (λ l m. within l (Memᴰ.tail m)))

  evaluate_portfolio-results :
      (listings : List ListingCandidate) (now : ℕ) (zone : Bool) (priors : List PortfolioResult)
      (percent : ℤ) {results : List PortfolioResult}
      → evaluate_portfolio derive listings now zone priors percent ≡ done results
      → (culled : List ℕ) × (cull_ids percent listings ≡ done culled)
        × (results ≡ decide_all derive culled (multiply_ids listings culled) priors now listings)
  unfolding evaluate_portfolio
  evaluate_portfolio-results listings now zone priors percent h =
      elim (Result-cases (cull_ids percent listings)) [
        | inr (e, stops) ↦ absurd (ground arith)
        | inl (culled, culls) ↦ (culled, culls, ground arith)
      ]

  -- In a round the results are those of the decided listings and no other: where no derived workflow id
  -- is that of its own parent, every result is for a listing of the round that has reconciled metrics, is
  -- held back by no earlier result and has the class that the rules give it, with the event, the next
  -- collection and the ids of that class; and every listing decided by the rules has a result.
  pub evaluate_portfolio-Explained :
      (listings : List ListingCandidate) (now : ℕ) (zone : Bool) (priors : List PortfolioResult)
      (percent : ℤ) {results : List PortfolioResult}
      → All
          (λ l. derive "successor-workflow" (l.workflow_id ∷ l.listing_id ∷ []) ≢ l.workflow_id)
          listings
      → evaluate_portfolio derive listings now zone priors percent ≡ done results
      → (culled : List ℕ) × (cull_ids percent listings ≡ done culled)
        × All (Explained derive culled (multiply_ids listings culled) priors now listings) results
        × IsComplete derive culled (multiply_ids listings culled) priors now listings results
  evaluate_portfolio-Explained listings now zone priors percent fresh h =
      let (culled, culls, all) = evaluate_portfolio-results listings now zone priors percent h in
      let winners = multiply_ids listings culled in
      (
        culled,
        culls,
        subst (All (Explained derive culled winners priors now listings)) (sym all)
            (decide_all-Explained derive culled winners priors now listings fresh),
        subst (IsComplete derive culled winners priors now listings) (sym all)
            (decide_all-IsComplete derive culled winners priors now listings),
      )

  -- With a percentage of a hundred at most and a time with a zone, a round always has a result.
  pub evaluate_portfolio-done :
      (listings : List ListingCandidate) (now : ℕ) (priors : List PortfolioResult) (percent : ℕ)
      → percent ≤ 100
      → (results : List PortfolioResult) × (evaluate_portfolio derive listings now true priors
            (pos percent)
          ≡ done results)
  unfolding evaluate_portfolio
  evaluate_portfolio-done listings now priors percent h =
      let (culled, culls) = cull_ids-done percent listings h in
      (decide_all derive culled (multiply_ids listings culled) priors now listings, rw culls)

  -- A round that is repeated on the same listings within seven days, with the results of the first as
  -- its priors, decides nothing anew but CULL and MULTIPLY: no HOLD and no REPAIR is recorded twice.
  pub evaluate_portfolio_repeated :
      (listings : List ListingCandidate) (now later : ℕ) (percent : ℤ)
      {results results' : List PortfolioResult}
      → HasUniqueIds listings
      → later < now + collection_gap
      → evaluate_portfolio derive listings now true [] percent ≡ done results
      → evaluate_portfolio derive listings later true results percent ≡ done results'
      → All IsFinal results'
  unfolding first
  evaluate_portfolio_repeated listings now later percent {results} {results'} unique soon h h' =
      let (culled, culls, all) = evaluate_portfolio-results listings now true [] percent h in
      let (culled', culls', all') =
        evaluate_portfolio-results listings later true results percent h' in
      let same : culled' ≡ culled = cc (culls, culls') in
      let winners = multiply_ids listings culled in
      let first_round = decide_all derive culled winners [] now listings in
      let whole : results' ≡ decide_all derive culled winners first_round later listings =
        all'
        ∙ ap (λ c. decide_all derive c (multiply_ids listings c) results later listings) same
        ∙ ap (λ p. decide_all derive culled winners p later listings) all in
      subst (All IsFinal) (sym whole)
        (second_round culled winners now later soon listings unique listings (λ l m. m))
