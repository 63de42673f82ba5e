-- ===== src/ClosedLoop/Confirmation.antt =====
-- When a cull is confirmed.
use money_machine.Base.{
  ℕ, String, ◌≡◌, refl, ◌≢◌, ◌↔◌, true, false, some, List, [], ◌∷◌, exists, arith, str_eq, eq_iff,
  strip, Option-cases, inl, inr, ap, sym, ◌∙◌,
}
use money_machine.Domain.{DecisionType, is_event}
use money_machine.Domain.EventName.{listing_culled}
use money_machine.Domain.DecisionType.{hold, repair, cull, multiply}
use money_machine.Results.{done}
use money_machine.Eligibility.Models.{PortfolioResult, ListingCandidate, SnapshotView}
use money_machine.Eligibility.Decide.{build}
use money_machine.ClosedLoop.{
  FixtureStatus, confirmed, unknown, failed, CullConfirmation, unconfirmed, confirm_fixture_cull,
  confirm_decision, confirm_job,
}

-- the confirmation of a cull, with its lesson
abbrev pub culled_with : PortfolioResult → ℕ → String → List ℕ → CullConfirmation
culled_with result job lesson artifact_ids = record {
  event_names = listing_culled ∷ [];
  lesson = some (record {
    listing_id = result.listing_id;
    deactivation_job_id = job;
    lesson = strip lesson;
    retained = true;
  });
  retained_artifact_ids = artifact_ids;
  deactivation_executed = false;
}

-- the cull is named
abbrev pub NamesCull : CullConfirmation → Type 0
NamesCull c = exists (is_event listing_culled) c.event_names ≡ true

module _ (result : PortfolioResult) (lesson : String) (ids : List ℕ) where
  confirm_job_lem :
      (job : ℕ) (status : FixtureStatus) (c : CullConfirmation)
      → confirm_job job result status lesson ids ≡ done c
      → NamesCull c
      → (status ≡ confirmed)
        × (str_eq (strip lesson) "" ≡ false)
        × (c ≡ culled_with result job lesson ids)
  unfolding confirm_job exists
  confirm_job_lem job confirmed c h named = (refl, ground arith, ground arith)
  confirm_job_lem job unknown c h named = absurd (ground arith)
  confirm_job_lem job failed c h named = absurd (ground arith)

  confirm_decision_lem :
      (d : DecisionType) (status : FixtureStatus) (c : CullConfirmation)
      → confirm_decision d result status lesson ids ≡ done c
      → NamesCull c
      → (d ≡ cull)
        × (status ≡ confirmed)
        × (str_eq (strip lesson) "" ≡ false)
        × ((job : ℕ) × (result.deactivation_job_id ≡ some job)
            × (c ≡ culled_with result job lesson ids))
  unfolding confirm_decision exists
  confirm_decision_lem cull status c h named = elim (Option-cases result.deactivation_job_id) [
    | inl missing ↦ absurd (ground arith)
    | inr (job, found) ↦
        let confirms : confirm_job job result status lesson ids ≡ done c = ground arith in
        let (is_confirmed, worded, whole) = confirm_job_lem job status c confirms named in
        (refl, is_confirmed, worded, (job, found, whole))
  ]
  confirm_decision_lem hold status c h named = absurd (ground arith)
  confirm_decision_lem repair status c h named = absurd (ground arith)
  confirm_decision_lem multiply status c h named = absurd (ground arith)

str_eq-ne : (s t : String) → s ≢ t → str_eq s t ≡ false
str_eq-ne s t h = ground (arith, eq_iff s t)

names_itself : exists (is_event listing_culled) (listing_culled ∷ []) ≡ true
unfolding exists
names_itself = refl

confirmed_lem :
    (result : PortfolioResult) (job : ℕ) (lesson : String) (ids : List ℕ)
    → result.deactivation_job_id ≡ some job
    → strip lesson ≢ ""
    → confirm_decision cull result confirmed lesson ids ≡ done (culled_with result job lesson ids)
unfolding confirm_decision confirm_job
confirmed_lem result job lesson ids found worded =
    ground (arith, found, str_eq-ne (strip lesson) "" worded)

-- A confirmation names the cull exactly for a CULL with its deactivation whose fixture says CONFIRMED and
-- whose lesson is not blank; it then keeps the lesson and the artifacts. Nothing else is said to be
-- culled, and nothing is ever said to be executed.
pub confirm_fixture_cull_iff :
    (result : PortfolioResult) (status : FixtureStatus) (lesson : String) (ids : List ℕ)
    (c : CullConfirmation)
    → exists (is_event listing_culled) result.event_names ≡ false
    → ((confirm_fixture_cull result status lesson ids ≡ done c)
        × (exists (is_event listing_culled) c.event_names ≡ true))
      ↔ ((result.decision ≡ cull)
          × (status ≡ confirmed)
          × (strip lesson ≢ "")
          × ((job : ℕ) × (result.deactivation_job_id ≡ some job)
              × (c ≡ culled_with result job lesson ids)))
unfolding confirm_fixture_cull confirm_decision confirm_job
confirm_fixture_cull_iff result status lesson ids c new = (
  λ (h, named).
      let decides : confirm_decision result.decision result status lesson ids ≡ done c =
        ground arith in
      let (is_cull, is_confirmed, worded, (job, found, whole)) =
        confirm_decision_lem result lesson ids result.decision status c decides named in
      (is_cull, is_confirmed, (λ e. ground (arith, eq_iff (strip lesson) "")), (job, found, whole)),
  λ (is_cull, is_confirmed, worded, (job, found, whole)). (
    rw (new, is_cull, is_confirmed)
        (confirmed_lem result job lesson ids found worded ∙ ap done (sym whole)),
    rw whole names_itself,
  ),
)

-- Every decision of a round can be confirmed: with a lesson that is not blank the confirmation never
-- refuses, and it names the cull exactly for a CULL that the fixture confirms.
pub confirm-build :
    (derive : String → List ℕ → ℕ) (listing : ListingCandidate) (snapshot : SnapshotView)
    (d : DecisionType) (now : ℕ) (status : FixtureStatus) (lesson : String) (ids : List ℕ)
    → strip lesson ≢ ""
    → (c : CullConfirmation) × (confirm_fixture_cull
          (build derive listing snapshot d now)
          status
          lesson
          ids
        ≡ done c)
      × ((c.event_names ≡ listing_culled ∷ []) ↔ ((d ≡ cull) × (status ≡ confirmed)))
unfolding confirm_fixture_cull confirm_decision confirm_job build exists
confirm-build derive listing snapshot hold now status lesson ids worded =
    (unconfirmed, refl, ((λ e. cc), (λ e. cc)))
confirm-build derive listing snapshot repair now status lesson ids worded =
    (unconfirmed, refl, ((λ e. cc), (λ e. cc)))
confirm-build derive listing snapshot multiply now status lesson ids worded =
    (unconfirmed, refl, ((λ e. cc), (λ e. cc)))
confirm-build derive listing snapshot cull now unknown lesson ids worded =
    (unconfirmed, refl, ((λ e. cc), (λ e. cc)))
confirm-build derive listing snapshot cull now failed lesson ids worded =
    (unconfirmed, refl, ((λ e. cc), (λ e. cc)))
confirm-build derive listing snapshot cull now confirmed lesson ids worded =
    let result = build derive listing snapshot cull now in
    let job = derive "deactivation" (listing.listing_id ∷ snapshot.snapshot_id ∷ []) in
    (
      culled_with result job lesson ids,
      rw (str_eq-ne (strip lesson) "" worded) refl,
      ((λ e. (refl, refl)), (λ e. refl)),
    )
