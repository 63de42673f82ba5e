-- ===== src/Eligibility/Slots.antt =====
-- The slot for one new experiment: `schedule_new_front`.
use money_machine.Base.{
  ℕ, String, ◌≡◌, refl, sym, subst, ◌⊎◌, inl, inr, Bool, true, false, not, ◌&&◌, List, [], ◌∷◌,
  ◌++◌, map, arith, All, ◌==◌, if◌then◌else◌, Bool-cases,
}

pub data ExperimentState : Type 0 where
  queued scheduled running concluded abandoned : ExperimentState

pub record QueuedExperiment : Type 0 where
  pub experiment_id : ℕ
  pub product_id : ℕ
  pub state : ExperimentState
  pub blocked : Bool
  pub variant_of_winner : Bool

pub record ExperimentBatch : Type 0 where
  pub winner_product_id : ℕ
  pub experiments : List QueuedExperiment
  pub publishing_enabled : Bool

pub record ExperimentOutcome : Type 0 where
  pub experiment_id : ℕ
  pub state : ExperimentState
  pub delivered : Bool

pub record SlotResult : Type 0 where
  pub scheduled_experiment_ids : List ℕ
  pub outcomes : List ExperimentOutcome
  pub publication_ids : List ℕ
  pub delivered_experiment_ids : List ℕ

is_queued : ExperimentState → Bool
is_queued queued = true
is_queued _ = false

-- `_eligible_experiment`
unfoldable pub eligible_experiment : QueuedExperiment → ℕ → Bool
unfolding is_queued
eligible_experiment experiment winner_product_id =
    is_queued experiment.state
    && (not experiment.blocked
        && (not experiment.variant_of_winner && not (experiment.product_id == winner_product_id)))

abbrev pub unchanged : QueuedExperiment → ExperimentOutcome
unchanged e = record { experiment_id = e.experiment_id; state = e.state; delivered = false }

abbrev pub slotted : QueuedExperiment → ExperimentOutcome
slotted e = record { experiment_id = e.experiment_id; state = scheduled; delivered = true }

-- the loop; the flag says that the slot has been taken
unfoldable pub fill : ℕ → Bool → List QueuedExperiment → List ℕ × List ExperimentOutcome
fill winner taken [] = ([], [])
fill winner taken (e ∷ experiments) =
    let eligible = eligible_experiment e winner && not taken in
    let (ids, outcomes) = fill winner (if eligible then true else taken) experiments in
    if eligible
    then (e.experiment_id ∷ ids, slotted e ∷ outcomes)
    else (ids, unchanged e ∷ outcomes)

-- `derive` is a hash of the experiment's id.
module _ (derive : String → ℕ → ℕ) where
  unfoldable pub schedule_new_front : ExperimentBatch → SlotResult
  schedule_new_front batch =
      let (ids, outcomes) = fill batch.winner_product_id false batch.experiments in
      record {
        scheduled_experiment_ids = ids;
        outcomes = outcomes;
        publication_ids = if batch.publishing_enabled then map (derive "publication") ids else [];
        delivered_experiment_ids = ids;
      }

fill_taken :
    (winner : ℕ) (experiments : List QueuedExperiment)
    → fill winner true experiments ≡ ([], map unchanged experiments)
unfolding fill
fill_taken winner [] = refl
fill_taken winner (e ∷ experiments) = ground (arith, fill_taken winner experiments)

-- What the slot does with a batch: nothing where no experiment is eligible, else it takes the first
-- that is.
abbrev pub Filled : ℕ → List QueuedExperiment → List ℕ → List ExperimentOutcome → Type 0
Filled winner experiments ids outcomes =
    ((ids ≡ [])
      × (outcomes ≡ map unchanged experiments)
      × All (λ e. eligible_experiment e winner ≡ false) experiments)
    ⊎ ((before : List QueuedExperiment) × ((e : QueuedExperiment) × ((after : List QueuedExperiment)
            × (experiments ≡ before ++ (e ∷ after))
            × All (λ e'. eligible_experiment e' winner ≡ false) before
            × (eligible_experiment e winner ≡ true)
            × (ids ≡ e.experiment_id ∷ [])
            × (outcomes ≡ map unchanged before ++ (slotted e ∷ map unchanged after)))))

Filled-cons :
    (winner : ℕ) (e : QueuedExperiment) (experiments : List QueuedExperiment) (ids : List ℕ)
    (outcomes : List ExperimentOutcome)
    → eligible_experiment e winner ≡ false
    → Filled winner experiments ids outcomes
    → Filled winner (e ∷ experiments) ids (unchanged e ∷ outcomes)
Filled-cons winner e experiments ids outcomes no_slot (inl (empty, same, none_left)) =
    inl (empty, rw same, (no_slot, none_left))
Filled-cons winner e experiments ids outcomes no_slot
      (inr (before, (e', (after, whole, refused, taken, id, same)))) =
    inr (e ∷ before, (e', (after, rw whole, (no_slot, refused), taken, id, rw same)))

fill-Filled :
    (winner : ℕ) (experiments : List QueuedExperiment)
    → let (ids, outcomes) = fill winner false experiments in Filled winner experiments ids outcomes
unfolding fill
fill-Filled winner [] = inl (refl, refl, tt)
fill-Filled winner (e ∷ experiments) = elim (Bool-cases (eligible_experiment e winner)) [
  | inl takes ↦
      rw (takes, fill_taken winner experiments)
        (inr ([], (e, (experiments, refl, tt, takes, refl, refl))))
  | inr passes ↦
      let (ids, outcomes) = fill winner false experiments in
      let step : fill winner false (e ∷ experiments) ≡ (ids, unchanged e ∷ outcomes) = rw passes in
      subst (λ p. Filled winner (e ∷ experiments) p.0 p.1) (sym step)
        (Filled-cons winner e experiments ids outcomes passes (fill-Filled winner experiments))
]

-- A batch schedules its first eligible experiment and no other, delivers exactly that one, leaves
-- every other experiment in its state, and publishes nothing while publishing is disabled.
pub schedule_new_front-Filled :
    (derive : String → ℕ → ℕ) (batch : ExperimentBatch)
    → let slot = schedule_new_front derive batch in
      Filled batch.winner_product_id batch.experiments slot.scheduled_experiment_ids slot.outcomes
      × (slot.delivered_experiment_ids ≡ slot.scheduled_experiment_ids)
      × (slot.publication_ids ≡ (
          if batch.publishing_enabled
          then map (derive "publication") slot.scheduled_experiment_ids
          else []))
unfolding schedule_new_front
schedule_new_front-Filled derive batch =
    (fill-Filled batch.winner_product_id batch.experiments, refl, refl)
