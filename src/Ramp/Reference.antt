-- ===== src/Ramp/Reference.antt =====
-- The ramp decision in short.
use money_machine.Base.{
  ℕ, ◌+◌, ◌*◌, ◌<◌, ◌≡◌, refl, Bool, true, false, Option, none, some, ltb, ℤ, pos, negsuc,
  Option-cases, Bool-cases, ap, sym, ◌∙◌, arith, if◌then◌else◌, ◌↔◌, ◌⊎◌, inl, inr, min,
}
use money_machine.Results.{done}
use money_machine.Ramp.{
  RampInput, PublishingRampDecision, Moment, opened, closed, decide_publishing_ramp, validate,
  decide_valid, closed_until, open_below_cap, is_positive, is_negative,
}

-- The numbers of a valid input: caps and window are positive, and there is an oldest publication
-- exactly where something has been counted.
pub record IsInput (i : RampInput) (initial hard window counted waiting : ℕ) : Type 0 where
  pub initial_cap : i.initial_weekly_cap ≡ pos initial
  pub hard_cap : i.hard_weekly_cap ≡ pos hard
  pub days : i.rolling_window_days ≡ pos window
  pub reconciled : i.reconciled_count ≡ pos counted
  pub unreconciled : i.unreconciled_count ≡ pos waiting
  pub positive : (0 < initial) × (0 < hard) × (0 < window)
  pub oldest :
      ((counted ≡ 0) × (i.oldest_reconciled_at ≡ none))
      ⊎ ((0 < counted)
          × ((at : ℕ) × (i.oldest_reconciled_at ≡ some (record { at = at; has_zone = true }))))

-- Publishing may go on exactly while it is enabled and the count is below both caps; else the window
-- opens when its oldest publication leaves it, or at no known time where publishing is disabled.
pub reference : Bool → ℕ → ℕ → ℕ → ℕ → Option Moment → PublishingRampDecision
reference false initial hard window counted oldest = closed
reference true initial hard window counted none = opened
reference true initial hard window counted (some moment) =
    if ltb counted (min initial hard)
    then opened
    else record { may_publish = false; next_permissible_at = some (moment.at + window * 86400) }

is_positive-pos : (n : ℤ) → is_positive n ≡ true → (k : ℕ) × (n ≡ pos k) × (0 < k)
is_positive-pos (pos k) h = (k, refl, ground arith)
is_positive-pos (negsuc k) h = cc

is_negative-pos : (n : ℤ) → is_negative n ≡ false → (k : ℕ) × (n ≡ pos k)
is_negative-pos (pos k) h = (k, refl)
is_negative-pos (negsuc k) h = cc

oldest_lem :
    (i : RampInput) (counted : ℕ)
    → validate i ≡ done tt
    → i.reconciled_count ≡ pos counted
    → ((counted ≡ 0) × (i.oldest_reconciled_at ≡ none))
      ⊎ ((0 < counted)
          × ((at : ℕ) × (i.oldest_reconciled_at ≡ some (record { at = at; has_zone = true }))))
unfolding validate
oldest_lem i counted h e = elim (Option-cases i.oldest_reconciled_at) [
  | inl missing ↦ inl (ground arith, missing)
  | inr (moment, found) ↦
      let zone : moment.has_zone ≡ true = ground arith in
      inr (
        ground arith,
        (moment.at, rw found (ap (λ z. some (record { at = moment.at; has_zone = z })) zone)),
      )
]

tests_lem :
    (i : RampInput)
    → validate i ≡ done tt
    → (is_positive i.initial_weekly_cap ≡ true)
      × (is_positive i.hard_weekly_cap ≡ true)
      × (is_positive i.rolling_window_days ≡ true)
      × (is_negative i.reconciled_count ≡ false)
      × (is_negative i.unreconciled_count ≡ false)
unfolding validate
tests_lem i h = (ground arith, ground arith, ground arith, ground arith, ground arith)

-- what the validation lets through
validate-IsInput :
    (i : RampInput)
    → validate i ≡ done tt
    → (initial : ℕ) × ((hard : ℕ) × ((window : ℕ) × ((counted : ℕ) × ((waiting : ℕ) × IsInput i
                initial hard window counted waiting))))
validate-IsInput i h =
    let (a, b, c, d, e) = tests_lem i h in
    let (initial, initial_cap, p) = is_positive-pos i.initial_weekly_cap a in
    let (hard, hard_cap, q) = is_positive-pos i.hard_weekly_cap b in
    let (window, days, r) = is_positive-pos i.rolling_window_days c in
    let (counted, reconciled) = is_negative-pos i.reconciled_count d in
    let (waiting, unreconciled) = is_negative-pos i.unreconciled_count e in
    (
      initial,
      (
        hard,
        (
          window,
          (
            counted,
            (
              waiting,
              record {
                initial_cap = initial_cap;
                hard_cap = hard_cap;
                days = days;
                reconciled = reconciled;
                unreconciled = unreconciled;
                positive = (p, q, r);
                oldest = oldest_lem i counted h reconciled;
              },
            ),
          ),
        ),
      ),
    )

module _ (i : RampInput) (initial hard window counted waiting : ℕ)
    (v : IsInput i initial hard window counted waiting) where
  IsInput-validate : validate i ≡ done tt
  unfolding validate
  IsInput-validate = ground arith

  -- below the initial cap one of the three openings is taken
  below_opens : counted < initial → open_below_cap i ≡ opened
  unfolding open_below_cap
  below_opens h = ground arith

  enabled_lem :
      (oldest : Option Moment)
      → i.oldest_reconciled_at ≡ oldest
      → i.publishing_enabled ≡ true
      → decide_valid i ≡ done (reference true initial hard window counted oldest)
  unfolding decide_valid closed_until reference
  enabled_lem none e on = ground (arith, below_opens)
  enabled_lem (some moment) e on = elim (Bool-cases (ltb counted (min initial hard))) [
    | inl below ↦ rw below (ground (arith, below_opens))
    | inr above ↦ rw above (ground arith)
  ]

  IsInput-decide_valid :
      decide_valid i
      ≡ done (reference i.publishing_enabled initial hard window counted i.oldest_reconciled_at)
  unfolding decide_valid reference
  IsInput-decide_valid = elim (Bool-cases i.publishing_enabled) [
    | inl on ↦
        enabled_lem i.oldest_reconciled_at refl on
        ∙ ap (λ b. done (reference b initial hard window counted i.oldest_reconciled_at)) (sym on)
    | inr off ↦ ground arith
  ]

-- A publication is decided exactly for a valid input, and exactly as in the reference: the three
-- openings of the source come to one, and no valid input raises for want of an oldest publication.
pub decide_publishing_ramp_iff :
    (i : RampInput) (d : PublishingRampDecision)
    → (decide_publishing_ramp i ≡ done d) ↔ (
        (initial : ℕ) × ((hard : ℕ) × ((window : ℕ) × ((counted : ℕ) × ((waiting : ℕ) × IsInput i
                  initial hard window counted waiting
                × (d
                    ≡ reference i.publishing_enabled initial hard window counted
                        i.oldest_reconciled_at))))))
unfolding decide_publishing_ramp
decide_publishing_ramp_iff i d = (
  λ h.
      let (initial, (hard, (window, (counted, (waiting, v))))) =
        validate-IsInput i (ground arith) in
      let decided : decide_valid i ≡ done d = ground arith in
      (
        initial,
        (
          hard,
          (
            window,
            (
              counted,
              (
                waiting,
                v,
                cc (IsInput-decide_valid i initial hard window counted waiting v, decided),
              ),
            ),
          ),
        ),
      ),
  λ (initial, (hard, (window, (counted, (waiting, v, e))))).
      rw (IsInput-validate i initial hard window counted waiting v, e)
        (IsInput-decide_valid i initial hard window counted waiting v),
)
