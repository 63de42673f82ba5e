-- ===== src/Maturity/Periods.antt =====
-- How the live periods of a listing add up.
use money_machine.Base.{
  ℕ, ◌+◌, ◌-◌, ◌*◌, ◌/◌, ◌≤◌, ◌<◌, ◌≡◌, refl, ◌⊎◌, inl, inr, Option, none, some, List, [], ◌∷◌,
  ◌++◌, arith, All, All-append, All-order_by, order_by, sum_by, sum_by-order_by, ◌∙◌, ltb,
  Bool-cases,
}
use money_machine.Results.{done, Result-cases, IfDone, IfDone-done}
use money_machine.Maturity.{
  LiveInterval, IntervalStatus, active, inactive, unknown, Span, max, min, clipped, collect,
  seconds_of, total_seconds, accumulated_live_periods,
}

-- a span that is not empty and lies between the publication and the evaluation
abbrev pub IsWithin : ℕ → ℕ → Span → Type 0
IsWithin published evaluated span = (published ≤ span.0) × (span.0 < span.1) × (span.1 ≤ evaluated)

-- the whole seconds that an interval is live between the publication and the evaluation
abbrev pub live_seconds : ℕ → ℕ → IntervalStatus → ℕ → ℕ → ℕ
live_seconds published evaluated active start end =
    (min end evaluated - max start published) / 1000000
live_seconds published evaluated _ start end = 0

-- the same of all intervals, in any order
abbrev pub all_live_seconds : ℕ → ℕ → List LiveInterval → ℕ
all_live_seconds published evaluated [] = 0
all_live_seconds published evaluated (i ∷ intervals) =
    live_seconds published evaluated i.status i.started_at.at i.ended_at.at
    + all_live_seconds published evaluated intervals

abbrev pub sum_seconds : List Span → ℕ
sum_seconds = sum_by seconds_of

sum_seconds-append : (xs ys : List Span) → sum_seconds (xs ++ ys) ≡ sum_seconds xs + sum_seconds ys
sum_seconds-append [] ys = omega arith
sum_seconds-append (x ∷ xs) ys = omega (arith, sum_seconds-append xs ys)

module _ (published evaluated : ℕ) where
  -- the spans lie in the window and last so many whole seconds
  abbrev pub Lasts : ℕ → List Span → Type 0
  Lasts seconds spans = All (IsWithin published evaluated) spans × (sum_seconds spans ≡ seconds)

  clipped-Lasts :
      (status : IntervalStatus) (start end : ℕ)
      → IfDone
          (Lasts (live_seconds published evaluated status start end))
          (clipped published evaluated status start end)
  unfolding clipped
  clipped-Lasts inactive start end = (tt, refl)
  clipped-Lasts unknown start end = tt
  clipped-Lasts active start end =
      elim (Bool-cases (ltb (max start published) (min end evaluated))) [
        | inl some_time ↦
            rw some_time (((ground arith, ground arith, ground arith), tt), omega arith)
        | inr no_time ↦ rw no_time (tt, ground arith)
      ]

  collect-Lasts :
      (intervals : List LiveInterval) {spans : List Span}
      → collect published evaluated intervals ≡ done spans
      → Lasts (all_live_seconds published evaluated intervals) spans
  unfolding collect
  collect-Lasts [] h = IfDone-done (Lasts 0) (done []) h (tt, refl)
  collect-Lasts (i ∷ intervals) {spans} h =
      let clip = clipped published evaluated i.status i.started_at.at i.ended_at.at in
      elim (Result-cases clip) [
        | inr (e, stops) ↦ absurd (ground arith)
        | inl (here, clips) ↦ elim (Result-cases (collect published evaluated intervals)) [
          | inr (e, stops) ↦ absurd (ground arith)
          | inl (rest, collects) ↦
              let whole : spans ≡ here ++ rest = ground arith in
              let (within, seconds) =
                IfDone-done _ clip clips (clipped-Lasts i.status i.started_at.at i.ended_at.at) in
              let (within', seconds') = collect-Lasts intervals collects in
              rw whole (
                All-append _ here rest within within',
                omega (arith, sum_seconds-append here rest, seconds, seconds'),
              )
        ]
      ]

  -- Spans that do not overlap and lie in the window last no longer than what is left of the window.
  total_seconds-le :
      (previous_end : Option ℕ) (from : ℕ) (spans : List Span)
      → ((previous_end ≡ none) × (from ≡ published)) ⊎ (previous_end ≡ some from)
      → All (IsWithin published evaluated) spans
      → {seconds : ℕ} → total_seconds previous_end spans ≡ done seconds
      → (seconds ≡ sum_seconds spans) × (seconds * 1000000 ≤ evaluated - from)
  unfolding total_seconds
  total_seconds-le previous_end from [] start within {seconds} h = ground arith
  total_seconds-le previous_end from (span ∷ spans) start within {seconds} h =
      elim (Result-cases (total_seconds (some span.1) spans)) [
        | inr (e, stops) ↦ absurd (ground arith)
        | inl (rest, adds) ↦
            let ih = total_seconds-le (some span.1) span.1 spans (inr refl) within.1 adds in
            let whole : seconds ≡ seconds_of span + rest = ground arith in
            let after : from ≤ span.0 = ground arith in omega (arith, ih, whole, after, within.0)
      ]

  -- The periods are the whole days of the live seconds of all intervals, whatever their order, and
  -- they are never more than the days between the publication and the evaluation.
  pub accumulated_live_periods-live :
      (intervals : List LiveInterval) {periods : ℕ}
      → accumulated_live_periods published intervals evaluated ≡ done periods
      → (periods ≡ all_live_seconds published evaluated intervals / 86400)
        × (periods * 86400 * 1000000 ≤ evaluated - published)
  unfolding accumulated_live_periods
  accumulated_live_periods-live intervals {periods} h =
      elim (Result-cases (collect published evaluated intervals)) [
        | inr (e, stops) ↦ absurd (ground arith)
        | inl (spans, collects) ↦
            let sorted = order_by (λ (span : Span). span.0) spans in
            elim (Result-cases (total_seconds none sorted)) [
              | inr (e, stops) ↦ absurd (ground arith)
              | inl (seconds, adds) ↦
                  let (within, sum) = collect-Lasts intervals collects in
                  let (all_of_them, le) =
                    total_seconds-le none published sorted (inl (refl, refl))
                      (All-order_by (λ (span : Span). span.0) (IsWithin published evaluated) spans
                        within)
                      adds in
                  let same = sum_by-order_by (λ (span : Span). span.0) seconds_of spans in
                  let is_days : periods ≡ seconds / 86400 = ground arith in
                  let total : seconds ≡ all_live_seconds published evaluated intervals =
                    all_of_them ∙ same ∙ sum in
                  (rw (← total) is_days, omega (arith, is_days, le))
            ]
      ]
