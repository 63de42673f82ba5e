-- ===== src/Guard/Run.antt =====
-- A sequence of changes of state, each of them guarded, and what a rank on the states says of it.
use money_machine.Base.{ℕ, suc, ◌≤◌, ◌<◌, ◌≡◌, true, List, [], ◌∷◌, arith, exists, ◌==◌}
use money_machine.Errors.{Outcome, ok, ◌>>◌, >>=-eq-ok}

module _ {S : Type 0} (guarded : S → S → Outcome (Unit {0})) where
  -- the state is set to each target in turn, and the run stops at the first refusal
  unfoldable pub advance : S → List S → Outcome S
  advance s [] = ok s
  advance s (t ∷ path) = let rest = advance t path in do guarded s t; rest

  module _ (rank : S → ℕ) (climbs : (s t : S) → guarded s t ≡ ok tt → rank t ≤ suc (rank s)) where
    -- A run climbs at most one rank at a time, so it visits every rank that it passes.
    pub advance_visits_rank :
        (path : List S) (s t : S) (k : ℕ)
        → advance s path ≡ ok t
        → rank s < k
        → k ≤ rank t
        → exists (λ u. rank u == k) path ≡ true
    unfolding advance exists
    advance_visits_rank [] s t k h below above = ground arith
    advance_visits_rank (u ∷ path) s t k h below above =
        let (_, allowed, rest) = >>=-eq-ok (guarded s u) (λ _. advance u path) h in
        ground (arith, climbs s u allowed, advance_visits_rank path u t k rest)
