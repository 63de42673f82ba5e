-- ===== src/Retry/Delay.antt =====
-- The backoff delay: capped, never shrinking, and at its cap from some attempt on.
use native.Mathlib.Nat.{pow-suc, pow-le-pow_right, mul-le-mul_left}
use native.Mathlib.Numerals.{add-one}
use money_machine.Base.{ℕ, ◌+◌, ◌^◌, ◌≤◌, ◌<◌, ◌≡◌, arith, ltb, if◌then◌else◌, Bool-cases, inl, inr}
use money_machine.Retry.{Backoff, default_backoff, calculate_backoff}

-- With a multiplier of one or more, a later attempt never waits less than an earlier one, and no
-- attempt waits longer than the cap.
pub calculate_backoff_grows :
    (b : Backoff) (n k : ℕ)
    → 0 < b.backoff_multiplier
    → (calculate_backoff n b ≤ calculate_backoff (n + k) b)
      × (calculate_backoff n b ≤ b.max_delay_seconds)
unfolding calculate_backoff
calculate_backoff_grows b n k h = (
  omega (
    arith,
    mul-le-mul_left b.base_delay_seconds (pow-le-pow_right h {i = n} {j = n + k} (omega arith)),
  ),
  omega arith,
)

-- With the defaults the delay is 2, 4, 8, … seconds for the first eight attempts, and 300 after them.
pub default_delay :
    (n : ℕ) → calculate_backoff n default_backoff ≡ (if ltb n 8 then 2 ^ (n + 1) else 300)
unfolding calculate_backoff
default_delay n = elim (Bool-cases (ltb n 8)) [
  | inl early ↦
      rw (early, add-one, pow-suc)
        (omega (arith, pow-le-pow_right {n = 2} (omega arith) {i = n} {j = 7} (ground arith)))
  | inr late ↦
      rw late (omega (arith, pow-le-pow_right {n = 2} (omega arith) {i = 8} {j = n} (ground arith)))
]
