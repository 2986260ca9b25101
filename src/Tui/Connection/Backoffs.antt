-- ===== src/Tui/Connection/Backoffs.antt =====
-- The delays of src/tui/connection.rs.
use file_peeker.Base.{ℕ, suc, ◌*◌, ◌^◌, ◌≤◌, ◌≡◌, ap, true, ltb, arith, inl, inr, Bool-cases}
use native.Mathlib.Nat.{mul-le-mul_left, pow-suc, mul_left_comm}
use file_peeker.Tui.Connection.{Backoff, factor, delay}

-- The factors double until they are as large as a `u32` gets.
factor-doubles : (n : ℕ) → (factor n ≤ factor (suc n)) × (factor (suc n) ≤ 2 * factor n)
unfolding factor
factor-doubles n = elim (Bool-cases (ltb (suc n) 32)) [
  | inl u ↦
      let below : ltb n 32 ≡ true = ground arith in
      rw (u, below) (omega (arith, pow-suc 2 n), omega (arith, pow-suc 2 n))
  | inr u ↦ elim (Bool-cases (ltb n 32)) [
    | inl w ↦
        let last : n ≡ 31 = ground arith in
        let largest : 2 ^ n ≡ 2147483648 = ap (λ k. 2 ^ k) last in
        rw (u, w) (omega (arith, largest), omega (arith, largest))
    | inr w ↦ rw (u, w) (omega arith, omega arith)
  ]
]

-- The delay before an attempt is never more than the backoff's maximum, never less than before the attempt before it,
-- and at most twice that, however many attempts there have been: it neither wraps nor falls back.
pub delay-bounds :
    (b : Backoff) (attempt : ℕ)
    → (delay b attempt ≤ b.max_delay)
      × (delay b attempt ≤ delay b (suc attempt))
      × (delay b (suc attempt) ≤ 2 * delay b attempt)
unfolding delay
delay-bounds b attempt =
    let f = factor-doubles attempt in
    let low = mul-le-mul_left b.base f.0 in
    let high = mul-le-mul_left b.base f.1 in
    let twice = mul_left_comm b.base 2 (factor attempt) in
    (omega arith, omega (arith, low), omega (arith, high, twice))
