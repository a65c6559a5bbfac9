-- ===== src/Amm/Sqrt.antt =====
-- `big.Int.Sqrt`: the integer square root, two bits in each round.
use shiva_blockchain.Base.{
  ℕ, zero, suc, ◌+◌, ◌*◌, ◌/◌, ◌≤◌, ◌<◌, inl, inr, arith, leb, ◌==◌, if◌then◌else◌, leb→le,
  Bool-cases,
}

-- One more bit: the root of `n` from the root of `n / 4`.
abbrev next_bit : ℕ → ℕ → ℕ
next_bit n r = if leb ((2 * r + 1) * (2 * r + 1)) n then 2 * r + 1 else 2 * r

sqrt_from : ℕ → ℕ → ℕ
sqrt_from zero n = 0
sqrt_from (suc fuel) n =
    let root = next_bit n (sqrt_from fuel (n / 4)) in if n == 0 then 0 else root

-- Fuel `n` is more than the number of rounds.
unfoldable pub sqrt : ℕ → ℕ
unfolding sqrt_from
sqrt n = sqrt_from n n

-- `r` is the largest number whose square is at most `n`.
pub record IsSqrt (r n : ℕ) : Type 0 where
  pub below : r * r ≤ n
  pub above : n < (r + 1) * (r + 1)

next_bit-IsSqrt : (n r : ℕ) → IsSqrt r (n / 4) → IsSqrt (next_bit n r) n
next_bit-IsSqrt n r h = elim (Bool-cases (leb ((2 * r + 1) * (2 * r + 1)) n)) [
  | inl bit ↦ rw bit (record { below = leb→le _ _ bit; above = omega (arith, h.above) })
  | inr no_bit ↦
      rw no_bit (record { below = omega (arith, h.below); above = ground (arith, no_bit) })
]

sqrt_from-IsSqrt : (fuel n : ℕ) → n ≤ fuel → IsSqrt (sqrt_from fuel n) n
unfolding sqrt_from
sqrt_from-IsSqrt zero n h = omega arith
sqrt_from-IsSqrt (suc fuel) n h = elim (Bool-cases (n == 0)) [
  | inl empty ↦ ground arith
  | inr more ↦
      let root =
        next_bit-IsSqrt n (sqrt_from fuel (n / 4)) (sqrt_from-IsSqrt fuel (n / 4) (ground arith)) in
      rw more root
]

pub sqrt-IsSqrt : (n : ℕ) → IsSqrt (sqrt n) n
unfolding sqrt
sqrt-IsSqrt n = sqrt_from-IsSqrt n n (omega arith)
