-- ===== src/Amm/Pool/Product.antt =====
-- The constant product of internal/bridge/amm/pool.go: what a swap does to the two reserves.
use shiva_blockchain.Base.{
  ℕ, ◌+◌, ◌-◌, ◌*◌, ◌/◌, ◌≤◌, ◌<◌, ◌≡◌, ap, inl, inr, arith, ltb, leb, ◌==◌, if◌then◌else◌, leb→le,
  Bool-cases, u64_mod, ok, err,
}
use native.Mathlib.Nat.{mul-pos, mul-le-mul_right, mul-le-mul_left, div-mul-le_self}
use shiva_blockchain.Base.Int.{pos, ◌-ℤ◌}
use shiva_blockchain.Amm.Pool.{Pool, amount_too_large, division_panic, quote_amount}

-- Both reserves are positive and the fee is at most the whole amount.
pub record IsLive (p : Pool) (r0 r1 f : ℕ) : Type 0 where
  pub at0 : p.reserve0 ≡ pos r0
  pub at1 : p.reserve1 ≡ pos r1
  pub fee : p.fee_bps ≡ pos f
  pub fee_le : f ≤ 10000
  pub pos0 : 0 < r0
  pub pos1 : 0 < r1

-- The amount that counts after the fee, in units of 1 / 10000.
abbrev pub after_fee : ℕ → ℕ → ℕ
after_fee amount_in f = amount_in * (10000 - f)

-- The amount paid for `amount_in`: the floor of the constant-product formula.
abbrev pub paid : ℕ → ℕ → ℕ → ℕ → ℕ
paid rin rout f amount_in = after_fee amount_in f * rout / (rin * 10000 + after_fee amount_in f)

fee_parts : (f : ℕ) → f ≤ 10000 → pos 10000 -ℤ pos f ≡ pos (10000 - f)
fee_parts f h = ground arith

-- On positive reserves `QuoteSwap` pays the formula, or finds the result too large, or panics at 0.
pub quote_amount-paid :
    (rin rout f amount_in : ℕ)
    → 0 < rin
    → 0 < rout
    → f ≤ 10000
    → quote_amount (pos rin) (pos rout) (pos f) amount_in ≡ (
        if ltb (paid rin rout f amount_in) u64_mod
        then (if amount_in == 0 then err division_panic else ok (paid rin rout f amount_in))
        else err amount_too_large)
unfolding quote_amount
quote_amount-paid rin rout f amount_in h k fee_le = rw (fee_parts f fee_le) (ground arith)

module _ (rin rout a out : ℕ) (floor : out * (rin * 10000 + a) ≤ a * rout) where
  expanded : out * rin * 10000 + out * a ≤ a * rout
  expanded = omega arith

  out-lt : 0 < rin → 0 < rout → out < rout
  out-lt h k = elim (Bool-cases (leb rout out)) [
    | inr less ↦ ground (arith, less)
    | inl more ↦
        let over = mul-le-mul_right a (leb→le rout out more) in
        let some_out = mul-pos {m = out} {n = rin} (ground (arith, more)) h in
        absurd (omega (arith, over, some_out, expanded))
  ]

  -- With the fee, what is paid out is worth at most what came in.
  out_worth : (amount_in d : ℕ) → rout ≡ out + d → a ≤ amount_in * 10000 → out * rin ≤ amount_in * d
  out_worth amount_in d split part =
      let scaled = mul-le-mul_right d part in
      let split' = ap (λ (t : ℕ). a * t) split in omega (arith, scaled, expanded, split')

  product_grows :
      (amount_in : ℕ)
      → 0 < rin
      → 0 < rout
      → a ≤ amount_in * 10000
      → rin * rout ≤ (rin + amount_in) * (rout - out)
  product_grows amount_in h k part =
      let d = rout - out in
      let split : rout ≡ out + d = omega (arith, out-lt h k) in
      let worth = out_worth amount_in d split part in
      let whole = ap (λ (t : ℕ). rin * t) split in omega (arith, worth, whole)

-- The same, of the amount that `QuoteSwap` pays.
paid_floor :
    (rin rout f amount_in : ℕ)
    → paid rin rout f amount_in * (rin * 10000 + after_fee amount_in f)
      ≤ after_fee amount_in f * rout
paid_floor rin rout f amount_in = div-mul-le_self _ _

after_fee-le : (amount_in f : ℕ) → after_fee amount_in f ≤ amount_in * 10000
after_fee-le amount_in f = mul-le-mul_left amount_in (omega arith)

pub paid-lt : (rin rout f amount_in : ℕ) → 0 < rin → 0 < rout → paid rin rout f amount_in < rout
paid-lt rin rout f amount_in h k =
    out-lt rin rout (after_fee amount_in f) (paid rin rout f amount_in)
      (paid_floor rin rout f amount_in) h k

pub paid-product :
    (rin rout f amount_in : ℕ)
    → 0 < rin
    → 0 < rout
    → rin * rout ≤ (rin + amount_in) * (rout - paid rin rout f amount_in)
paid-product rin rout f amount_in h k =
    product_grows rin rout (after_fee amount_in f) (paid rin rout f amount_in)
      (paid_floor rin rout f amount_in) amount_in h k (after_fee-le amount_in f)
