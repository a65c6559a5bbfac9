-- ===== src/Amm/Pool/Shares.antt =====
-- The shares of internal/bridge/amm/pool.go: adding and removing liquidity.
use shiva_blockchain.Base.{
  ℕ, ◌+◌, ◌-◌, ◌*◌, ◌/◌, ◌≤◌, ◌<◌, ◌≡◌, ap, inl, inr, arith, ltb, leb, ◌==◌, if◌then◌else◌, leb→le,
  Bool-cases, u64_mod, ok, err,
}
use native.Mathlib.Nat.{mul-le-mul_right, div-mul-le_self}
use shiva_blockchain.Base.Int.{ℤ, pos, ◌-ℤ◌}
use shiva_blockchain.Amm.Sqrt.{sqrt, IsSqrt, sqrt-IsSqrt}
use shiva_blockchain.Amm.Pool.{
  Pool, invalid_shares, first_mint, next_mint, add_liquidity, burn_of, remove_liquidity,
}

-- A pool with positive reserves, and `ts` shares.
pub record IsFunded (p : Pool) (r0 r1 ts : ℕ) : Type 0 where
  pub at0 : p.reserve0 ≡ pos r0
  pub at1 : p.reserve1 ≡ pos r1
  pub shares : p.total_shares ≡ pos ts
  pub pos0 : 0 < r0
  pub pos1 : 0 < r1
  pub pos_shares : 0 < ts

-- The shares for a deposit into a funded pool.
abbrev pub minted : ℕ → ℕ → ℕ → ℕ → ℕ → ℕ
minted ts r0 r1 amount0 amount1 =
    if ltb (amount0 * ts / r0) (amount1 * ts / r1) then amount0 * ts / r0 else amount1 * ts / r1

next_mint-minted :
    (ts r0 r1 amount0 amount1 : ℕ)
    → 0 < r0
    → 0 < r1
    → next_mint (pos ts) (pos r0) (pos r1) amount0 amount1
      ≡ ok (pos (minted ts r0 r1 amount0 amount1))
unfolding next_mint
next_mint-minted ts r0 r1 amount0 amount1 h k = ground arith

minted_fair :
    (ts r0 r1 amount0 amount1 : ℕ)
    → (minted ts r0 r1 amount0 amount1 * r0 ≤ amount0 * ts)
      × (minted ts r0 r1 amount0 amount1 * r1 ≤ amount1 * ts)
minted_fair ts r0 r1 amount0 amount1 =
    let x = amount0 * ts / r0 in
    let y = amount1 * ts / r1 in
    let fx : x * r0 ≤ amount0 * ts = div-mul-le_self (amount0 * ts) r0 in
    let fy : y * r1 ≤ amount1 * ts = div-mul-le_self (amount1 * ts) r1 in
    elim (Bool-cases (ltb x y)) [
      | inl less ↦
          rw less
            (fx, omega (arith, fy, mul-le-mul_right {m = x} {n = y} r1 (ground (arith, less))))
      | inr more ↦
          rw more
            (omega (arith, fx, mul-le-mul_right {m = y} {n = x} r0 (ground (arith, more))), fy)
    ]

-- A deposit into a funded pool adds the amounts to the reserves and the minted shares to the
-- shares, and these are worth at most what was paid in, in both tokens.
pub add_liquidity_fair :
    (p : Pool) (amount0 amount1 r0 r1 ts : ℕ) {shares : ℕ}
    → IsFunded p r0 r1 ts
    → (add_liquidity p amount0 amount1).0 ≡ ok shares
    → ((add_liquidity p amount0 amount1).1.reserve0 ≡ pos (r0 + amount0))
      × ((add_liquidity p amount0 amount1).1.reserve1 ≡ pos (r1 + amount1))
      × ((add_liquidity p amount0 amount1).1.total_shares ≡ pos (ts + shares))
      × (shares * r0 ≤ amount0 * ts)
      × (shares * r1 ≤ amount1 * ts)
unfolding add_liquidity
add_liquidity_fair p amount0 amount1 r0 r1 ts {shares} h done =
    let mint = next_mint-minted ts r0 r1 amount0 amount1 h.pos0 h.pos1 in
    let fair = minted_fair ts r0 r1 amount0 amount1 in
    ground (arith, h.at0, h.at1, h.shares, h.pos_shares, mint, fair)

-- A deposit into a pool without shares that succeeds mints the integer square root of the product
-- of the amounts, which is not 0.
add_liquidity_first :
    (p : Pool) (amount0 amount1 : ℕ) {shares : ℕ}
    → p.total_shares ≡ pos 0
    → (add_liquidity p amount0 amount1).0 ≡ ok shares
    → IsSqrt shares (amount0 * amount1) × (0 < shares)
unfolding add_liquidity first_mint
add_liquidity_first p amount0 amount1 {shares} empty done =
    let root = sqrt-IsSqrt (amount0 * amount1) in
    let e : shares ≡ sqrt (amount0 * amount1) = ground arith in
    let some_shares : 0 < shares = ground arith in (rw e root, some_shares)

-- How many of the `ts` shares a call of `RemoveLiquidity` burns.
abbrev pub burned : ℕ → ℕ → ℕ
burned ts shares_burn = if ltb shares_burn ts then shares_burn else ts - 1

burn_of-burned :
    (ts shares_burn : ℕ) → 0 < ts → burn_of (pos ts) shares_burn ≡ pos (burned ts shares_burn)
unfolding burn_of
burn_of-burned ts shares_burn h = ground arith

-- The arithmetic of one side: the payout is at most the share of the reserve, and what stays behind
-- backs the shares that stay at least as well as before.
module _ (b r ts : ℕ) (less : b < ts) (some_reserve : 0 < r) where
  pub payout_floor : b * r / ts * ts ≤ b * r
  payout_floor = div-mul-le_self (b * r) ts

  pub payout-lt : b * r / ts < r
  payout-lt = elim (Bool-cases (leb r (b * r / ts))) [
    | inr fine ↦ ground (arith, fine)
    | inl more ↦
        let over = mul-le-mul_right {m = r} {n = b * r / ts} ts (leb→le r (b * r / ts) more) in
        let gap = mul-le-mul_right {m = b + 1} {n = ts} r (omega (arith, less)) in
        absurd (omega (arith, over, gap, payout_floor, some_reserve))
  ]

  pub left_behind : r * (ts - b) ≤ (r - b * r / ts) * ts
  left_behind =
      let rest = r - b * r / ts in
      let stay = ts - b in
      let split : r ≡ b * r / ts + rest = omega (arith, payout-lt) in
      let split' : ts ≡ b + stay = omega (arith, less) in
      let e = ap (λ (t : ℕ). t * ts) split in
      let e' = ap (λ (t : ℕ). r * t) split' in omega (arith, e, e', payout_floor)

-- What holds of one side after liquidity was removed: it paid at most its share, is not empty, and
-- backs the remaining shares at least as well as before.
pub record IsSideFair (r ts b amount : ℕ) (after : ℤ) : Type 0 where
  pub left : after ≡ pos (r - amount)
  pub at_most_share : amount * ts ≤ b * r
  pub not_empty : 0 < r - amount
  pub undiluted : r * (ts - b) ≤ (r - amount) * ts

side_fair :
    (b r ts : ℕ) → b < ts → 0 < r → IsSideFair r ts b (b * r / ts) (pos r -ℤ pos (b * r / ts))
side_fair b r ts less h = record {
  left = ground (arith, payout-lt b r ts less h);
  at_most_share = payout_floor b r ts less h;
  not_empty = omega (arith, payout-lt b r ts less h);
  undiluted = left_behind b r ts less h;
}

-- The pool after `b` shares are burned.
abbrev after_burn : Pool → ℕ → ℕ → ℕ → ℕ → Pool
after_burn p b r0 r1 ts = record p {
  reserve0 = pos r0 -ℤ pos (b * r0 / ts);
  reserve1 = pos r1 -ℤ pos (b * r1 / ts);
  total_shares = pos ts -ℤ pos b;
}

remove_liquidity-cases :
    (p : Pool) (shares_burn r0 r1 ts : ℕ)
    → IsFunded p r0 r1 ts
    → r0 < u64_mod
    → r1 < u64_mod
    → let b = burned ts shares_burn in
      remove_liquidity p shares_burn ≡ (
        if b == 0
        then (err invalid_shares, p)
        else (ok (b * r0 / ts, b * r1 / ts), after_burn p b r0 r1 ts))
unfolding remove_liquidity
remove_liquidity-cases p shares_burn r0 r1 ts h fit0 fit1 =
    let b = burned ts shares_burn in
    let less : b < ts = ground (arith, h.pos_shares) in
    let s0 = payout-lt b r0 ts less h.pos0 in
    let s1 = payout-lt b r1 ts less h.pos1 in
    ground (arith, h.at0, h.at1, h.shares, burn_of-burned ts shares_burn h.pos_shares, s0, s1)

-- Removing liquidity from a funded pool whose reserves fit a uint64, where it succeeds: each side
-- pays at most its part of the shares that are burned, never runs empty, and backs the shares that
-- stay at least as well as before. At least one share always stays.
pub remove_liquidity_fair :
    (p : Pool) (shares_burn r0 r1 ts : ℕ) {amounts : ℕ × ℕ}
    → IsFunded p r0 r1 ts
    → r0 < u64_mod
    → r1 < u64_mod
    → (remove_liquidity p shares_burn).0 ≡ ok amounts
    → IsSideFair r0 ts (burned ts shares_burn) amounts.0 (remove_liquidity p shares_burn).1.reserve0
      × IsSideFair r1 ts
          (burned ts shares_burn)
          amounts.1
          (remove_liquidity p shares_burn).1.reserve1
      × ((remove_liquidity p shares_burn).1.total_shares ≡ pos (ts - burned ts shares_burn))
      × (0 < ts - burned ts shares_burn)
remove_liquidity_fair p shares_burn r0 r1 ts {amounts} h fit0 fit1 done =
    let b = burned ts shares_burn in
    let less : b < ts = ground (arith, h.pos_shares) in
    let answer = remove_liquidity-cases p shares_burn r0 r1 ts h fit0 fit1 in
    elim (Bool-cases (b == 0)) [
      | inl nothing ↦ ground (arith, answer, nothing)
      | inr some_burn ↦
          let e : remove_liquidity p shares_burn
              ≡ (ok (b * r0 / ts, b * r1 / ts), after_burn p b r0 r1 ts) =
            ground (arith, answer, some_burn) in
          let amounts_are : amounts ≡ (b * r0 / ts, b * r1 / ts) = ground (arith, e, done) in
          rw (e, amounts_are)
            (
              side_fair b r0 ts less h.pos0,
              side_fair b r1 ts less h.pos1,
              ground (arith, less),
              omega (arith, less),
            )
    ]
