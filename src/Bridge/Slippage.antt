-- ===== src/Bridge/Slippage.antt =====
-- The slippage limit of `OneXSwapExecute` in internal/bridge/onexswap.go.
use shiva_blockchain.Base.{
  ℕ, zero, suc, ◌-◌, ◌*◌, ◌≤◌, String, ◌≡◌, inl, inr, Bool, arith, mul64, sub64-eq-sub,
  Result-cases,
}
use shiva_blockchain.Base.Int.{pos}
use shiva_blockchain.Amm.Pool.{Pool, quote_swap}
use shiva_blockchain.Amm.Pool.Product.{IsLive}
use shiva_blockchain.Amm.Pool.Swaps.{swap-IsPaid}
use shiva_blockchain.Bridge.Portfolio.{Stamp}
use shiva_blockchain.Bridge.Exchange.{Desk, slippage_factor, min_out, swap_on}
use native.Mathlib.Nat.{mul-le-mul_left}

mul64-le : (a b : ℕ) → mul64 a b ≤ a * b
unfolding mul64
mul64-le a b = omega arith

min_out-le : (expected s : ℕ) → s ≤ 10000 → min_out expected (pos s) ≤ expected
unfolding min_out slippage_factor
min_out-le expected zero h = omega arith
min_out-le expected (suc s) h =
    let factor : ℕ = slippage_factor (pos (suc s)) in
    let e : factor ≡ 10000 - suc s = ground (arith, sub64-eq-sub 10000 (suc s)) in
    let x = mul64-le expected factor in
    let y = mul-le-mul_left {m = factor} {n = 10000} expected (omega (arith, e)) in
    omega (arith, x, y)

-- The limit on slippage has no effect on a pool with positive reserves and a fee of at most the
-- whole amount: the amount that it is tested against is quoted from the same copy of the pool that
-- then swaps, so every limit from 0 to 10000 gives the run without a limit.
pub slippage_ignored :
    (stamp : Stamp) (works : Bool) (token_in token_out : String) (amount_in s r0 r1 f : ℕ)
    (pool : Pool) (d : Desk)
    → IsLive pool r0 r1 f
    → s ≤ 10000
    → swap_on stamp works token_in token_out amount_in (pos s) pool d
      ≡ swap_on stamp works token_in token_out amount_in (pos 0) pool d
unfolding swap_on
slippage_ignored stamp works token_in token_out amount_in s r0 r1 f pool d live small =
    let same = (swap-IsPaid pool token_in amount_in r0 r1 f live).0 in
    elim (Result-cases (quote_swap pool token_in amount_in)) [
      | inr (e, bad) ↦ ground (arith, bad, same)
      | inl (out, good) ↦
          let low = min_out-le out s small in
          let none_given = min_out-le out 0 (omega arith) in
          ground (arith, good, same, low, none_given)
    ]
