-- ===== src/Amm/Pool/Swaps.antt =====
-- Whole calls of `Swap` in internal/bridge/amm/pool.go on pools with positive reserves.
use shiva_blockchain.Base.{
  ℕ, ◌+◌, ◌-◌, ◌*◌, ◌≤◌, ◌<◌, String, ◌≡◌, ap, ◌∙◌, inl, inr, true, false, ◌||◌, arith, ltb, ◌==◌,
  if◌then◌else◌, Bool-cases, u64_mod, Result, ok, err, Result-cases,
}
use shiva_blockchain.Base.Int.{pos, ◌+ℤ◌, ◌-ℤ◌, is_nonpos}
use shiva_blockchain.Amm.Pool.{
  Pool, PoolError, token_not_in_pool, amount_too_large, division_panic, equal_fold, quote_swap,
  move_reserves, swap,
}
use shiva_blockchain.Amm.Pool.Product.{IsLive, paid, quote_amount-paid, paid-lt, paid-product}

-- What `QuoteSwap` answers for a token that is given, by the two reserves.
pub quote_case : ℕ → ℕ → ℕ → ℕ → Result PoolError ℕ
quote_case rin rout f amount_in =
    if ltb (paid rin rout f amount_in) u64_mod
    then (if amount_in == 0 then err division_panic else ok (paid rin rout f amount_in))
    else err amount_too_large

-- `QuoteSwap` on positive reserves and with a fee of at most the whole amount, by the token: the
-- constant-product amount with the reserves in the order of the token, an amount too large for a
-- uint64, a panic for amount 0, or a wrong token.
pub quote_swap-cases :
    (p : Pool) (token : String) (amount_in r0 r1 f : ℕ)
    → IsLive p r0 r1 f
    → quote_swap p token amount_in ≡ (
        if equal_fold token p.token0
        then quote_case r0 r1 f amount_in
        else if equal_fold token p.token1
        then quote_case r1 r0 f amount_in
        else err token_not_in_pool)
unfolding quote_swap quote_case
quote_swap-cases p token amount_in r0 r1 f h =
    let one = quote_amount-paid r0 r1 f amount_in h.pos0 h.pos1 h.fee_le in
    let two = quote_amount-paid r1 r0 f amount_in h.pos1 h.pos0 h.fee_le in ground (arith, one, two)

-- After a swap between positive reserves both are positive again, and their product has not fallen.
pub record IsPaid (p' : Pool) (r0 r1 : ℕ) : Type 0 where
  pub new0 : ℕ
  pub new1 : ℕ
  pub at0 : p'.reserve0 ≡ pos new0
  pub at1 : p'.reserve1 ≡ pos new1
  pub pos0 : 0 < new0
  pub pos1 : 0 < new1
  pub product : r0 * r1 ≤ new0 * new1

move_first :
    (p : Pool) (amount_in r0 r1 f : ℕ)
    → IsLive p r0 r1 f
    → IsPaid (move_reserves true amount_in (paid r0 r1 f amount_in) p) r0 r1
unfolding move_reserves
move_first p amount_in r0 r1 f h =
    let out = paid r0 r1 f amount_in in
    let less = paid-lt r0 r1 f amount_in h.pos0 h.pos1 in
    record {
      new0 = r0 + amount_in;
      new1 = r1 - out;
      at0 = ap (λ x. x +ℤ pos amount_in) h.at0;
      at1 = ap (λ x. x -ℤ pos out) h.at1 ∙ ground (arith, less);
      pos0 = omega (arith, h.pos0);
      pos1 = omega (arith, less);
      product = paid-product r0 r1 f amount_in h.pos0 h.pos1;
    }

move_second :
    (p : Pool) (amount_in r0 r1 f : ℕ)
    → IsLive p r0 r1 f
    → IsPaid (move_reserves false amount_in (paid r1 r0 f amount_in) p) r0 r1
unfolding move_reserves
move_second p amount_in r0 r1 f h =
    let out = paid r1 r0 f amount_in in
    let less = paid-lt r1 r0 f amount_in h.pos1 h.pos0 in
    record {
      new0 = r0 - out;
      new1 = r1 + amount_in;
      at0 = ap (λ x. x -ℤ pos out) h.at0 ∙ ground (arith, less);
      at1 = ap (λ x. x +ℤ pos amount_in) h.at1;
      pos0 = omega (arith, less);
      pos1 = omega (arith, h.pos1);
      product = omega (arith, paid-product r1 r0 f amount_in h.pos1 h.pos0);
    }

-- What `QuoteSwap` quotes moves the reserves so that they stay positive with a product at least as large.
move-quote :
    (p : Pool) (token : String) (amount_in r0 r1 f out : ℕ)
    → IsLive p r0 r1 f
    → quote_swap p token amount_in ≡ ok out
    → IsPaid (move_reserves (equal_fold token p.token0) amount_in out p) r0 r1
unfolding quote_case
move-quote p token amount_in r0 r1 f out h quoted =
    let answer = quote_swap-cases p token amount_in r0 r1 f h in
    elim (Bool-cases (equal_fold token p.token0)) [
      | inl first ↦
          let e : paid r0 r1 f amount_in ≡ out = ground (arith, first, answer) in
          rw (first, ← e) (move_first p amount_in r0 r1 f h)
      | inr other ↦
          let e : paid r1 r0 f amount_in ≡ out = ground (arith, other, answer) in
          rw (other, ← e) (move_second p amount_in r0 r1 f h)
    ]

kept-positive :
    (p' : Pool) (r0 r1 : ℕ)
    → IsPaid p' r0 r1
    → is_nonpos p'.reserve0 || is_nonpos p'.reserve1 ≡ false
kept-positive p' r0 r1 h = ground (arith, h.at0, h.at1, h.pos0, h.pos1)

-- On positive reserves and with a fee of at most the whole amount, `Swap` pays exactly what
-- `QuoteSwap` quotes and fails exactly as it fails: it never finds the pool drained. After it the
-- reserves are positive, and their product has not fallen.
pub swap-IsPaid :
    (p : Pool) (token : String) (amount_in r0 r1 f : ℕ)
    → IsLive p r0 r1 f
    → ((swap p token amount_in).0 ≡ quote_swap p token amount_in)
      × IsPaid (swap p token amount_in).1 r0 r1
unfolding swap
swap-IsPaid p token amount_in r0 r1 f h = elim (Result-cases (quote_swap p token amount_in)) [
  | inr (e, bad) ↦ (
    ground (arith, bad),
    rw (bad, swap)
        (record {
          new0 = r0;
          new1 = r1;
          at0 = h.at0;
          at1 = h.at1;
          pos0 = h.pos0;
          pos1 = h.pos1;
          product = omega arith;
        }),
  )
  | inl (out, good) ↦
      let after = move-quote p token amount_in r0 r1 f out h good in
      let test =
        kept-positive (move_reserves (equal_fold token p.token0) amount_in out p) r0 r1 after in
      (ground (arith, good, test), rw (good, swap) (rw test after))
]
