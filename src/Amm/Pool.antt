-- ===== src/Amm/Pool.antt =====
-- internal/bridge/amm/pool.go. A reserve is the number that `mustBig` reads from its string; `fmtBig`
-- writes the decimal that `mustBig` reads back. Of the price impact, a text for display, only the
-- panic that computing it can cause is modelled.
pub mod Product
pub mod Swaps
pub mod Shares
use shiva_blockchain.Base.{
  ℕ, zero, suc, ◌+◌, ◌-◌, ◌*◌, ◌/◌, ◌%◌, ◌^◌, ◌≤◌, ◌<◌, String, ◌≡◌, refl, sym, ap, ◌∙◌, ◌≢◌, ◌↔◌,
  ◌⊎◌, inl, inr, Bool, true, false, not, ◌&&◌, ◌||◌, Option, none, some, List, [], ◌∷◌, ◌++◌, map,
  foldl, arith, str_eq, eq_iff, eq_refl, ltb, leb, ◌==◌, if◌then◌else◌, ltb→lt, lt→ltb, leb→le,
  ==_iff, tests, Bool-cases, Option-cases, length, take, length-append, length-take-le, u64_mod,
  add64, sub64, mul64, add64-eq-add, sub64-eq-sub, add64-lt, word_laws, Result, ok, err, ◌>>=◌,
  ◌>>◌, fail_if, or_fail, map_err, Result-cases, Bytes, codes, has_prefix, decimal, decimal_string,
  str_append,
}
use shiva_blockchain.Base.Int.{
  ℤ, pos, negsuc, ◌+ℤ◌, ◌-ℤ◌, ◌*ℤ◌, ◌/ℤ◌, is_zero, is_nonpos, ltb_ℤ, is_uint64, to_uint64,
}
use Prim.Native.String.{compare}
use Prim.Native.Nat.{Ordering}
use shiva_blockchain.Amm.Sqrt.{sqrt}

pub record Pool : Type 0 where
  pub id : String
  pub token0 : String
  pub token1 : String
  pub reserve0 : ℤ
  pub reserve1 : ℤ
  pub total_shares : ℤ
  pub fee_bps : ℤ

pub data PoolError : Type 0 where
  token_not_in_pool insufficient_liquidity amount_too_large pool_drained : PoolError
  insufficient_amounts shares_overflow invalid_shares : PoolError
  -- A division by zero in math/big.
  division_panic : PoolError

abbrev pub default_fee_bps : ℤ
default_fee_bps = pos 30

-- `PoolID`
unfoldable pub pool_id : String → String → String
pool_id a b = elim (compare a b) [
  | Ordering.gt ↦ str_append b (str_append "|" a)
  | _ ↦ str_append a (str_append "|" b)
]

unfoldable pub lower : ℕ → ℕ
lower ch = if leb b'A' ch && leb ch b'Z' then ch + 32 else ch

unfoldable pub same_folded : Bytes → Bytes → Bool
same_folded [] [] = true
same_folded (a ∷ s) [] = false
same_folded [] (b ∷ t) = false
same_folded (a ∷ s) (b ∷ t) = (lower a == lower b) && same_folded s t

-- `strings.EqualFold`, on ASCII text.
unfoldable pub equal_fold : String → String → Bool
unfolding same_folded lower
equal_fold s t = same_folded (codes s) (codes t)

-- The arithmetic of `QuoteSwap`, on the reserves of the token given and the token received.
unfoldable pub quote_amount : ℤ → ℤ → ℤ → ℕ → Result PoolError ℕ
quote_amount rin rout fee amount_in =
    let with_fee = pos amount_in *ℤ (pos 10000 -ℤ fee) in
    let den = rin *ℤ pos 10000 +ℤ with_fee in
    let out = with_fee *ℤ rout /ℤ den in
    if is_zero rin || is_zero rout
    then err insufficient_liquidity
    else if is_zero den
    then err division_panic
    else if not (is_uint64 out)
    then err amount_too_large
    else if amount_in == 0
    then err division_panic
    else ok (to_uint64 out)

-- `QuoteSwap`
unfoldable pub quote_swap : Pool → String → ℕ → Result PoolError ℕ
quote_swap p token_in amount_in =
    if equal_fold token_in p.token0
    then quote_amount p.reserve0 p.reserve1 p.fee_bps amount_in
    else if equal_fold token_in p.token1
    then quote_amount p.reserve1 p.reserve0 p.fee_bps amount_in
    else err token_not_in_pool

-- The reserves that `Swap` writes.
unfoldable pub move_reserves : Bool → ℕ → ℕ → Pool → Pool
move_reserves first amount_in out p =
    if first
    then record p { reserve0 = p.reserve0 +ℤ pos amount_in; reserve1 = p.reserve1 -ℤ pos out }
    else record p { reserve0 = p.reserve0 -ℤ pos out; reserve1 = p.reserve1 +ℤ pos amount_in }

-- `Swap`
unfoldable pub swap : Pool → String → ℕ → Result PoolError ℕ × Pool
swap p token_in amount_in = elim (quote_swap p token_in amount_in) [
  | err e ↦ (err e, p)
  | ok out ↦
      let p' = move_reserves (equal_fold token_in p.token0) amount_in out p in
      if is_nonpos p'.reserve0 || is_nonpos p'.reserve1
      then (err pool_drained, p')
      else (ok out, p')
]

-- `new(big.Int).Sqrt(a0 * a1)` of two amounts.
unfoldable pub first_mint : ℕ → ℕ → Result PoolError ℤ
first_mint amount0 amount1 =
    let mint = sqrt (amount0 * amount1) in
    if mint == 0 then err insufficient_amounts else ok (pos mint)

-- The smaller of the two proportional shares.
unfoldable pub next_mint : ℤ → ℤ → ℤ → ℕ → ℕ → Result PoolError ℤ
next_mint ts r0 r1 amount0 amount1 =
    let s0 = pos amount0 *ℤ ts /ℤ r0 in
    let s1 = pos amount1 *ℤ ts /ℤ r1 in
    if is_zero r0 || is_zero r1 then err division_panic else ok (if ltb_ℤ s0 s1 then s0 else s1)

-- `AddLiquidity`
unfoldable pub add_liquidity : Pool → ℕ → ℕ → Result PoolError ℕ × Pool
add_liquidity p amount0 amount1 =
    let minted =
      if is_zero p.total_shares
      then first_mint amount0 amount1
      else next_mint p.total_shares p.reserve0 p.reserve1 amount0 amount1 in
    elim minted [
      | err e ↦ (err e, p)
      | ok mint ↦ if not (is_uint64 mint) then (err shares_overflow, p) else (
        ok (to_uint64 mint),
        record p {
          reserve0 = p.reserve0 +ℤ pos amount0;
          reserve1 = p.reserve1 +ℤ pos amount1;
          total_shares = p.total_shares +ℤ mint;
        },
      )
    ]

-- The shares that `RemoveLiquidity` burns: all but one at most.
unfoldable pub burn_of : ℤ → ℕ → ℤ
burn_of ts shares_burn = if ltb_ℤ (pos shares_burn) ts then pos shares_burn else ts -ℤ pos 1

-- `RemoveLiquidity`
unfoldable pub remove_liquidity : Pool → ℕ → Result PoolError (ℕ × ℕ) × Pool
remove_liquidity p shares_burn =
    let ts = p.total_shares in
    let burn = burn_of ts shares_burn in
    let a0 = burn *ℤ p.reserve0 /ℤ ts in
    let a1 = burn *ℤ p.reserve1 /ℤ ts in
    if is_nonpos burn then (err invalid_shares, p) else (
      ok (to_uint64 a0, to_uint64 a1),
      record p {
        reserve0 = p.reserve0 -ℤ a0;
        reserve1 = p.reserve1 -ℤ a1;
        total_shares = ts -ℤ burn;
      },
    )
