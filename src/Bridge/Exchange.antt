-- ===== src/Bridge/Exchange.antt =====
-- internal/bridge/onexswap.go: swaps and liquidity between a portfolio and the pools.
use shiva_blockchain.Base.{
  ℕ, zero, suc, ◌+◌, ◌/◌, ◌%◌, String, Bool, none, some, ◌∷◌, ltb, if◌then◌else◌, u64_mod, add64,
  sub64, mul64, Result, ok, err, ◌>>=◌, map_err, codes, str_append,
}
use shiva_blockchain.Base.Int.{ℤ, pos, negsuc}
use shiva_blockchain.Rpc.Amount.{parse_amount}
use shiva_blockchain.Amm.Pool.{
  Pool, default_fee_bps, pool_id, quote_swap, swap, add_liquidity, remove_liquidity,
}
use shiva_blockchain.Amm.Store
use shiva_blockchain.Amm.Store.{Store}
use Prim.Native.String.{compare}
use Prim.Native.Nat.{Ordering}
use shiva_blockchain.Bridge.Loans.{scan_number}
use shiva_blockchain.Bridge.Portfolio.{
  Portfolio, SwapRecord, BridgeError, bad_amount, no_pool, pool_not_found, slippage_exceeded,
  pool_failed, Stamp, add_balance, sub_balance,
}
use shiva_blockchain.Bridge.Tasks.{complete_task}

-- The loaded portfolio and the store of pools.
pub record Desk : Type 0 where
  pub portfolio : Portfolio
  pub amm : Store

-- The fields of a quote that a swap goes on with.
pub record Quote : Type 0 where
  pub pool_id : String
  pub amount_in : ℕ
  pub amount_out : ℕ

unfoldable pub quote_amount : String → String → ℕ → Store → Result BridgeError Quote
quote_amount token_in token_out amt amm = elim (Store.find_pool token_in token_out amm) [
  | none ↦ err no_pool
  | some pool ↦ map_err (λ e. pool_failed) (quote_swap pool token_in amt) >>= λ out.
      ok (record { pool_id = pool.id; amount_in = amt; amount_out = out })
]

-- `OneXSwapQuote`
unfoldable pub onex_swap_quote : String → String → String → Store → Result BridgeError Quote
unfolding quote_amount
onex_swap_quote token_in token_out amount amm =
    map_err (λ e. bad_amount) (parse_amount amount) >>= λ amt.
    quote_amount token_in token_out amt amm

-- `uint64(10000 - slippageBps)`
unfoldable pub slippage_factor : ℤ → ℕ
slippage_factor (pos s) = sub64 10000 (s % u64_mod)
slippage_factor (negsuc s) = add64 10000 (s + 1)

-- `minOut`
unfoldable pub min_out : ℕ → ℤ → ℕ
min_out expected (pos zero) = expected
min_out expected (pos (suc s)) = mul64 expected (slippage_factor (pos (suc s))) / 10000
min_out expected (negsuc s) = expected

-- The writes of a swap, once the pool has paid `out`.
unfoldable pub settle_swap :
    Stamp → Bool → String → String → ℕ → ℕ → Pool → Desk → Result BridgeError ℕ × Desk
settle_swap stamp works token_in token_out amount_in out pool d =
    let (r, p) = sub_balance token_in amount_in d.portfolio in
    elim r [
      | err e ↦ (err e, record d { portfolio = p })
      | ok _ ↦
          let paid = add_balance token_out out p in
          let (u, amm) = Store.update works pool d.amm in
          let rec : SwapRecord = record {
            id = stamp.new_id;
            from_key = token_in;
            to_key = token_out;
            from_amt = amount_in;
            to_amt = out;
            status = "amm";
            created_at = stamp.now;
          } in
          (
            ok out,
            record {
              portfolio = complete_task "first-swap" (record paid { swaps = rec ∷ paid.swaps });
              amm = amm;
            },
          )
    ]

-- The part of `OneXSwapExecute` that works on the copy of the pool.
unfoldable pub swap_on :
    Stamp → Bool → String → String → ℕ → ℤ → Pool → Desk → Result BridgeError ℕ × Desk
swap_on stamp works token_in token_out amount_in slippage pool d =
    let expected : ℕ = elim (quote_swap pool token_in amount_in) [ ok n ↦ n | err e ↦ 0 ] in
    let (r, pool') = swap pool token_in amount_in in
    elim r [
      | err e ↦ (err pool_failed, d)
      | ok out ↦
          if ltb out (min_out expected slippage)
          then (err slippage_exceeded, d)
          else settle_swap stamp works token_in token_out amount_in out pool' d
    ]

-- `OneXSwapExecute`
unfoldable pub onex_swap_execute :
    Stamp → Bool → String → String → String → ℤ → Desk → Result BridgeError ℕ × Desk
onex_swap_execute stamp works token_in token_out amount slippage d =
    elim (onex_swap_quote token_in token_out amount d.amm) [
      | err e ↦ (err e, d)
      | ok q ↦ elim (Store.get q.pool_id d.amm) [
        | none ↦ (err pool_not_found, d)
        | some pool ↦ swap_on stamp works token_in token_out q.amount_in slippage pool d
      ]
    ]

-- The new pool that `OneXSwapAddLiquidity` starts for a pair without one.
abbrev pub empty_pool : String → String → String → Pool
empty_pool id token0 token1 = record {
  id = id;
  token0 = token0;
  token1 = token1;
  reserve0 = pos 0;
  reserve1 = pos 0;
  total_shares = pos 0;
  fee_bps = default_fee_bps;
}

-- The writes of `OneXSwapAddLiquidity`: two debits, then the shares and the pool.
unfoldable pub settle_deposit :
    Bool → String → String → ℕ → ℕ → Pool → Desk → Result BridgeError ℕ × Desk
settle_deposit works token0 token1 a0 a1 pool d =
    let (minted, pool') = add_liquidity pool a0 a1 in
    let (r0, p0) = sub_balance token0 a0 d.portfolio in
    let (r1, p1) = sub_balance token1 a1 p0 in
    let lp_key = str_append "lp:" pool.id in
    elim minted [
      | err e ↦ (err pool_failed, d)
      | ok shares ↦ elim r0 [
        | err e ↦ (err e, record d { portfolio = p0 })
        | ok _ ↦ elim r1 [
          | err e ↦ (err e, record d { portfolio = p1 })
          | ok _ ↦
              let (u, amm) = Store.update works pool' d.amm in
              (ok shares, record { portfolio = add_balance lp_key shares p1; amm = amm })
        ]
      ]
    ]

-- `OneXSwapAddLiquidity` once the amounts were parsed. Without a pool the pair is put in order, and
-- the amounts with it.
unfoldable pub add_amounts : Bool → String → String → ℕ → ℕ → Desk → Result BridgeError ℕ × Desk
add_amounts works token0 token1 a0 a1 d = elim (Store.find_pool token0 token1 d.amm) [
  | some pool ↦ settle_deposit works token0 token1 a0 a1 pool d
  | none ↦ elim (compare token0 token1) [
    | Ordering.gt ↦
        settle_deposit works token1 token0 a1 a0 (empty_pool (pool_id token0 token1) token1 token0)
          d
    | _ ↦
        settle_deposit works token0 token1 a0 a1 (empty_pool (pool_id token0 token1) token0 token1)
          d
  ]
]

-- `OneXSwapAddLiquidity`
unfoldable pub onex_add_liquidity :
    Bool → String → String → String → String → Desk → Result BridgeError ℕ × Desk
onex_add_liquidity works token0 token1 amount0 amount1 d = elim (parse_amount amount0) [
  | err e ↦ (err bad_amount, d)
  | ok a0 ↦ elim (parse_amount amount1) [
    | err e ↦ (err bad_amount, d)
    | ok a1 ↦ add_amounts works token0 token1 a0 a1 d
  ]
]

-- The writes of `OneXSwapRemoveLiquidity` for `shares` of the pool that was asked for as `id`.
unfoldable pub settle_withdrawal :
    Bool → String → ℕ → Pool → Desk → Result BridgeError (ℕ × ℕ) × Desk
settle_withdrawal works id shares pool d =
    let (removed, pool') = remove_liquidity pool shares in
    let (r, p) = sub_balance (str_append "lp:" id) shares d.portfolio in
    elim removed [
      | err e ↦ (err pool_failed, d)
      | ok (a0, a1) ↦ elim r [
        | err e ↦ (err e, record d { portfolio = p })
        | ok _ ↦
            let (u, amm) = Store.update works pool' d.amm in
            (
              ok (a0, a1),
              record {
                portfolio = add_balance pool.token1 a1 (add_balance pool.token0 a0 p);
                amm = amm;
              },
            )
      ]
    ]

-- `OneXSwapRemoveLiquidity`; a number that does not scan is 0.
unfoldable pub onex_remove_liquidity :
    Bool → String → String → Desk → Result BridgeError (ℕ × ℕ) × Desk
onex_remove_liquidity works id shares d =
    let amount : ℕ = elim (scan_number (codes shares)) [ none ↦ 0 | some n ↦ n ] in
    elim (Store.get id d.amm) [
      | none ↦ (err pool_not_found, d)
      | some pool ↦ settle_withdrawal works id amount pool d
    ]
