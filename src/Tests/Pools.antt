-- ===== src/Tests/Pools.antt =====
-- A pool of two tokens, with swaps, deposits and withdrawals.
use shiva_blockchain.Base.{
  ℕ, zero, suc, ◌+◌, ◌-◌, ◌*◌, ◌/◌, ◌%◌, ◌^◌, ◌≤◌, ◌<◌, String, ◌≡◌, refl, sym, ap, ◌∙◌, ◌≢◌, ◌↔◌,
  ◌⊎◌, inl, inr, Bool, true, false, not, ◌&&◌, ◌||◌, Option, none, some, List, [], ◌∷◌, ◌++◌, map,
  foldl, arith, str_eq, eq_iff, eq_refl, ltb, leb, ◌==◌, if◌then◌else◌, ltb→lt, lt→ltb, leb→le,
  ==_iff, tests, Bool-cases, Option-cases, length, take, length-append, length-take-le, u64_mod,
  add64, sub64, mul64, add64-eq-add, sub64-eq-sub, add64-lt, word_laws, Result, ok, err, ◌>>=◌,
  ◌>>◌, fail_if, or_fail, map_err, Result-cases, Bytes, codes, has_prefix, decimal, decimal_string,
  str_append,
}
use shiva_blockchain.Base.Int.{pos}
use shiva_blockchain.Amm.Pool
use shiva_blockchain.Amm.Pool.{
  Pool, default_fee_bps, equal_fold, quote_swap, swap, add_liquidity, remove_liquidity,
  token_not_in_pool,
}
use shiva_blockchain.Amm.Sqrt.{IsSqrt}
use shiva_blockchain.Amm.Pool.Product.{IsLive}
use shiva_blockchain.Amm.Pool.Swaps.{quote_case, quote_swap-cases, IsPaid, swap-IsPaid}
use shiva_blockchain.Amm.Pool.Shares
use shiva_blockchain.Amm.Pool.Shares.{
  IsFunded, IsSideFair, add_liquidity_fair, remove_liquidity_fair,
}
use shiva_blockchain.Amm.Store
use shiva_blockchain.Amm.Store.{missing}
use shiva_blockchain.Rpc.Amount.{unit_size}
use shiva_blockchain.Bridge.Exchange
use shiva_blockchain.Bridge.Exchange.{Quote, onex_swap_quote}
use shiva_blockchain.Bridge.Route.{bridge_route, bridge_route_scales}
use shiva_blockchain.Bridge.Portfolio.{Stamp, onex_key, default_portfolio}
use shiva_blockchain.Bridge.Exchange.{Desk, swap_on}
use shiva_blockchain.Bridge.Slippage.{slippage_ignored}

abbrev a_pool : Pool
a_pool = record {
  id = "A-B";
  token0 = "A";
  token1 = "B";
  reserve0 = pos 1000;
  reserve1 = pos 2000;
  total_shares = pos 1414;
  fee_bps = pos 30;
}

a_pool-IsLive : IsLive a_pool 1000 2000 30
a_pool-IsLive = record {
  at0 = refl;
  at1 = refl;
  fee = refl;
  fee_le = omega arith;
  pos0 = omega arith;
  pos1 = omega arith;
}

a_pool-IsFunded : IsFunded a_pool 1000 2000 1414
a_pool-IsFunded = record {
  at0 = refl;
  at1 = refl;
  shares = refl;
  pos0 = omega arith;
  pos1 = omega arith;
  pos_shares = omega arith;
}

swap-IsPaid_example :
    ((swap a_pool "A" 100).0 ≡ quote_swap a_pool "A" 100) × IsPaid (swap a_pool "A" 100).1 1000 2000
swap-IsPaid_example = swap-IsPaid a_pool "A" 100 1000 2000 30 a_pool-IsLive

quote_swap-cases_example : quote_swap a_pool "A" 100 ≡ (
    if equal_fold "A" "A"
    then quote_case 1000 2000 30 100
    else if equal_fold "A" "B"
    then quote_case 2000 1000 30 100
    else err token_not_in_pool)
quote_swap-cases_example = quote_swap-cases a_pool "A" 100 1000 2000 30 a_pool-IsLive

deposit_works : (add_liquidity a_pool 100 100).0 ≡ ok 70
unfolding add_liquidity Pool.next_mint
deposit_works = refl

add_liquidity_fair_example :
    ((add_liquidity a_pool 100 100).1.reserve0 ≡ pos (1000 + 100))
    × ((add_liquidity a_pool 100 100).1.reserve1 ≡ pos (2000 + 100))
    × ((add_liquidity a_pool 100 100).1.total_shares ≡ pos (1414 + 70))
    × (70 * 1000 ≤ 100 * 1414)
    × (70 * 2000 ≤ 100 * 1414)
add_liquidity_fair_example =
    add_liquidity_fair a_pool 100 100 1000 2000 1414 a_pool-IsFunded deposit_works

abbrev bare_pool : Pool
bare_pool = record a_pool { reserve0 = pos 0; reserve1 = pos 0; total_shares = pos 0 }

first_works : (add_liquidity bare_pool 40 90).0 ≡ ok 60
unfolding add_liquidity Pool.first_mint shiva_blockchain.Amm.Sqrt.sqrt
first_works = refl

withdrawal_works : (remove_liquidity a_pool 500).0 ≡ ok (353, 707)
unfolding remove_liquidity Pool.burn_of
withdrawal_works = refl

remove_liquidity_fair_example :
    IsSideFair 1000 1414 (Shares.burned 1414 500) 353 (remove_liquidity a_pool 500).1.reserve0
    × IsSideFair 2000 1414 (Shares.burned 1414 500) 707 (remove_liquidity a_pool 500).1.reserve1
    × ((remove_liquidity a_pool 500).1.total_shares ≡ pos (1414 - Shares.burned 1414 500))
    × (0 < 1414 - Shares.burned 1414 500)
remove_liquidity_fair_example =
    remove_liquidity_fair a_pool 500 1000 2000 1414 a_pool-IsFunded (omega arith) (omega arith)
      withdrawal_works

abbrev a_stamp : Stamp
a_stamp = record { now = pos 7; new_id = "x1" }

abbrev a_desk : Desk
a_desk = record {
  portfolio = record (default_portfolio false "w") { balances = ("A", 500) ∷ [] };
  amm = record { pools = ("A-B", a_pool) ∷ []; file = missing };
}

slippage_ignored_example :
    swap_on a_stamp true "A" "B" 100 (pos 50) a_pool a_desk
    ≡ swap_on a_stamp true "A" "B" 100 (pos 0) a_pool a_desk
slippage_ignored_example =
    slippage_ignored a_stamp true "A" "B" 100 50 1000 2000 30 a_pool a_desk a_pool-IsLive
      (omega arith)

-- A pool of the first token and ONEX.
abbrev onex_pool : Pool
onex_pool = record a_pool { id = "A|onex-mainnet-1:ONEX"; token1 = "onex-mainnet-1:ONEX" }

abbrev onex_amm : Store.Store
onex_amm = record { pools = ("A|onex-mainnet-1:ONEX", onex_pool) ∷ []; file = missing }

abbrev first_leg : Quote
first_leg = record { pool_id = "A|onex-mainnet-1:ONEX"; amount_in = 100; amount_out = 181 }

leg_quotes : onex_swap_quote "A" onex_key "0.000001" onex_amm ≡ ok first_leg
unfolding onex_swap_quote shiva_blockchain.Rpc.Amount.parse_amount
    shiva_blockchain.Rpc.Amount.parse_bytes shiva_blockchain.Rpc.Amount.trim_space
    shiva_blockchain.Base.Decimal.Reading.parse_uint shiva_blockchain.Rpc.Amount.split_dot
    shiva_blockchain.Base.Decimal.Reading.read_digits shiva_blockchain.Rpc.Amount.parse_fraction
    shiva_blockchain.Rpc.Amount.pad_right Store.find_pool Store.get shiva_blockchain.Assoc.lookup
    Pool.pool_id shiva_blockchain.Bridge.Registry.token_key shiva_blockchain.Legacy.normalize_token
    shiva_blockchain.Legacy.normalize_chain_id quote_swap equal_fold Pool.quote_amount add64 mul64
    Exchange.quote_amount
leg_quotes = refl

onex-is_named : onex_key ≡ "onex-mainnet-1:ONEX"
unfolding shiva_blockchain.Bridge.Registry.token_key shiva_blockchain.Legacy.normalize_token
    shiva_blockchain.Legacy.normalize_chain_id
onex-is_named = refl

bridge_route_scales_example : bridge_route "A" "B" "0.000001" onex_amm ≡ (
    Exchange.quote_amount onex_key "B" (mul64 181 unit_size) onex_amm >>= λ q2.
    ok (first_leg ∷ q2 ∷ []))
bridge_route_scales_example =
    bridge_route_scales "A" "B" "0.000001" onex_amm first_leg (λ h. ground (arith, eq_iff "A" "B"))
      (λ h. ground (arith, onex-is_named, eq_iff "A" "onex-mainnet-1:ONEX"))
      (λ h. ground (arith, onex-is_named, eq_iff "B" "onex-mainnet-1:ONEX")) leg_quotes
      (omega arith)
