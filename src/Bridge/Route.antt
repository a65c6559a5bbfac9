-- ===== src/Bridge/Route.antt =====
-- `BridgeRoute` and `BridgeExecute` of internal/bridge/onexswap.go: swaps by way of ONEX.
use shiva_blockchain.Base.{
  ℕ, ◌<◌, String, ◌≡◌, ◌≢◌, Bool, ◌||◌, some, List, [], ◌∷◌, arith, str_eq, eq_iff, if◌then◌else◌,
  u64_mod, mul64, Result, ok, err, ◌>>=◌, decimal_string,
}
use shiva_blockchain.Base.Int.{ℤ}
use shiva_blockchain.Amm.Store.{Store}
use shiva_blockchain.Rpc.Amount.{unit_size}
use shiva_blockchain.Rpc.Amount.Printed.{parse_amount-decimal_string}
use shiva_blockchain.Bridge.Portfolio.{
  BridgeError, same_token, Stamp, Surroundings, onex_key, get_portfolio,
}
use shiva_blockchain.Bridge.Exchange
use shiva_blockchain.Bridge.Exchange.{Desk, Quote, onex_swap_quote, onex_swap_execute}

-- The text of an amount as `fmt.Sprintf("%d")` prints it.
abbrev pub amount_text : ℕ → String
amount_text n = decimal_string n

-- `BridgeRoute`: the quotes of the legs, one where one of the tokens is ONEX.
unfoldable pub bridge_route : String → String → String → Store → Result BridgeError (List Quote)
bridge_route token_in token_out amount amm =
    if str_eq token_in token_out
    then err same_token
    else if str_eq token_in onex_key || str_eq token_out onex_key
    then (onex_swap_quote token_in token_out amount amm >>= λ q. ok (q ∷ []))
    else onex_swap_quote token_in onex_key amount amm >>= λ q1.
        (onex_swap_quote onex_key token_out (amount_text q1.amount_out) amm >>= λ q2.
        ok (q1 ∷ q2 ∷ []))

-- The portfolio loaded again, as the second swap does.
unfoldable pub reload : Surroundings → Desk → Desk
reload env d = record d { portfolio = get_portfolio env d.portfolio.address (some d.portfolio) }

-- `BridgeExecute`: two swaps through ONEX, where neither token is ONEX. The second swap loads the
-- portfolio from the surroundings `env`.
unfoldable pub bridge_execute :
    Stamp
    → Stamp
    → Surroundings
    → Bool
    → String
    → String
    → String
    → ℤ
    → Desk
    → Result BridgeError ℕ × Desk
bridge_execute stamp stamp' env works token_in token_out amount slippage d =
    if str_eq token_in onex_key || str_eq token_out onex_key
    then onex_swap_execute stamp works token_in token_out amount slippage d
    else elim (onex_swap_quote token_in onex_key amount d.amm) [
      | err e ↦ (err e, d)
      | ok q ↦
          let (r, d') = onex_swap_execute stamp works token_in onex_key amount slippage d in
          let again = reload env d' in
          elim r [
            | err e ↦ (err e, d')
            | ok _ ↦
                onex_swap_execute stamp' works onex_key token_out (amount_text q.amount_out)
                  slippage again
          ]
    ]

quote_printed :
    (token_in token_out : String) (n : ℕ) (amm : Store)
    → n < u64_mod
    → onex_swap_quote token_in token_out (amount_text n) amm
      ≡ Exchange.quote_amount token_in token_out (mul64 n unit_size) amm
unfolding onex_swap_quote
quote_printed token_in token_out n amm small = ground (arith, parse_amount-decimal_string n small)

-- Where neither of two different tokens is ONEX and the first leg of a route is quoted, the second
-- leg is quoted for 10 ^ 8 times the ONEX that the first leg pays (wrapped around at 2 ^ 64): the
-- amount is printed in atomic units and read as whole ONEX.
pub bridge_route_scales :
    (token_in token_out amount : String) (amm : Store) (q : Quote)
    → token_in ≢ token_out
    → token_in ≢ onex_key
    → token_out ≢ onex_key
    → onex_swap_quote token_in onex_key amount amm ≡ ok q
    → q.amount_out < u64_mod
    → bridge_route token_in token_out amount amm ≡ (
        Exchange.quote_amount onex_key token_out (mul64 q.amount_out unit_size) amm >>= λ q2.
        ok (q ∷ q2 ∷ []))
unfolding bridge_route
bridge_route_scales token_in token_out amount amm q apart from_other to_other leg small = ground (
  arith,
  eq_iff token_in token_out,
  eq_iff token_in onex_key,
  eq_iff token_out onex_key,
  leg,
  quote_printed onex_key token_out q.amount_out amm small,
)
