-- ===== src/Platform/Balances.antt =====
-- What WrapPlatformToken of internal/bridge/tokenplatform_bridge.go does to the balances.
use shiva_blockchain.Base.{
  ℕ, ◌-◌, ◌≤◌, ◌<◌, String, ◌≡◌, sym, ap, ◌∙◌, ◌≢◌, inl, inr, some, List, [], ◌∷◌, arith, str_eq,
  eq_iff, if◌then◌else◌, Bool-cases, add64, Result, ok, Result-cases,
}
use shiva_blockchain.Assoc.Laws.{get_or-insert}
use shiva_blockchain.Rpc.Amount.{parse_amount}
use shiva_blockchain.Bridge.Registry.{ChainInfo, Registry, token_key}
use shiva_blockchain.Bridge.Portfolio.{
  Portfolio, get_balance, set_balance, add_balance, sub_balance,
}
use shiva_blockchain.Platform.Bridging.{
  find_chain_in, Desk, Surroundings, find_chain, Saves, PlatformError,
}
use shiva_blockchain.Platform.Wrapping.{
  WrapPlan, WrapIds, plan_wrap, settle_wrap, mint_wrapped, move_balance, open_wrapped, wrap_record,
  grow_wrapped, wrap_platform_token,
}
use shiva_blockchain.Platform.{validate_wrap_amount, PlatformToken, WrapRecord}
use shiva_blockchain.Assoc.{insert, get_or}

find_chain_in-id :
    (id : String) (l : List ChainInfo) {c : ChainInfo} → find_chain_in id l ≡ some c → c.id ≡ id
unfolding find_chain_in
find_chain_in-id id [] h = absurd (ground (arith, h))
find_chain_in-id id (x ∷ l) {c} h = elim (Bool-cases (str_eq x.id id)) [
  | inl this ↦ ground (arith, this, h, eq_iff x.id id)
  | inr later ↦ find_chain_in-id id l {c = c} (ground (arith, later, h))
]

find_chain-id : (id : String) (r : Registry) {c : ChainInfo} → find_chain id r ≡ ok c → c.id ≡ id
unfolding find_chain
find_chain-id id r {c} h = find_chain_in-id id r.chains {c = c} (ground (arith, h))

-- What the checks have established of a plan.
record IsPlanned (text origin_chain_id token_id target_chain_id : String) (desk : Desk)
    (plan : WrapPlan) : Type 0 where
  read : parse_amount text ≡ ok plan.amount
  positive : 0 < plan.amount
  keyed : plan.origin_key ≡ token_key origin_chain_id token_id
  covered : plan.amount ≤ get_balance plan.origin_key desk.portfolio
  aimed : find_chain target_chain_id desk.registry ≡ ok plan.target

module _ (env : Surroundings) (origin_chain_id token_id target_chain_id text : String)
    (desk : Desk) where
  plan_wrap-IsPlanned :
      {plan : WrapPlan}
      → plan_wrap env origin_chain_id token_id target_chain_id text desk ≡ ok plan
      → IsPlanned text origin_chain_id token_id target_chain_id desk plan
  unfolding plan_wrap validate_wrap_amount
  plan_wrap-IsPlanned h = ground arith

portfolio-mint_wrapped :
    (env : Surroundings) (saves : Saves) (plan : WrapPlan) (token_id : String) (desk : Desk)
    → (mint_wrapped env saves plan token_id desk).1.portfolio ≡ desk.portfolio
unfolding mint_wrapped open_wrapped grow_wrapped
portfolio-mint_wrapped env saves plan token_id desk = ground arith

-- A move that succeeds, at every key.
balance-move_balance :
    (plan : WrapPlan) (wrapped : PlatformToken) (p : Portfolio) (key : String) {q : Portfolio}
    → plan.origin_key ≢ token_key plan.target.id wrapped.id
    → move_balance plan wrapped p ≡ ok q
    → get_balance key q ≡ (
        if str_eq plan.origin_key key
        then get_balance plan.origin_key p - plan.amount
        else if str_eq (token_key plan.target.id wrapped.id) key
        then add64 (get_balance key p) plan.amount
        else get_balance key p)
unfolding move_balance sub_balance add_balance set_balance get_balance
balance-move_balance plan wrapped p key {q} apart h =
    let to = token_key plan.target.id wrapped.id in
    let left = get_balance plan.origin_key p - plan.amount in
    let first = insert plan.origin_key left p.balances in
    ground (
      arith,
      eq_iff plan.origin_key key,
      eq_iff to key,
      eq_iff plan.origin_key to,
      get_or-insert 0 plan.origin_key key left p.balances,
      get_or-insert 0 plan.origin_key to left p.balances,
      get_or-insert 0 to key (add64 (get_or 0 to first) plan.amount) first,
    )

-- A settlement that succeeds has moved the balances, and its record names the wrapped token.
settle_wrap-inv :
    (env : Surroundings) (saves : Saves) (ids : WrapIds) (plan : WrapPlan) (wrapped : PlatformToken)
    (tokens : List PlatformToken) (desk : Desk) {rec : WrapRecord}
    → (settle_wrap env saves ids plan wrapped tokens desk).0 ≡ ok rec
    → (rec.wrapped_token_id ≡ wrapped.id)
      × (move_balance plan wrapped desk.portfolio
          ≡ ok (settle_wrap env saves ids plan wrapped tokens desk).1.portfolio)
unfolding settle_wrap wrap_record
settle_wrap-inv env saves ids plan wrapped tokens desk {rec} h = ground arith

module _ (env : Surroundings) (saves : Saves) (ids : WrapIds)
    (origin_chain_id token_id target_chain_id text : String) (desk : Desk) where
  abbrev outcome : Result PlatformError WrapRecord × Desk
  outcome = wrap_platform_token env saves ids origin_chain_id token_id target_chain_id text desk

  -- The stages of a call that succeeds.
  record IsWrapped (plan : WrapPlan) (wrapped : PlatformToken) (tokens : List PlatformToken)
      : Type 0 where
    planned : plan_wrap env origin_chain_id token_id target_chain_id text desk ≡ ok plan
    settled :
        outcome
        ≡ settle_wrap env saves ids plan wrapped tokens
            (mint_wrapped env saves plan token_id desk).1

  wrap_platform_token-inv :
      {rec : WrapRecord}
      → outcome.0 ≡ ok rec
      → (plan : WrapPlan) × (wrapped : PlatformToken) × (tokens : List PlatformToken) × IsWrapped
          plan wrapped tokens
  unfolding wrap_platform_token
  wrap_platform_token-inv h =
      elim (Result-cases (plan_wrap env origin_chain_id token_id target_chain_id text desk)) [
        | inr (e, refused) ↦ absurd (ground (arith, refused, h))
        | inl (plan, planned) ↦ elim (Result-cases (mint_wrapped env saves plan token_id desk).0) [
          | inr (e, failed) ↦ absurd (ground (arith, planned, failed, h))
          | inl ((wrapped, tokens), minted) ↦ (
            plan,
            wrapped,
            tokens,
            record { planned = planned; settled = ground (arith, planned, minted) },
          )
        ]
      ]

  -- The balances by the plan, at every key.
  balance-IsWrapped :
      (plan : WrapPlan) (wrapped : PlatformToken) (tokens : List PlatformToken) (key : String)
      {rec : WrapRecord}
      → IsWrapped plan wrapped tokens
      → outcome.0 ≡ ok rec
      → token_key origin_chain_id token_id ≢ token_key target_chain_id rec.wrapped_token_id
      → get_balance key outcome.1.portfolio ≡ (
          if str_eq (token_key origin_chain_id token_id) key
          then get_balance key desk.portfolio - plan.amount
          else if str_eq (token_key target_chain_id rec.wrapped_token_id) key
          then add64 (get_balance key desk.portfolio) plan.amount
          else get_balance key desk.portfolio)
  balance-IsWrapped plan wrapped tokens key {rec} stages h apart =
      let p =
        plan_wrap-IsPlanned env origin_chain_id token_id target_chain_id text desk stages.planned in
      let minted = (mint_wrapped env saves plan token_id desk).1 in
      let after = settle_wrap env saves ids plan wrapped tokens minted in
      let done : after.0 ≡ ok rec =
        ap (λ (r : Result PlatformError WrapRecord × Desk). r.0) (sym stages.settled) ∙ h in
      let inv = settle_wrap-inv env saves ids plan wrapped tokens minted done in
      let aimed : plan.target.id ≡ target_chain_id =
        find_chain-id target_chain_id desk.registry p.aimed in
      let to : token_key target_chain_id rec.wrapped_token_id
          ≡ token_key plan.target.id wrapped.id =
        cc (aimed, inv.0) in
      let moved =
        balance-move_balance plan wrapped minted.portfolio key
          (λ e. apart (sym p.keyed ∙ e ∙ sym to)) inv.1 in
      let same = portfolio-mint_wrapped env saves plan token_id desk in
      rw (stages.settled, to, ← p.keyed)
        (ground (
          arith,
          moved,
          ap (get_balance key) same,
          ap (get_balance plan.origin_key) same,
          eq_iff plan.origin_key key,
        ))

  -- A wrapping that succeeds moves, in the portfolio in memory, exactly the amount that was asked for,
  -- which is positive and covered, from the origin's balance to the wrapped token's, modulo 2 ^ 64,
  -- where the two have different keys, and changes no other balance; whether the portfolio's file is
  -- written does not matter.
  pub wrap_moves_amount :
      {rec : WrapRecord}
      → outcome.0 ≡ ok rec
      → token_key origin_chain_id token_id ≢ token_key target_chain_id rec.wrapped_token_id
      → (n : ℕ) × (parse_amount text ≡ ok n)
        × (0 < n)
        × (n ≤ get_balance (token_key origin_chain_id token_id) desk.portfolio)
        × ((key : String)
            → get_balance key outcome.1.portfolio ≡ (
                if str_eq (token_key origin_chain_id token_id) key
                then get_balance key desk.portfolio - n
                else if str_eq (token_key target_chain_id rec.wrapped_token_id) key
                then add64 (get_balance key desk.portfolio) n
                else get_balance key desk.portfolio))
  wrap_moves_amount {rec} h apart =
      let found = wrap_platform_token-inv h in
      let stages = found.3 in
      let p =
        plan_wrap-IsPlanned env origin_chain_id token_id target_chain_id text desk stages.planned in
      (
        found.0.amount,
        p.read,
        p.positive,
        rw (← p.keyed) p.covered,
        λ key. balance-IsWrapped found.0 found.1 found.2 key stages h apart,
      )
