-- ===== src/Platform/Wrapping.antt =====
-- WrapPlatformToken of internal/bridge/tokenplatform_bridge.go.
use shiva_blockchain.Base.{
  ℕ, String, true, false, not, ◌&&◌, Option, none, some, List, [], ◌∷◌, ◌++◌, str_eq, ltb,
  if◌then◌else◌, add64, Result, ok, err, ◌>>=◌, ◌>>◌, fail_if, or_fail, map_err, decimal_string,
  str_append,
}
use shiva_blockchain.Base.Int.{ℤ}
use shiva_blockchain.Rpc.Amount.{parse_amount}
use shiva_blockchain.Bridge.Registry.{ChainInfo, Registry, token_key, find_token}
use shiva_blockchain.Bridge.Portfolio.{Portfolio, get_balance, add_balance, sub_balance}
use shiva_blockchain.Platform.Bridging.{
  Surroundings, Saves, Desk, Adapter, DeployInput, PlatformError, unreadable_amount, load_failed,
  insufficient, find_chain, merge_custom_tokens, must_parse_uint, custom_of, new_token, save_failed,
  zero_amount, unsupported_chain, deploy_failed, same_chain, origin_missing,
}
use shiva_blockchain.Platform.{
  PlatformToken, validate_wrap_amount, WrapRecord, sanitize_token_id, append_wrap_record,
  wrap_token_id, find_from, is_token,
}

-- The identifiers that a call makes: of the record, and the hash of the transfer.
pub record WrapIds : Type 0 where
  pub record_id : String
  pub bridge_hash : String

-- What is wrapped, and where to.
pub record WrapPlan : Type 0 where
  pub amount : ℕ
  pub target : ChainInfo
  pub tokens : List PlatformToken
  pub origin : PlatformToken
  -- The position of the origin among the tokens of the platform.
  pub position : Option ℕ
  pub origin_key : String
  pub adapter : Adapter

-- The origin, from the platform or from the registry.
unfoldable pub find_origin :
    String → String → ChainInfo → List PlatformToken → Registry → Option (PlatformToken × Option ℕ)
find_origin chain_id token_id chain tokens registry = elim (find_from 0 chain_id token_id tokens) [
  | some (t, i) ↦ some (t, some i)
  | none ↦ elim (find_token chain_id token_id registry) [
    | none ↦ none
    | some t ↦ some (
      record {
        id = t.id;
        chain_id = t.chain_id;
        chain_type = chain.kind;
        name = t.name;
        symbol = t.symbol;
        decimals = t.decimals;
        supply = "";
        creator = "";
        created_at = ℤ.pos 0;
        contract_address = "";
        deploy_status = "";
        deploy_tx_hash = "";
        origin_key = "";
        is_wrapped = false;
        wrapped_on = [];
      },
      none,
    )
  ]
]

-- The checks of `WrapPlatformToken`.
unfoldable pub plan_wrap :
    Surroundings → String → String → String → String → Desk → Result PlatformError WrapPlan
unfolding find_origin
plan_wrap env origin_chain_id token_id target_chain_id amount_text desk = do
  amount ← map_err (λ e. unreadable_amount) (parse_amount amount_text)
  fail_if (not (validate_wrap_amount amount)) zero_amount
  origin_chain ← find_chain origin_chain_id desk.registry
  target ← find_chain target_chain_id desk.registry
  fail_if (str_eq origin_chain_id target_chain_id) same_chain
  tokens ← or_fail desk.tokens load_failed
  (origin, position) ←
      or_fail (find_origin origin_chain_id token_id origin_chain tokens desk.registry)
        origin_missing
  let key = token_key origin_chain_id token_id
  fail_if (ltb (get_balance key desk.portfolio) amount) insufficient
  adapter ← or_fail (env.for_type target.kind) unsupported_chain
  ok (record {
    amount = amount;
    target = target;
    tokens = tokens;
    origin = origin;
    position = position;
    origin_key = key;
    adapter = adapter;
  })

-- The wrapped token that the target chain has already.
unfoldable pub find_wrapped : String → String → List PlatformToken → Option PlatformToken
find_wrapped chain_id key [] = none
find_wrapped chain_id key (t ∷ l) =
    if str_eq t.chain_id chain_id && str_eq t.origin_key key
    then some t
    else find_wrapped chain_id key l

-- `for i := range tokens { if ... { tokens[i] = f(tokens[i]); break } }`
unfoldable pub update_token :
    String → String → (PlatformToken → PlatformToken) → List PlatformToken → List PlatformToken
update_token chain_id id f [] = []
update_token chain_id id f (t ∷ l) =
    if is_token chain_id id t then f t ∷ l else t ∷ update_token chain_id id f l

unfoldable pub first_token : PlatformToken → String → String → List PlatformToken → PlatformToken
first_token old chain_id id [] = old
first_token old chain_id id (t ∷ l) =
    if is_token chain_id id t then t else first_token old chain_id id l

unfoldable pub wrap_input : WrapPlan → String → String → DeployInput
wrap_input plan token_id mirror_of = record {
  chain = plan.target;
  name = str_append plan.origin.name " (Wrapped)";
  symbol = plan.adapter.wrap_symbol plan.origin.symbol;
  decimals = plan.origin.decimals;
  supply = plan.amount;
  token_id = token_id;
  same_address_mirror = str_eq plan.target.kind "evm";
  mirror_origin_id = mirror_of;
}

-- A first wrapping: the new token, and its entry among the custom tokens with supply "0".
unfoldable pub open_wrapped :
    Surroundings
    → Saves
    → WrapPlan
    → String
    → Desk
    → Result PlatformError (PlatformToken × List PlatformToken) × Desk
open_wrapped env saves plan token_id desk =
    let input = wrap_input plan (wrap_token_id env.tag token_id plan.target.id) token_id in
    elim (plan.adapter.deploy input) [
      | none ↦ (err deploy_failed, desk)
      | some out ↦
          let wt = new_token env input out input.symbol plan.origin_key true in
          let listed = desk.custom ++ (record (custom_of wt) { supply = "0" } ∷ []) in
          (
            ok (wt, plan.tokens ++ (wt ∷ [])),
            if saves.custom_saved then record desk { custom = listed } else desk,
          )
    ]

-- A further wrapping: the supply grows, and the token takes the new deployment.
unfoldable pub grow_wrapped :
    WrapPlan
    → String
    → PlatformToken
    → Desk
    → Result PlatformError (PlatformToken × List PlatformToken) × Desk
grow_wrapped plan token_id wrapped desk =
    let supply = add64 (must_parse_uint wrapped.supply) plan.amount in
    let change = update_token plan.target.id wrapped.id in
    let grown = change (λ t. record t { supply = decimal_string supply }) plan.tokens in
    elim (plan.adapter.deploy (wrap_input plan wrapped.id token_id)) [
      | none ↦ (err deploy_failed, desk)
      | some out ↦
          let deployed =
            change
              (λ t. record t {
                contract_address = out.contract_address;
                deploy_status = out.deploy_status;
                deploy_tx_hash = out.deploy_tx_hash;
              })
              grown in
          (ok (first_token wrapped plan.target.id wrapped.id deployed, deployed), desk)
    ]

unfoldable pub mint_wrapped :
    Surroundings
    → Saves
    → WrapPlan
    → String
    → Desk
    → Result PlatformError (PlatformToken × List PlatformToken) × Desk
unfolding open_wrapped grow_wrapped
mint_wrapped env saves plan token_id desk =
    elim (find_wrapped plan.target.id plan.origin_key plan.tokens) [
      | none ↦ open_wrapped env saves plan token_id desk
      | some wrapped ↦ grow_wrapped plan token_id wrapped desk
    ]

unfoldable pub wrap_record : Surroundings → WrapIds → WrapPlan → PlatformToken → WrapRecord
wrap_record env ids plan wrapped = record {
  id = sanitize_token_id env.new_id (str_append "W" ids.record_id);
  origin_key = plan.origin_key;
  target_chain_id = plan.target.id;
  wrapped_token_id = wrapped.id;
  wrapped_symbol = wrapped.symbol;
  amount = decimal_string plan.amount;
  status = "completed";
  created_at = env.now;
  bridge_tx_hash = str_append "0x" ids.bridge_hash;
}

-- The balances after a wrapping.
unfoldable pub move_balance : WrapPlan → PlatformToken → Portfolio → Result PlatformError Portfolio
move_balance plan wrapped p =
    let (r, p') = sub_balance plan.origin_key plan.amount p in
    elim r [
      | err e ↦ err insufficient
      | ok _ ↦ ok (add_balance (token_key plan.target.id wrapped.id) plan.amount p')
    ]

-- What follows once the tokens are minted. The portfolio is the object in the store's map, so the move
-- stays in memory also where writing it to its file fails.
unfoldable pub settle_wrap :
    Surroundings
    → Saves
    → WrapIds
    → WrapPlan
    → PlatformToken
    → List PlatformToken
    → Desk
    → Result PlatformError WrapRecord × Desk
unfolding wrap_record
settle_wrap env saves ids plan wrapped tokens desk =
    let rec = wrap_record env ids plan wrapped in
    let listed = elim plan.position as (λ _. List PlatformToken) [
      | none ↦ tokens
      | some i ↦ append_wrap_record i rec tokens
    ] in
    let kept = record desk { tokens = some listed } in
    let noted = record kept { wraps = desk.wraps ++ (rec ∷ []) } in
    let merged = record noted { registry = merge_custom_tokens noted.custom noted.registry } in
    if not saves.tokens_saved
    then (err save_failed, desk)
    else if not saves.wraps_saved
    then (err save_failed, kept)
    else elim (move_balance plan wrapped desk.portfolio) [
      | err e ↦ (err e, merged)
      | ok p ↦ (ok rec, record merged { portfolio = p })
    ]

-- `WrapPlatformToken`
unfoldable pub wrap_platform_token :
    Surroundings
    → Saves
    → WrapIds
    → String
    → String
    → String
    → String
    → Desk
    → Result PlatformError WrapRecord × Desk
unfolding plan_wrap mint_wrapped settle_wrap
wrap_platform_token env saves ids origin_chain_id token_id target_chain_id amount desk =
    elim (plan_wrap env origin_chain_id token_id target_chain_id amount desk) [
      | err e ↦ (err e, desk)
      | ok plan ↦
          let (r, minted) = mint_wrapped env saves plan token_id desk in
          elim r [
            | err e ↦ (err e, minted)
            | ok (wrapped, tokens) ↦ settle_wrap env saves ids plan wrapped tokens minted
          ]
    ]
