-- ===== src/Platform/Bridging.antt =====
-- internal/bridge/tokenplatform_bridge.go and createtoken.go: tokens that are deployed and wrapped.
-- The adapters of the chains and fresh identifiers are given; the wallet exists.
use shiva_blockchain.Base.{
  ℕ, String, Bool, false, not, ◌&&◌, ◌||◌, Option, none, some, List, [], ◌∷◌, ◌++◌, str_eq, ltb,
  ◌==◌, if◌then◌else◌, Result, ok, err, ◌>>=◌, ◌>>◌, fail_if, or_fail, map_err, codes,
  decimal_string,
}
use shiva_blockchain.Base.Int.{ℤ}
use shiva_blockchain.Strings.{to_upper}
use shiva_blockchain.Rpc.Amount.{parse_amount}
use shiva_blockchain.Bridge.Registry.{ChainInfo, Registry, token_key, append_token}
use shiva_blockchain.Bridge.Portfolio.{Portfolio, add_balance}
use shiva_blockchain.Bridge.Loans.{scan_number}
use shiva_blockchain.Bridge.Tasks.{complete_task}
use shiva_blockchain.Platform.{
  CustomToken, PlatformToken, unique_token_id, WrapRecord, sanitize_token_id,
}

pub record DeployInput : Type 0 where
  pub chain : ChainInfo
  pub name : String
  pub symbol : String
  pub decimals : ℕ
  pub supply : ℕ
  pub token_id : String
  pub same_address_mirror : Bool
  pub mirror_origin_id : String

pub record DeployResult : Type 0 where
  pub contract_address : String
  pub deploy_status : String
  pub deploy_tx_hash : String

-- `chains.Adapter`
pub record Adapter : Type 0 where
  pub deploy : DeployInput → Option DeployResult
  pub wrap_symbol : String → String

pub data PlatformError : Type 0 where
  name_required bad_decimals unreadable_amount zero_amount unknown_chain unsupported_chain :
      PlatformError
  load_failed save_failed deploy_failed same_chain origin_missing insufficient : PlatformError

-- What a call takes from its surroundings; `for_type` is `chains.For`.
pub record Surroundings : Type 0 where
  pub for_type : String → Option Adapter
  pub creator : String
  pub now : ℤ
  pub new_id : String
  pub tag : String → String

-- Which writes of files succeed.
pub record Saves : Type 0 where
  pub tokens_saved : Bool
  pub wraps_saved : Bool
  pub custom_saved : Bool
  pub portfolio_saved : Bool

-- The files, the registry in memory, and the portfolio as `GetPortfolio` gives it. `none` is a file
-- of tokens that cannot be read.
pub record Desk : Type 0 where
  pub tokens : Option (List PlatformToken)
  pub wraps : List WrapRecord
  pub custom : List CustomToken
  pub registry : Registry
  pub portfolio : Portfolio
  pub created_tokens : List String

unfoldable pub find_chain_in : String → List ChainInfo → Option ChainInfo
find_chain_in id [] = none
find_chain_in id (x ∷ l) = if str_eq x.id id then some x else find_chain_in id l

-- `findChain`
unfoldable pub find_chain : String → Registry → Result PlatformError ChainInfo
unfolding find_chain_in
find_chain id r = or_fail (find_chain_in id r.chains) unknown_chain

-- `mergeCustomTokensIntoRegistry`
unfoldable pub merge_custom_tokens : List CustomToken → Registry → Registry
merge_custom_tokens [] r = r
merge_custom_tokens (ct ∷ l) r = merge_custom_tokens l (
    append_token
      (record {
        id = ct.id;
        chain_id = ct.chain_id;
        name = ct.name;
        symbol = ct.symbol;
        decimals = ct.decimals;
        native = false;
      })
      r)

unfoldable pub has_custom : String → String → List CustomToken → Bool
has_custom chain_id id [] = false
has_custom chain_id id (t ∷ l) =
    str_eq t.chain_id chain_id && str_eq t.id id || has_custom chain_id id l

-- `mustParseUint`
unfoldable pub must_parse_uint : String → ℕ
must_parse_uint s = elim (scan_number (codes s)) [ none ↦ 0 | some n ↦ n ]

abbrev pub custom_of : PlatformToken → CustomToken
custom_of pt = record {
  id = pt.id;
  chain_id = pt.chain_id;
  name = pt.name;
  symbol = pt.symbol;
  decimals = pt.decimals;
  supply = pt.supply;
  creator = pt.creator;
  created_at = pt.created_at;
}

-- The last part of `registerPlatformToken`. The portfolio is the object in the store's map: it keeps
-- the credit also where writing it to its file fails.
unfoldable pub credit_creation :
    Saves → PlatformToken → Desk → Result PlatformError (Unit {0}) × Desk
credit_creation saves pt desk =
    let key = token_key pt.chain_id pt.id in
    (
      if saves.portfolio_saved then ok tt else err save_failed,
      record desk {
        registry = merge_custom_tokens desk.custom desk.registry;
        portfolio = add_balance key (must_parse_uint pt.supply) desk.portfolio;
        created_tokens = desk.created_tokens ++ (key ∷ []);
      },
    )

-- `registerPlatformToken`
unfoldable pub register_platform_token :
    Saves → PlatformToken → Desk → Result PlatformError (Unit {0}) × Desk
unfolding credit_creation
register_platform_token saves pt desk =
    if has_custom pt.chain_id pt.id desk.custom
    then credit_creation saves pt desk
    else if saves.custom_saved
    then credit_creation saves pt (record desk { custom = desk.custom ++ (custom_of pt ∷ []) })
    else (err save_failed, desk)

-- A token as a deployment makes it.
unfoldable pub new_token :
    Surroundings → DeployInput → DeployResult → String → String → Bool → PlatformToken
new_token env input out symbol origin wrapped = record {
  id = input.token_id;
  chain_id = input.chain.id;
  chain_type = input.chain.kind;
  name = input.name;
  symbol = symbol;
  decimals = input.decimals;
  supply = decimal_string input.supply;
  creator = env.creator;
  created_at = env.now;
  contract_address = out.contract_address;
  deploy_status = out.deploy_status;
  deploy_tx_hash = out.deploy_tx_hash;
  origin_key = origin;
  is_wrapped = wrapped;
  wrapped_on = [];
}

-- `DeployPlatformToken` after its deployment.
unfoldable pub record_deployment :
    Saves → List PlatformToken → PlatformToken → Desk → Result PlatformError PlatformToken × Desk
record_deployment saves tokens pt desk =
    let (r, d) =
      register_platform_token saves pt (record desk { tokens = some (tokens ++ (pt ∷ [])) }) in
    if not saves.tokens_saved then (err save_failed, desk) else elim r [
      | err e ↦ (err e, d)
      | ok _ ↦ (ok pt, record d { portfolio = complete_task "create-token" d.portfolio })
    ]

-- The checks of `DeployPlatformToken`, and the deployment.
unfoldable pub deployment :
    Surroundings
    → String
    → String
    → String
    → ℕ
    → String
    → Desk
    → Result PlatformError (List PlatformToken × PlatformToken)
deployment env chain_id name symbol decimals supply_text desk = do
  fail_if (str_eq name "" || str_eq symbol "") name_required
  fail_if (ltb 18 decimals) bad_decimals
  supply ← map_err (λ e. unreadable_amount) (parse_amount supply_text)
  fail_if (supply == 0) zero_amount
  chain ← find_chain chain_id desk.registry
  adapter ← or_fail (env.for_type chain.kind) unsupported_chain
  tokens ← or_fail desk.tokens load_failed
  let input : DeployInput = record {
    chain = chain;
    name = name;
    symbol = symbol;
    decimals = decimals;
    supply = supply;
    token_id = unique_token_id env.new_id tokens chain_id (sanitize_token_id env.new_id symbol);
    same_address_mirror = false;
    mirror_origin_id = "";
  }
  out ← or_fail (adapter.deploy input) deploy_failed
  ok (tokens, new_token env input out (to_upper symbol) "" false)

-- `DeployPlatformToken`
unfoldable pub deploy_platform_token :
    Surroundings
    → Saves
    → String
    → String
    → String
    → ℕ
    → String
    → Desk
    → Result PlatformError PlatformToken × Desk
unfolding deployment record_deployment
deploy_platform_token env saves chain_id name symbol decimals supply desk =
    elim (deployment env chain_id name symbol decimals supply desk) [
      | err e ↦ (err e, desk)
      | ok (tokens, pt) ↦ record_deployment saves tokens pt desk
    ]
