-- ===== src/Tests/Platforms.antt =====
-- Runs of the token platform, the API's limiter and the launcher.
use shiva_blockchain.Base.{
  ℕ, zero, suc, ◌+◌, ◌-◌, ◌*◌, ◌/◌, ◌%◌, ◌^◌, ◌≤◌, ◌<◌, String, ◌≡◌, refl, sym, ap, ◌∙◌, ◌≢◌, ◌↔◌,
  ◌⊎◌, inl, inr, Bool, true, false, not, ◌&&◌, ◌||◌, Option, none, some, List, [], ◌∷◌, ◌++◌, map,
  foldl, arith, str_eq, eq_iff, eq_refl, ltb, leb, ◌==◌, if◌then◌else◌, ltb→lt, lt→ltb, leb→le,
  ==_iff, tests, Bool-cases, Option-cases, length, take, length-append, length-take-le, u64_mod,
  add64, sub64, mul64, add64-eq-add, sub64-eq-sub, add64-lt, word_laws, Result, ok, err, ◌>>=◌,
  ◌>>◌, fail_if, or_fail, map_err, Result-cases, Bytes, codes, has_prefix, decimal, decimal_string,
  str_append,
}
use shiva_blockchain.Bridge.Registry.{Registry, ChainInfo, token_key}
use shiva_blockchain.Bridge.Portfolio.{Portfolio, get_balance, default_portfolio}
use shiva_blockchain.Rpc.Amount.{parse_amount}
use shiva_blockchain.Launcher.{TokenRecord, listing, done, add_token, upsert_token}
use shiva_blockchain.Api.{recent}
use shiva_blockchain.Launcher.Tokens.{IsDistinctFile, token_store-IsDistinct}
use shiva_blockchain.Assoc.Keys.{count}
use shiva_blockchain.Platform.{PlatformToken, merge_with_custom, WrapRecord}
use shiva_blockchain.Base.Int.{pos}
use shiva_blockchain.Platform.Merge.{token_keys, custom_keys, merge_with_custom_once}
use shiva_blockchain.Assoc.{get_or}
use shiva_blockchain.Api.Limit.{note_all, fresh, accepted_within_limit}
use shiva_blockchain.Platform.Bridging.{PlatformError, Surroundings, Saves, Adapter, Desk}
use shiva_blockchain.Platform.Balances.{wrap_moves_amount}
use shiva_blockchain.Platform.Wrapping.{wrap_platform_token, WrapIds}

abbrev calls : List (String × ℕ)
calls = ("one", 5) ∷ ("two", 6) ∷ ("one", 7) ∷ ("one", 8) ∷ []

accepted_within_limit_example :
    length (recent 60 9 (get_or [] "one" (note_all calls (fresh 2 60)).log)) ≤ 2
accepted_within_limit_example = accepted_within_limit 2 60 calls "one" 9 (omega arith) (omega arith)

abbrev coin : TokenRecord
coin = record {
  contract_address = "0xAB";
  name = "Coin";
  symbol = "C";
  decimals = pos 18;
  supply = "1";
  tx_hash = "";
  creator = "";
  deploy_method = "";
  chain_id = pos 56;
  chain_slug = "bsc";
  chain_name = "";
  explorer = "";
  created_at = pos 0;
}

token_store-IsDistinct_example :
    IsDistinctFile (add_token done (pos 4) coin (listing (coin ∷ []))).1
    × IsDistinctFile (upsert_token done (pos 4) coin (listing (coin ∷ []))).1
token_store-IsDistinct_example =
    token_store-IsDistinct done (pos 4) coin (listing (coin ∷ [])) tt (tt, tt)

abbrev hub_token : PlatformToken
hub_token = record {
  id = "HUB";
  chain_id = "onex-mainnet-1";
  chain_type = "onex";
  name = "Hub";
  symbol = "HUB";
  decimals = 8;
  supply = "1000";
  creator = "";
  created_at = pos 0;
  contract_address = "";
  deploy_status = "";
  deploy_tx_hash = "";
  origin_key = "";
  is_wrapped = false;
  wrapped_on = [];
}

merge_with_custom_once_example :
    count "c:A" (token_keys (merge_with_custom (hub_token ∷ hub_token ∷ []) [] [])) ≡ (
      if ltb 0
        (count "c:A" (token_keys (hub_token ∷ hub_token ∷ [])) + count "c:A" (custom_keys []))
      then 1
      else 0)
merge_with_custom_once_example = merge_with_custom_once "c:A" (hub_token ∷ hub_token ∷ []) [] []

abbrev chain_named : String → String → ChainInfo
chain_named id kind = record {
  id = id;
  name = "";
  network_id = 1;
  symbol = "";
  native = false;
  rpc = "";
  explorer = "";
  color = "";
  kind = kind;
}

abbrev printer : Adapter
printer = record {
  deploy = λ input.
      some (record { contract_address = "0x1"; deploy_status = "live"; deploy_tx_hash = "" });
  wrap_symbol = λ s. str_append "W" s;
}

abbrev environment : Surroundings
environment = record {
  for_type = λ kind. some printer;
  creator = "w";
  now = pos 5;
  new_id = "abcd1234";
  tag = λ s. "0a0b";
}

abbrev all_saved : Saves
all_saved = record {
  tokens_saved = true;
  wraps_saved = true;
  custom_saved = true;
  portfolio_saved = true;
}

abbrev wrap_desk : Desk
wrap_desk = record {
  tokens = some (hub_token ∷ []);
  wraps = [];
  custom = [];
  registry = record {
    chains = chain_named "onex-mainnet-1" "onex" ∷ chain_named "bsc" "evm" ∷ [];
    tokens = [];
  };
  portfolio = record (default_portfolio false "w") {
    balances = ("onex-mainnet-1:HUB", 500000000) ∷ [];
  };
  created_tokens = [];
}

abbrev wrap_names : WrapIds
wrap_names = record { record_id = "1f"; bridge_hash = "2e" }

abbrev hub_wrap : WrapRecord
hub_wrap = record {
  id = "W1F";
  origin_key = "onex-mainnet-1:HUB";
  target_chain_id = "bsc";
  wrapped_token_id = "WHUB0A0B";
  wrapped_symbol = "WHUB";
  amount = "300000000";
  status = "completed";
  created_at = pos 5;
  bridge_tx_hash = "0x2e";
}

abbrev hub_wrapped : Result PlatformError WrapRecord × Desk
hub_wrapped =
    wrap_platform_token environment all_saved wrap_names "onex-mainnet-1" "HUB" "bsc" "3" wrap_desk

hub_wrap_works : hub_wrapped.0 ≡ ok hub_wrap
unfolding wrap_platform_token parse_amount shiva_blockchain.Rpc.Amount.parse_bytes
    shiva_blockchain.Rpc.Amount.trim_space shiva_blockchain.Rpc.Amount.split_dot
    shiva_blockchain.Rpc.Amount.parse_fraction shiva_blockchain.Rpc.Amount.is_space
    shiva_blockchain.Rpc.Amount.pad_right shiva_blockchain.Base.Decimal.Reading.parse_uint
    shiva_blockchain.Base.Decimal.Reading.read_digits shiva_blockchain.Platform.validate_wrap_amount
    shiva_blockchain.Platform.find_from shiva_blockchain.Platform.is_token
    shiva_blockchain.Platform.append_wrap_record shiva_blockchain.Platform.only_token_chars
    shiva_blockchain.Platform.sanitize_token_id shiva_blockchain.Platform.wrap_token_id add64 mul64
    shiva_blockchain.Platform.Bridging.find_chain shiva_blockchain.Platform.Bridging.find_chain_in
    shiva_blockchain.Platform.Bridging.merge_custom_tokens
    shiva_blockchain.Platform.Bridging.must_parse_uint shiva_blockchain.Platform.Bridging.new_token
    get_balance get_or shiva_blockchain.Assoc.lookup shiva_blockchain.Assoc.insert token_key
    decimal_string shiva_blockchain.Base.digit shiva_blockchain.Base.string_from
    shiva_blockchain.Bridge.Loans.scan_number shiva_blockchain.Bridge.Portfolio.add_balance
    shiva_blockchain.Bridge.Portfolio.set_balance shiva_blockchain.Bridge.Portfolio.sub_balance
    shiva_blockchain.Bridge.Registry.append_token shiva_blockchain.Bridge.Registry.find_token
    shiva_blockchain.Bridge.Registry.has_token shiva_blockchain.Legacy.normalize_chain_id
    shiva_blockchain.Legacy.normalize_token shiva_blockchain.Platform.Wrapping.find_origin
    shiva_blockchain.Platform.Wrapping.find_wrapped shiva_blockchain.Platform.Wrapping.first_token
    shiva_blockchain.Platform.Wrapping.grow_wrapped shiva_blockchain.Platform.Wrapping.mint_wrapped
    shiva_blockchain.Platform.Wrapping.move_balance shiva_blockchain.Platform.Wrapping.open_wrapped
    shiva_blockchain.Platform.Wrapping.plan_wrap shiva_blockchain.Platform.Wrapping.settle_wrap
    shiva_blockchain.Platform.Wrapping.update_token shiva_blockchain.Platform.Wrapping.wrap_input
    shiva_blockchain.Platform.Wrapping.wrap_record shiva_blockchain.Strings.len
    shiva_blockchain.Strings.take_chars shiva_blockchain.Strings.to_upper
hub_wrap_works = refl

hub_keys_apart : token_key "onex-mainnet-1" "HUB" ≢ token_key "bsc" "WHUB0A0B"
unfolding token_key shiva_blockchain.Legacy.normalize_token
    shiva_blockchain.Legacy.normalize_chain_id
hub_keys_apart e = absurd (ground (arith, e, eq_iff "onex-mainnet-1:HUB" "bsc:WHUB0A0B"))

wrap_moves_amount_example :
    (n : ℕ) × (parse_amount "3" ≡ ok n)
    × (0 < n)
    × (n ≤ get_balance (token_key "onex-mainnet-1" "HUB") wrap_desk.portfolio)
    × ((key : String)
        → get_balance key hub_wrapped.1.portfolio ≡ (
            if str_eq (token_key "onex-mainnet-1" "HUB") key
            then get_balance key wrap_desk.portfolio - n
            else if str_eq (token_key "bsc" "WHUB0A0B") key
            then add64 (get_balance key wrap_desk.portfolio) n
            else get_balance key wrap_desk.portfolio))
wrap_moves_amount_example =
    wrap_moves_amount environment all_saved wrap_names "onex-mainnet-1" "HUB" "bsc" "3" wrap_desk
      hub_wrap_works hub_keys_apart
