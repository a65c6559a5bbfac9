-- ===== src/Platform.antt =====
-- internal/bridge/tokenplatform: the tokens that the platform has deployed. The payload of a
-- deployment is left out; it is only stored.
pub mod Merge
pub mod Bridging
pub mod Wrapping
pub mod Balances
use shiva_blockchain.Base.{
  ℕ, zero, suc, ◌+◌, ◌-◌, ◌*◌, ◌/◌, ◌%◌, ◌^◌, ◌≤◌, ◌<◌, String, ◌≡◌, refl, sym, ap, ◌∙◌, ◌≢◌, ◌↔◌,
  ◌⊎◌, inl, inr, Bool, true, false, not, ◌&&◌, ◌||◌, Option, none, some, List, [], ◌∷◌, ◌++◌, map,
  foldl, arith, str_eq, eq_iff, eq_refl, ltb, leb, ◌==◌, if◌then◌else◌, ltb→lt, lt→ltb, leb→le,
  ==_iff, tests, Bool-cases, Option-cases, length, take, length-append, length-take-le, u64_mod,
  add64, sub64, mul64, add64-eq-add, sub64-eq-sub, add64-lt, word_laws, Result, ok, err, ◌>>=◌,
  ◌>>◌, fail_if, or_fail, map_err, Result-cases, Bytes, codes, has_prefix, decimal, decimal_string,
  str_append,
}
use shiva_blockchain.Base.Int.{ℤ}
use shiva_blockchain.Strings.{to_upper, len, take_chars}
use Prim.Native.Char.{code}
use shiva_blockchain.Assoc.{Assoc, get_or}
use shiva_blockchain.Assoc.Keys.{count}

pub record WrapRecord : Type 0 where
  pub id : String
  pub origin_key : String
  pub target_chain_id : String
  pub wrapped_token_id : String
  pub wrapped_symbol : String
  pub amount : String
  pub status : String
  pub created_at : ℤ
  pub bridge_tx_hash : String

pub record PlatformToken : Type 0 where
  pub id : String
  pub chain_id : String
  pub chain_type : String
  pub name : String
  pub symbol : String
  pub decimals : ℕ
  pub supply : String
  pub creator : String
  pub created_at : ℤ
  pub contract_address : String
  pub deploy_status : String
  pub deploy_tx_hash : String
  pub origin_key : String
  pub is_wrapped : Bool
  pub wrapped_on : List WrapRecord

-- `CustomTokenLite`, and `CustomToken` of internal/bridge/createtoken.go.
pub record CustomToken : Type 0 where
  pub id : String
  pub chain_id : String
  pub name : String
  pub symbol : String
  pub decimals : ℕ
  pub supply : String
  pub creator : String
  pub created_at : ℤ

-- `tokenKey`
unfoldable pub plain_key : String → String → String
plain_key chain_id token_id = str_append chain_id (str_append ":" token_id)

unfoldable pub is_token : String → String → PlatformToken → Bool
is_token chain_id token_id t = str_eq t.chain_id chain_id && str_eq t.id token_id

-- `FindToken`: the token and its position.
unfoldable pub find_from : ℕ → String → String → List PlatformToken → Option (PlatformToken × ℕ)
find_from i chain_id token_id [] = none
find_from i chain_id token_id (t ∷ l) =
    if is_token chain_id token_id t then some (t, i) else find_from (i + 1) chain_id token_id l

-- `FindByOriginKey`
unfoldable pub find_by_origin_key : String → List PlatformToken → List PlatformToken
find_by_origin_key key [] = []
find_by_origin_key key (t ∷ l) =
    let rest = find_by_origin_key key l in
    if str_eq t.origin_key key || str_eq (plain_key t.chain_id t.id) key then t ∷ rest else rest

-- `AppendWrapRecord`; the list is unchanged where there is no such position.
unfoldable pub append_wrap_record : ℕ → WrapRecord → List PlatformToken → List PlatformToken
append_wrap_record i rec [] = []
append_wrap_record zero rec (t ∷ l) = record t { wrapped_on = t.wrapped_on ++ (rec ∷ []) } ∷ l
append_wrap_record (suc i) rec (t ∷ l) = t ∷ append_wrap_record i rec l

-- `MergeWithCustom`, the first loop: `seen` holds the keys that are in the result.
unfoldable pub merge_platform : List PlatformToken → List String → List PlatformToken × List String
merge_platform [] seen = ([], seen)
merge_platform (t ∷ l) seen =
    let key = plain_key t.chain_id t.id in
    let known = not (count key seen == 0) in
    let rest = merge_platform l (if known then seen else key ∷ seen) in
    if known then rest else (t ∷ rest.0, rest.1)

unfoldable pub registered : Assoc String → CustomToken → PlatformToken
registered chain_types ct =
    let kind = get_or "" ct.chain_id chain_types in
    record {
      id = ct.id;
      chain_id = ct.chain_id;
      chain_type = if str_eq kind "" then "evm" else kind;
      name = ct.name;
      symbol = ct.symbol;
      decimals = ct.decimals;
      supply = ct.supply;
      creator = ct.creator;
      created_at = ct.created_at;
      contract_address = "";
      deploy_status = "registered";
      deploy_tx_hash = "";
      origin_key = "";
      is_wrapped = false;
      wrapped_on = [];
    }

-- The second loop, over the custom tokens.
unfoldable pub merge_custom : Assoc String → List CustomToken → List String → List PlatformToken
unfolding registered
merge_custom chain_types [] seen = []
merge_custom chain_types (ct ∷ l) seen =
    let key = plain_key ct.chain_id ct.id in
    let known = not (count key seen == 0) in
    let rest = merge_custom chain_types l (if known then seen else key ∷ seen) in
    if known then rest else registered chain_types ct ∷ rest

-- `MergeWithCustom`
unfoldable pub merge_with_custom :
    List PlatformToken → List CustomToken → Assoc String → List PlatformToken
unfolding merge_platform merge_custom
merge_with_custom platform custom chain_types =
    let (kept, seen) = merge_platform platform [] in kept ++ merge_custom chain_types custom seen

-- `ValidateWrapAmount`
unfoldable pub validate_wrap_amount : ℕ → Bool
validate_wrap_amount amount = not (amount == 0)

-- `[^A-Z0-9]` of a text is dropped.
unfoldable pub only_token_chars : String → String
only_token_chars String.[] = ""
only_token_chars (String.◌∷◌ ch s) =
    let rest = only_token_chars s in
    if leb b'A' (code ch) && leb (code ch) b'Z' || leb b'0' (code ch) && leb (code ch) b'9'
    then String.◌∷◌ ch rest
    else rest

-- `SanitizeTokenID`, with what `newID()` gives.
unfoldable pub sanitize_token_id : String → String → String
unfolding only_token_chars
sanitize_token_id new_id symbol =
    let s = only_token_chars (to_upper symbol) in
    let named = if ltb (len s) 2 then str_append "TKN" (take_chars 4 new_id) else s in
    if ltb 12 (len named) then take_chars 12 named else named

-- `WrapTokenID`, with the first bytes of the hash in hexadecimal.
unfoldable pub wrap_token_id : (String → String) → String → String → String
wrap_token_id tag origin_id target_chain_id =
    let base = str_append "W" origin_id in
    let short = if ltb 10 (len base) then take_chars 10 base else base in
    str_append short
      (to_upper (tag (str_append "wrap:" (str_append origin_id (str_append ":" target_chain_id)))))

unfoldable pub has_platform_token : String → String → List PlatformToken → Bool
has_platform_token chain_id id [] = false
has_platform_token chain_id id (t ∷ l) = is_token chain_id id t || has_platform_token chain_id id l

-- `UniqueTokenID`: an ID that is taken gets a suffix, which is not tested again.
unfoldable pub unique_token_id : String → List PlatformToken → String → String → String
unique_token_id new_id tokens chain_id base_id =
    if has_platform_token chain_id base_id tokens
    then str_append base_id (take_chars 4 new_id)
    else base_id
