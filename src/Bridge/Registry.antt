-- ===== src/Bridge/Registry.antt =====
-- internal/bridge/registry.go: the lists of chains and tokens, and the keys of balances.
use shiva_blockchain.Base.{
  ℕ, String, Bool, false, ◌&&◌, ◌||◌, Option, none, some, List, [], ◌∷◌, ◌++◌, str_eq,
  if◌then◌else◌, str_append,
}
use shiva_blockchain.Legacy.{normalize_token}

pub record ChainInfo : Type 0 where
  pub id : String
  pub name : String
  pub network_id : ℕ
  pub symbol : String
  pub native : Bool
  pub rpc : String
  pub explorer : String
  pub color : String
  pub kind : String

pub record TokenInfo : Type 0 where
  pub id : String
  pub chain_id : String
  pub name : String
  pub symbol : String
  pub decimals : ℕ
  pub native : Bool

pub record Registry : Type 0 where
  pub chains : List ChainInfo
  pub tokens : List TokenInfo

-- `GetTokens`
unfoldable pub get_tokens : String → List TokenInfo → List TokenInfo
get_tokens chain_id [] = []
get_tokens chain_id (t ∷ ts) =
    let rest = get_tokens chain_id ts in
    if str_eq chain_id "" || str_eq t.chain_id chain_id then t ∷ rest else rest

-- Whether a token of this chain and ID is listed.
unfoldable pub has_token : String → String → List TokenInfo → Bool
has_token chain_id id [] = false
has_token chain_id id (t ∷ ts) =
    str_eq t.chain_id chain_id && str_eq t.id id || has_token chain_id id ts

-- `appendToken`
unfoldable pub append_token : TokenInfo → Registry → Registry
append_token t r =
    if has_token t.chain_id t.id r.tokens then r else record r { tokens = r.tokens ++ (t ∷ []) }

-- `TokenKey`
unfoldable pub token_key : String → String → String
token_key chain_id token_id =
    let (chain, token) = normalize_token chain_id token_id in
    str_append chain (str_append ":" token)

find_in : String → String → List TokenInfo → Option TokenInfo
find_in chain_id id [] = none
find_in chain_id id (t ∷ ts) =
    if str_eq t.chain_id chain_id && str_eq t.id id then some t else find_in chain_id id ts

-- `FindToken`
unfoldable pub find_token : String → String → Registry → Option TokenInfo
unfolding find_in
find_token chain_id token_id r =
    let (chain, token) = normalize_token chain_id token_id in find_in chain token r.tokens

-- Whether `GetChains` has a chain of this ID with the type "onex".
unfoldable pub is_onex_chain : String → List ChainInfo → Bool
is_onex_chain chain_id [] = false
is_onex_chain chain_id (x ∷ xs) =
    str_eq x.id chain_id && str_eq x.kind "onex" || is_onex_chain chain_id xs
