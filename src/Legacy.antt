-- ===== src/Legacy.antt =====
-- internal/legacy: names of the chain's former brand, and what they are now.
use shiva_blockchain.Base.{
  ℕ, zero, suc, String, ◌||◌, Option, none, some, str_eq, ◌==◌, if◌then◌else◌, length, codes,
  str_append,
}
use Prim.Native.Char.{code}

-- `NormalizeChainID`
unfoldable pub normalize_chain_id : String → String
normalize_chain_id id =
    if str_eq id "shiva-mainnet-1"
    then "onex-mainnet-1"
    else if str_eq id "shiva-testnet-1"
    then "onex-testnet-1"
    else id

-- `NormalizeToken`
unfoldable pub normalize_token : String → String → String × String
normalize_token chain_id token_id = (
  normalize_chain_id chain_id,
  if str_eq token_id "SHIVA" || str_eq token_id "tSHIVA"
      then "ONEX"
      else if str_eq token_id "wSHIVA"
      then "wONEX"
      else if str_eq token_id "sSHIVA"
      then "sONEX"
      else token_id,
)

-- The part before and after the first ':' of a key (`strings.SplitN(key, ":", 2)`); `none` if there
-- is no ':'.
unfoldable pub split_colon : String → Option (String × String)
split_colon String.[] = none
split_colon (String.◌∷◌ ch rest) =
    let tail = split_colon rest in
    if code ch == b':'
    then some ("", rest)
    else elim tail [ none ↦ none | some (a, b) ↦ some (String.◌∷◌ ch a, b) ]

-- What follows the prefix `p` of a text.
strip_prefix : String → String → Option String
strip_prefix String.[] s = some s
strip_prefix (String.◌∷◌ p ps) String.[] = none
strip_prefix (String.◌∷◌ p ps) (String.◌∷◌ ch s) =
    let rest = strip_prefix ps s in if code p == code ch then rest else none

replace_from : ℕ → String → String → String → String
replace_from zero old new s = s
replace_from (suc fuel) old new String.[] = ""
replace_from (suc fuel) old new (String.◌∷◌ ch s) = elim (strip_prefix old (String.◌∷◌ ch s)) [
  | some rest ↦ str_append new (replace_from fuel old new rest)
  | none ↦ String.◌∷◌ ch (replace_from fuel old new s)
]

-- `strings.ReplaceAll` of a text that is not empty; each round reads a character at least.
unfoldable pub replace_all : String → String → String → String
unfolding strip_prefix replace_from
replace_all old new s = replace_from (length (codes s)) old new s

-- `RewriteText`
unfoldable pub rewrite_text : String → String
unfolding replace_all
rewrite_text s = replace_all "SHIVA" "ONEX" (
    replace_all "wSHIVA" "wONEX" (
      replace_all "sSHIVA" "sONEX" (
        replace_all "tSHIVA" "tONEX" (
          replace_all "shivad" "onexd" (
            replace_all "shiva-ai" "onex-ai" (
              replace_all "shiva-bridge" "onex-bridge" (
                replace_all "shiva-wallet" "onex-wallet" (
                  replace_all ".shiva" ".onex" (
                    replace_all "shiva-testnet-1" "onex-testnet-1"
                      (replace_all "shiva-mainnet-1" "onex-mainnet-1" s))))))))))

-- `NormalizeTokenKey`
unfoldable pub normalize_token_key : String → String
normalize_token_key key = elim (split_colon key) [
  | none ↦ rewrite_text key
  | some (chain_id, token_id) ↦
      let (chain, token) = normalize_token chain_id token_id in
      str_append chain (str_append ":" token)
]

-- `NormalizeRPCMethod`
unfoldable pub normalize_rpc_method : String → String
unfolding strip_prefix
normalize_rpc_method method = elim (strip_prefix "shiva_" method) [
  | none ↦ method
  | some rest ↦ str_append "onex_" rest
]
