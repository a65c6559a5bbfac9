-- ===== src/Launcher/Registry.antt =====
-- bsc-launcher/server/dexregistry.go: the exchanges and quote tokens of each chain.
use shiva_blockchain.Base.{
  String, ◌≡◌, ap, ◌∙◌, ◌⊎◌, inl, inr, Bool, ◌||◌, Option, none, some, List, [], ◌∷◌, arith, str_eq,
  if◌then◌else◌, Bool-cases, Option-cases, Result, ok, err, ◌>>=◌, or_fail, Result-cases,
  str_append,
}
use shiva_blockchain.Base.Int.{ℤ}
use shiva_blockchain.Strings.{trim_space, to_lower, trim_right}
use shiva_blockchain.Assoc.{Assoc, lookup}

pub record RegistryQuote : Type 0 where
  pub id : String
  pub symbol : String
  pub address : String
  pub decimals : ℤ

pub record RegistryDex : Type 0 where
  pub id : String
  pub name : String
  pub liquidity_mode : String
  pub liquidity_url : String
  pub info_url : String

pub record ChainDexConfig : Type 0 where
  pub name : String
  pub network_id : ℤ
  pub wrapped_native : RegistryQuote
  pub stablecoins : List RegistryQuote
  pub dexes : List RegistryDex

pub data DexError : Type 0 where
  no_chain no_dexes dex_missing unsupported_quote : DexError

-- `normalizeRegistryChain`
unfoldable pub normalize_registry_chain : String → String
normalize_registry_chain text =
    let slug = to_lower (trim_space text) in
    if str_eq slug "" || str_eq slug "bnb" || str_eq slug "bsc"
    then "bsc"
    else if str_eq slug "eth" || str_eq slug "mainnet"
    then "ethereum"
    else if str_eq slug "matic"
    then "polygon"
    else if str_eq slug "arb"
    then "arbitrum"
    else if str_eq slug "op"
    then "optimism"
    else if str_eq slug "avax"
    then "avalanche"
    else slug

-- `chainConfig` of a registry that is loaded.
unfoldable pub chain_config : String → Assoc ChainDexConfig → Result DexError ChainDexConfig
chain_config slug chains = or_fail (lookup (normalize_registry_chain slug) chains) no_chain

unfoldable pub find_dex : String → List RegistryDex → Option RegistryDex
find_dex id [] = none
find_dex id (x ∷ l) = if str_eq x.id id then some x else find_dex id l

abbrev first_dex : List RegistryDex → Option RegistryDex
first_dex [] = none
first_dex (x ∷ l) = some x

-- `dex`
unfoldable pub dex :
    String → String → Assoc ChainDexConfig → Result DexError (ChainDexConfig × RegistryDex)
dex slug dex_id chains = chain_config slug chains >>= λ cfg.
    (if str_eq dex_id ""
      then or_fail (first_dex cfg.dexes) no_dexes
      else or_fail (find_dex dex_id cfg.dexes) dex_missing)
    >>= λ x. ok (cfg, x)

unfoldable pub find_quote : String → List RegistryQuote → Option RegistryQuote
find_quote id [] = none
find_quote id (q ∷ l) = if str_eq q.id id then some q else find_quote id l

abbrev is_native_name : String → Bool
is_native_name id = str_eq id "bnb" || str_eq id "eth" || str_eq id "matic" || str_eq id "avax"

unfoldable pub quote_in : String → ChainDexConfig → Result DexError RegistryQuote
quote_in id cfg =
    if is_native_name id then ok cfg.wrapped_native else elim (find_quote id cfg.stablecoins) [
      | some q ↦ ok q
      | none ↦
          if str_eq cfg.wrapped_native.id id then ok cfg.wrapped_native else err unsupported_quote
    ]

-- `quoteToken`
unfoldable pub quote_token : String → String → Assoc ChainDexConfig → Result DexError RegistryQuote
unfolding quote_in
quote_token slug text chains = chain_config slug chains >>= quote_in (to_lower text)

-- `allQuotes`
unfoldable pub all_quotes : String → Assoc ChainDexConfig → List RegistryQuote
all_quotes slug chains = elim (chain_config slug chains) [
  | err e ↦ []
  | ok cfg ↦ cfg.wrapped_native ∷ cfg.stablecoins
]

-- `dexPairURL`
unfoldable pub dex_pair_url : RegistryDex → String → String
dex_pair_url x pair =
    if str_eq pair ""
    then x.liquidity_url
    else str_append (trim_right b'/' x.info_url) (str_append "/" pair)

abbrev pub HeldQuote : RegistryQuote → List RegistryQuote → Type 0
HeldQuote q [] = ⊥
HeldQuote q (x ∷ l) = (q ≡ x) ⊎ HeldQuote q l

find_quote-HeldQuote :
    (id : String) (l : List RegistryQuote) {q : RegistryQuote}
    → find_quote id l ≡ some q
    → HeldQuote q l
unfolding find_quote
find_quote-HeldQuote id (x ∷ l) {q} h = elim (Bool-cases (str_eq x.id id)) [
  | inl this ↦ inl (ground (arith, this))
  | inr later ↦ inr (find_quote-HeldQuote id l (ground (arith, later)))
]
find_quote-HeldQuote id [] h = absurd (ground (arith, h))

quote_in-HeldQuote :
    (id : String) (cfg : ChainDexConfig) {q : RegistryQuote}
    → quote_in id cfg ≡ ok q
    → HeldQuote q (cfg.wrapped_native ∷ cfg.stablecoins)
unfolding quote_in
quote_in-HeldQuote id cfg {q} h = elim (Bool-cases (is_native_name id)) [
  | inl native ↦ inl (ground (arith, native, h))
  | inr plain ↦ elim (Option-cases (find_quote id cfg.stablecoins)) [
    | inl none_found ↦ inl (ground (arith, plain, none_found, h))
    | inr (x, found) ↦
        let same : x ≡ q = ground (arith, plain, found, h) in
        inr (find_quote-HeldQuote id cfg.stablecoins (found ∙ ap some same))
  ]
]

-- Every token that `quoteToken` accepts is one that `allQuotes` offers for the chain.
pub quote_token-all_quotes :
    (slug text : String) (chains : Assoc ChainDexConfig) {q : RegistryQuote}
    → quote_token slug text chains ≡ ok q
    → HeldQuote q (all_quotes slug chains)
unfolding quote_token all_quotes
quote_token-all_quotes slug text chains {q} h = elim (Result-cases (chain_config slug chains)) [
  | inr (e, missing) ↦ absurd (ground (arith, missing, h))
  | inl (cfg, found) ↦
      rw (found, all_quotes) (quote_in-HeldQuote (to_lower text) cfg (ground (arith, found, h)))
]
