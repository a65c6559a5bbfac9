-- ===== src/Ledger/Engine.antt =====
-- `Read` of internal/ledger/engine.go: the entries of all sources, valued and summed.
use shiva_blockchain.Base.{
  String, Bool, not, ◌&&◌, ◌||◌, List, [], ◌∷◌, ◌++◌, str_eq, if◌then◌else◌, str_append,
}
use shiva_blockchain.Base.Int.{ℤ}
use shiva_blockchain.Strings.{trim_space, to_lower, to_upper}
use shiva_blockchain.Assoc.{Assoc}
use shiva_blockchain.Ledger.Float.{Float64}
use shiva_blockchain.Ledger.Reading.{
  import_entries, TokenMeta, split_token_key, ImportRow, symbol_of,
}
use shiva_blockchain.Ledger.{Entry, Snapshot}
use shiva_blockchain.Ledger.Convert.{
  atomic_to_human_str, value_entry, summarize, nought, decimals_for_symbol,
}

pub record ReadInput (F : Type 0) : Type 0 where
  pub mode : String
  pub fiat_currency : String
  -- The holder in the configuration.
  pub default_holder : String
  pub source : String
  pub wallet_addr : String
  pub evm_holder : String
  pub onex_atomic : String
  pub portfolio : Assoc String
  pub tokens : List TokenMeta
  pub prices : Assoc F
  -- What the banks, the other chains and the import file give.
  pub bank : List (Entry F)
  pub evm : String → List (Entry F)
  pub imports : List ImportRow

-- `Production`
unfoldable pub production : String → Bool
production mode = str_eq mode "production" || str_eq mode "prod"

module _ {F : Type 0} (d : Float64 F) where
  unfoldable pub onex_entry : ℤ → ReadInput F → Entry F
  onex_entry now input = record {
    id = "onex-native";
    source = "onex";
    mode = "real";
    chain_id = "onex-mainnet-1";
    asset = "ONEX";
    token_key = "onex-mainnet-1:ONEX";
    atomic = input.onex_atomic;
    human = atomic_to_human_str input.onex_atomic 8;
    fiat_currency = "";
    fiat_value = nought d;
    fiat_usd = nought d;
    account = input.wallet_addr;
    timestamp = now;
    reference = "onex_chain";
  }

  unfoldable pub portfolio_entry : ℤ → ReadInput F → String → String → Entry F
  portfolio_entry now input key atomic =
      let (chain_id, token_id) = split_token_key key in
      let sym = symbol_of input.tokens chain_id token_id in
      record {
        id = str_append "portfolio-" key;
        source = "portfolio";
        mode = "simulated";
        chain_id = chain_id;
        asset = sym;
        token_key = key;
        atomic = atomic;
        human = atomic_to_human_str atomic (decimals_for_symbol sym);
        fiat_currency = "";
        fiat_value = nought d;
        fiat_usd = nought d;
        account = input.wallet_addr;
        timestamp = now;
        reference = "portfolio_store";
      }

  unfoldable pub portfolio_entries : ℤ → ReadInput F → Assoc String → List (Entry F)
  unfolding portfolio_entry
  portfolio_entries now input [] = []
  portfolio_entries now input ((key, atomic) ∷ l) =
      let rest = portfolio_entries now input l in
      if str_eq atomic "" || str_eq atomic "0"
      then rest
      else portfolio_entry now input key atomic ∷ rest

  -- `src == "all" || src == name`
  abbrev pub wants : ReadInput F → String → Bool
  wants input name =
      let given = to_lower (trim_space input.source) in
      str_eq given "" || str_eq given "all" || str_eq given name

  abbrev pub holder_of : ReadInput F → String
  holder_of input = if str_eq input.evm_holder "" then input.default_holder else input.evm_holder

  -- The entries of each source, in their order.
  unfoldable pub all_entries : ℤ → ReadInput F → List (Entry F)
  unfolding portfolio_entries onex_entry
  all_entries now input =
      let holder = holder_of input in
      let has_onex = not (str_eq input.onex_atomic "") && not (str_eq input.onex_atomic "0") in
      (if wants input "bank" then input.bank else [])
      ++ ((if wants input "onex" && has_onex then onex_entry now input ∷ [] else [])
          ++ ((if wants input "evm" && not (str_eq holder "") then input.evm holder else [])
              ++ ((if wants input "portfolio" && not (production input.mode)
                    then portfolio_entries now input input.portfolio
                    else [])
                  ++ (if wants input "import" then import_entries d now 0 input.imports else []))))

  -- The loop that values the entries.
  unfoldable pub value_entries : String → Assoc F → List (Entry F) → List (Entry F)
  value_entries fiat prices [] = []
  value_entries fiat prices (e ∷ l) =
      value_entry d (record e { fiat_currency = fiat }) prices ∷ value_entries fiat prices l

  -- `Read`
  unfoldable pub read : ℤ → ReadInput F → Snapshot F
  unfolding all_entries value_entries
  read now input =
      let currency = to_upper (trim_space input.fiat_currency) in
      let fiat = if str_eq currency "" then "USD" else currency in
      let label = if str_eq input.mode "" then "production" else input.mode in
      let entries = value_entries fiat input.prices (all_entries now input) in
      record (summarize d entries label) { at = now }
