-- ===== src/Ledger/External.antt =====
-- internal/ledger/external.go: the kinds of outside destinations, the patterns of their addresses and
-- the names of chains. Lengths count bytes, so texts are ASCII.
use shiva_blockchain.Base.{
  ℕ, ◌-◌, String, Bool, ◌&&◌, ◌||◌, Option, none, some, [], ◌∷◌, str_eq, leb, if◌then◌else◌,
  str_append,
}
use shiva_blockchain.Strings.{trim_space, starts, drop_chars, take_chars, len, all_chars}
use shiva_blockchain.Assoc.{Assoc, lookup}

pub data ExternalKind : Type 0 where
  onex evm solana bitcoin tron bank : ExternalKind

pub record ExternalDestination : Type 0 where
  pub kind : ExternalKind
  pub chain_id : String
  pub bank_rail : String
  pub bank_name : String
  pub address : String
  pub label : String
  pub account_id : String

pub data ExternalError : Type 0 where
  destination_missing invalid_onex use_chain_format unrecognized_format : ExternalError
  chain_address_required invalid_solana invalid_bitcoin invalid_tron : ExternalError
  use_bank_format bank_account_required : ExternalError
  invalid_evm : String → ExternalError

abbrev between : ℕ → ℕ → ℕ → Bool
between lo hi ch = leb lo ch && leb ch hi

abbrev is_number : ℕ → Bool
is_number ch = between b'0' b'9' ch

abbrev is_hex : ℕ → Bool
is_hex ch = is_number ch || between b'a' b'f' ch || between b'A' b'F' ch

-- [1-9A-HJ-NP-Za-km-z]
abbrev is_base58 : ℕ → Bool
is_base58 ch =
    between b'1' b'9' ch
    || between b'A' b'H' ch
    || between b'J' b'N' ch
    || between b'P' b'Z' ch
    || between b'a' b'k' ch
    || between b'm' b'z' ch

-- [a-zA-HJ-NP-Z0-9]
abbrev is_btc_char : ℕ → Bool
is_btc_char ch =
    between b'a' b'z' ch
    || between b'A' b'H' ch
    || between b'J' b'N' ch
    || between b'P' b'Z' ch
    || is_number ch

abbrev is_upper : ℕ → Bool
is_upper ch = between b'A' b'Z' ch

abbrev is_upper_or_number : ℕ → Bool
is_upper_or_number ch = is_upper ch || is_number ch

-- Between `lo` and `hi` characters, all of a class.
unfoldable pub run_of : (ℕ → Bool) → ℕ → ℕ → String → Bool
run_of p lo hi s = leb lo (len s) && (leb (len s) hi && all_chars p s)

-- `evmAddrRe`
unfoldable pub is_evm_addr : String → Bool
is_evm_addr s = starts s "0x" && run_of is_hex 40 40 (drop_chars 2 s)

-- `btcAddrRe`
unfoldable pub is_btc_addr : String → Bool
is_btc_addr s =
    starts s "bc1" && run_of is_btc_char 25 62 (drop_chars 3 s)
    || (starts s "1" || starts s "3") && run_of is_btc_char 25 62 (drop_chars 1 s)

-- `tronAddrRe`
unfoldable pub is_tron_addr : String → Bool
is_tron_addr s = starts s "T" && run_of is_base58 33 33 (drop_chars 1 s)

-- `solAddrRe`
unfoldable pub is_sol_addr : String → Bool
is_sol_addr s = run_of is_base58 32 44 s

-- `ibanRe`
unfoldable pub is_iban : String → Bool
is_iban s =
    run_of is_upper 2 2 (take_chars 2 s)
    && (run_of is_number 2 2 (take_chars 2 (drop_chars 2 s))
        && run_of is_upper_or_number 11 30 (drop_chars 4 s))

-- `chainAliases`
unfoldable pub chain_aliases : Assoc String
chain_aliases =
    ("onex", "onex-mainnet-1")
    ∷ ("eth", "ethereum")
    ∷ ("ethereum", "ethereum")
    ∷ ("bsc", "bsc")
    ∷ ("bnb", "bsc")
    ∷ ("matic", "polygon")
    ∷ ("polygon", "polygon")
    ∷ ("arb", "arbitrum")
    ∷ ("arbitrum", "arbitrum")
    ∷ ("op", "optimism")
    ∷ ("optimism", "optimism")
    ∷ ("avax", "avalanche")
    ∷ ("avalanche", "avalanche")
    ∷ ("base", "base")
    ∷ ("sol", "solana")
    ∷ ("solana", "solana")
    ∷ ("btc", "bitcoin")
    ∷ ("bitcoin", "bitcoin")
    ∷ ("trx", "tron")
    ∷ ("tron", "tron")
    ∷ ("all", "alltra")
    ∷ ("alltra", "alltra")
    ∷ ("chain", "")
    ∷ ("evm", "ethereum")
    ∷ ("crypto", "ethereum")
    ∷ []

-- Identifier and name in `SupportedChains`.
unfoldable pub chain_names : Assoc String
chain_names =
    ("onex-mainnet-1", "OneX")
    ∷ ("ethereum", "Ethereum")
    ∷ ("bsc", "BNB Chain")
    ∷ ("polygon", "Polygon")
    ∷ ("arbitrum", "Arbitrum")
    ∷ ("optimism", "Optimism")
    ∷ ("avalanche", "Avalanche")
    ∷ ("base", "Base")
    ∷ ("solana", "Solana")
    ∷ ("bitcoin", "Bitcoin")
    ∷ ("tron", "TRON")
    ∷ ("alltra", "ALLTRA")
    ∷ []

-- The alias of a chain that is not "".
unfoldable pub alias : String → Option String
alias chain = elim (lookup chain chain_aliases) [
  | none ↦ none
  | some id ↦ if str_eq id "" then none else some id
]

-- `shortAddr`
unfoldable pub short_addr : String → String
short_addr text =
    let s = trim_space text in
    if leb (len s) 12
    then s
    else str_append (take_chars 6 s) (str_append "…" (drop_chars (len s - 4) s))
