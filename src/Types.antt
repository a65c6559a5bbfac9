-- ===== src/Types.antt =====
-- internal/types/types.go: transactions, blocks, accounts, the genesis configuration, addresses.
pub mod Hex
use shiva_blockchain.Base.{
  ℕ, zero, suc, ◌+◌, ◌-◌, ◌*◌, ◌/◌, ◌%◌, ◌^◌, ◌≤◌, ◌<◌, String, ◌≡◌, refl, sym, ap, ◌∙◌, ◌≢◌, ◌↔◌,
  ◌⊎◌, inl, inr, Bool, true, false, not, ◌&&◌, ◌||◌, Option, none, some, List, [], ◌∷◌, ◌++◌, map,
  foldl, arith, str_eq, eq_iff, eq_refl, ltb, leb, ◌==◌, if◌then◌else◌, ltb→lt, lt→ltb, leb→le,
  ==_iff, tests, Bool-cases, Option-cases, length, take, length-append, length-take-le, u64_mod,
  add64, sub64, mul64, add64-eq-add, sub64-eq-sub, add64-lt, word_laws, Result, ok, err, ◌>>=◌,
  ◌>>◌, fail_if, or_fail, map_err, Result-cases, Bytes, codes, has_prefix, decimal, decimal_string,
  str_append,
}
use shiva_blockchain.Base.Int.{ℤ}
use shiva_blockchain.Assoc.{Assoc}

pub record Transaction : Type 0 where
  pub from : String
  pub to : String
  pub amount : ℕ
  pub fee : ℕ
  pub nonce : ℕ
  pub signature : String

pub record BlockHeader : Type 0 where
  pub index : ℕ
  pub timestamp : ℤ
  pub previous_hash : String
  pub state_root : String
  pub difficulty : ℕ
  pub miner : String
  pub nonce : ℕ

pub record Block : Type 0 where
  pub header : BlockHeader
  pub transactions : List Transaction
  pub hash : String

pub record AccountState : Type 0 where
  pub balance : ℕ
  pub nonce : ℕ

-- The zero value, which a missing key of the state reads as.
abbrev pub zero_account : AccountState
zero_account = record { balance = 0; nonce = 0 }

abbrev pub ChainState : Type 0
ChainState = Assoc AccountState

pub record GenesisConfig : Type 0 where
  pub chain_id : String
  pub network_id : ℕ
  pub difficulty : ℕ
  pub alloc : Assoc ℕ
  pub reward : ℕ

-- One digit of `encoding/hex`.
hex_value : ℕ → Option ℕ
hex_value c =
    if leb b'0' c && leb c b'9'
    then some (c - b'0')
    else if leb b'a' c && leb c b'f'
    then some (c - b'a' + 10)
    else if leb b'A' c && leb c b'F'
    then some (c - b'A' + 10)
    else none

join_hex : Option ℕ → Option ℕ → Option Bytes → Option Bytes
join_hex (some a) (some b) (some rest) = some ((a * 16 + b) ∷ rest)
join_hex (some a) (some b) none = none
join_hex (some a) none rest = none
join_hex none b rest = none

-- `hex.DecodeString`; `none` is its error.
unfoldable pub hex_decode : Bytes → Option Bytes
unfolding hex_value join_hex
hex_decode [] = some []
hex_decode (a ∷ []) = none
hex_decode (a ∷ b ∷ rest) = join_hex (hex_value a) (hex_value b) (hex_decode rest)

-- One digit of `hex.EncodeToString`.
unfoldable pub hex_digit : ℕ → String
hex_digit n =
    if n == 10
    then "a"
    else if n == 11
    then "b"
    else if n == 12
    then "c"
    else if n == 13
    then "d"
    else if n == 14
    then "e"
    else if n == 15
    then "f"
    else decimal_string n

-- `hex.EncodeToString`
unfoldable pub hex_encode : Bytes → String
unfolding hex_digit
hex_encode [] = ""
hex_encode (b ∷ rest) =
    str_append (hex_digit (b / 16)) (str_append (hex_digit (b % 16)) (hex_encode rest))

-- `Address.Valid`; `len` counts bytes.
unfoldable pub address_valid : String → Bool
unfolding hex_decode
address_valid a =
    if length (codes a) == 64
    then elim (hex_decode (codes a)) [ none ↦ false | some _ ↦ length (codes a) == 64 ]
    else false

abbrev pub genesis_tx : String × ℕ → Transaction
genesis_tx (addr, bal) = record {
  from = "";
  to = addr;
  amount = bal;
  fee = 0;
  nonce = 0;
  signature = "";
}

unfoldable pub genesis_txs : Assoc ℕ → List Transaction
genesis_txs [] = []
genesis_txs (e ∷ alloc) = genesis_tx e ∷ genesis_txs alloc

-- `NewGenesisBlock`, at the time `now`.
unfoldable pub new_genesis_block : Assoc ℕ → ℕ → ℤ → Block
new_genesis_block alloc difficulty now = record {
  header = record {
    index = 0;
    timestamp = now;
    previous_hash = "0";
    state_root = "";
    difficulty = difficulty;
    miner = "";
    nonce = 0;
  };
  transactions = genesis_txs alloc;
  hash = "";
}
