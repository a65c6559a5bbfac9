-- ===== src/Ledger.antt =====
-- internal/ledger: the data of the unified ledger (types.go, and the records of book.go). A number of
-- type float64 has the type `F` here, see Ledger/Float.antt.
pub mod Float
pub mod Convert
pub mod External
pub mod Destination
pub mod Store
pub mod Request
pub mod Transfer
pub mod Active
pub mod Moves
pub mod Payments
pub mod Syncing
pub mod Invariant
pub mod Runs
pub mod Choice
pub mod Reading
pub mod Engine
pub mod Production
use shiva_blockchain.Base.{
  ℕ, zero, suc, ◌+◌, ◌-◌, ◌*◌, ◌/◌, ◌%◌, ◌^◌, ◌≤◌, ◌<◌, String, ◌≡◌, refl, sym, ap, ◌∙◌, ◌≢◌, ◌↔◌,
  ◌⊎◌, inl, inr, Bool, true, false, not, ◌&&◌, ◌||◌, Option, none, some, List, [], ◌∷◌, ◌++◌, map,
  foldl, arith, str_eq, eq_iff, eq_refl, ltb, leb, ◌==◌, if◌then◌else◌, ltb→lt, lt→ltb, leb→le,
  ==_iff, tests, Bool-cases, Option-cases, length, take, length-append, length-take-le, u64_mod,
  add64, sub64, mul64, add64-eq-add, sub64-eq-sub, add64-lt, word_laws, Result, ok, err, ◌>>=◌,
  ◌>>◌, fail_if, or_fail, map_err, Result-cases, Bytes, codes, has_prefix, decimal, decimal_string,
  str_append,
}
use shiva_blockchain.Base.Int.{ℤ}
use shiva_blockchain.Assoc.{Assoc}

pub record Entry (F : Type 0) : Type 0 where
  pub id : String
  pub source : String
  pub mode : String
  pub chain_id : String
  pub asset : String
  pub token_key : String
  pub atomic : String
  pub human : String
  pub fiat_currency : String
  pub fiat_value : F
  pub fiat_usd : F
  pub account : String
  pub timestamp : ℤ
  pub reference : String

pub record Snapshot (F : Type 0) : Type 0 where
  pub at : ℤ
  pub mode : String
  pub entries : List (Entry F)
  pub total_usd : F
  pub by_source : Assoc F
  pub by_fiat : Assoc F

pub record ConvertRequest : Type 0 where
  pub from_asset : String
  pub to_asset : String
  pub amount : String
  pub fiat_currency : String
  pub from_account : String

pub record ConvertResult (F : Type 0) : Type 0 where
  pub from_asset : String
  pub to_asset : String
  pub from_amount : String
  pub to_amount : String
  pub rate : F
  pub fiat_currency : String
  pub fiat_value : F
  pub fiat_usd : F
  pub mode : String
  pub from_account : String
  pub to_account : String
  pub status : String
  pub transfer_id : String

pub record BookAccount : Type 0 where
  pub id : String
  pub source : String
  pub mode : String
  pub asset : String
  pub token_key : String
  pub chain_id : String
  pub balance : String
  pub account : String
  pub updated_at : ℤ

pub record TransferRecord : Type 0 where
  pub id : String
  pub from_account : String
  pub to_account : String
  pub asset : String
  pub amount : String
  pub to_amount : String
  pub convert_to : String
  pub status : String
  pub tx_ref : String
  pub note : String
  pub created_at : ℤ

pub record Book : Type 0 where
  pub accounts : Assoc BookAccount
  pub transfers : List TransferRecord

-- The errors of the package; `from_file` and `from_settlement` stand for those of the calls.
pub data LedgerError : Type 0 where
  assets_required invalid_amount insufficient_balance destination_required : LedgerError
  to_asset_required same_asset from_file from_settlement : LedgerError
  account_not_found no_price no_account : String → LedgerError
