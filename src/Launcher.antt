-- ===== src/Launcher.antt =====
-- bsc-launcher/server/store.go: the tokens of the launcher, and mergeFlashCoinToken of
-- fix_pending.go.
pub mod Tokens
pub mod Registry
pub mod Listings
use shiva_blockchain.Base.{
  ℕ, zero, suc, ◌+◌, ◌-◌, ◌*◌, ◌/◌, ◌%◌, ◌^◌, ◌≤◌, ◌<◌, String, ◌≡◌, refl, sym, ap, ◌∙◌, ◌≢◌, ◌↔◌,
  ◌⊎◌, inl, inr, Bool, true, false, not, ◌&&◌, ◌||◌, Option, none, some, List, [], ◌∷◌, ◌++◌, map,
  foldl, arith, str_eq, eq_iff, eq_refl, ltb, leb, ◌==◌, if◌then◌else◌, ltb→lt, lt→ltb, leb→le,
  ==_iff, tests, Bool-cases, Option-cases, length, take, length-append, length-take-le, u64_mod,
  add64, sub64, mul64, add64-eq-add, sub64-eq-sub, add64-lt, word_laws, Result, ok, err, ◌>>=◌,
  ◌>>◌, fail_if, or_fail, map_err, Result-cases, Bytes, codes, has_prefix, decimal, decimal_string,
  str_append,
}
use shiva_blockchain.Base.Int.{ℤ, pos, negsuc}
use shiva_blockchain.Strings.{trim_space, to_lower}
use shiva_blockchain.Amm.Pool.{equal_fold}

pub record TokenRecord : Type 0 where
  pub contract_address : String
  pub name : String
  pub symbol : String
  pub decimals : ℤ
  pub supply : String
  pub tx_hash : String
  pub creator : String
  pub deploy_method : String
  pub chain_id : ℤ
  pub chain_slug : String
  pub chain_name : String
  pub explorer : String
  pub created_at : ℤ

-- "tokens.json", as it is found.
pub data TokenFile : Type 0 where
  absent broken : TokenFile
  listing : List TokenRecord → TokenFile

-- How a write of the file ends; where it fails it may leave any file.
pub data Writing : Type 0 where
  done : Writing
  stopped : TokenFile → Writing

pub data StoreError : Type 0 where
  load_failed save_failed token_not_found : StoreError
  already_registered : String → StoreError

-- `Load`
unfoldable pub load_tokens : TokenFile → Result StoreError (List TokenRecord)
load_tokens absent = ok []
load_tokens broken = err load_failed
load_tokens (listing l) = ok l

-- `Save`
unfoldable pub save_tokens : Writing → List TokenRecord → Result StoreError (Unit {0}) × TokenFile
save_tokens done l = (ok tt, listing l)
save_tokens (stopped f) l = (err save_failed, f)

unfoldable pub has_address : String → List TokenRecord → Bool
has_address addr [] = false
has_address addr (t ∷ l) = equal_fold t.contract_address addr || has_address addr l

-- `if rec.CreatedAt == 0 { rec.CreatedAt = t }`
unfoldable pub dated : ℤ → TokenRecord → TokenRecord
dated t rec = elim rec.created_at [
  | ℤ.pos n ↦ if n == 0 then record rec { created_at = t } else rec
  | ℤ.negsuc n ↦ rec
]

abbrev lowered : TokenRecord → TokenRecord
lowered rec = record rec { contract_address = to_lower rec.contract_address }

-- `Add`
unfoldable pub add_token :
    Writing → ℤ → TokenRecord → TokenFile → Result StoreError (Unit {0}) × TokenFile
add_token w now given file =
    let rec = lowered given in
    elim (load_tokens file) [
      | err e ↦ (err e, file)
      | ok l ↦
          if has_address rec.contract_address l
          then (err (already_registered rec.contract_address), file)
          else save_tokens w (l ++ (dated now rec ∷ []))
    ]

unfoldable pub find_address : String → List TokenRecord → Option TokenRecord
find_address addr [] = none
find_address addr (t ∷ l) =
    if equal_fold t.contract_address addr then some t else find_address addr l

-- `Find`
unfoldable pub find_token : String → TokenFile → Result StoreError TokenRecord
find_token address file =
    load_tokens file >>= λ l. or_fail (find_address (to_lower address) l) token_not_found

-- The list after `Upsert`: the first record of the address is replaced, or the record is added.
unfoldable pub upserted : ℤ → TokenRecord → List TokenRecord → List TokenRecord
upserted now rec [] = dated now rec ∷ []
upserted now rec (t ∷ l) =
    let rest = upserted now rec l in
    if equal_fold t.contract_address rec.contract_address
    then dated t.created_at rec ∷ l
    else t ∷ rest

-- `Upsert`
unfoldable pub upsert_token :
    Writing → ℤ → TokenRecord → TokenFile → Result StoreError (Unit {0}) × TokenFile
upsert_token w now given file = elim (load_tokens file) [
  | err e ↦ (err e, file)
  | ok l ↦ save_tokens w (upserted now (lowered given) l)
]

-- The book of the mirrored coin, as far as it is read here.
pub record MirrorBook : Type 0 where
  pub canonical_address : String
  pub first_deployment : Option String
  pub name : String
  pub symbol : String
  pub decimals : ℤ
  pub wrap_amount_per_chain : String

unfoldable pub coin_address : MirrorBook → String
coin_address book =
    let addr = trim_space book.canonical_address in
    if str_eq addr "" then elim book.first_deployment [ none ↦ "" | some a ↦ a ] else addr

unfoldable pub coin_record : String → ℤ → MirrorBook → TokenRecord
coin_record creator now book = record {
  contract_address = coin_address book;
  name = book.name;
  symbol = book.symbol;
  decimals = elim book.decimals [
    | ℤ.pos n ↦ if n == 0 then ℤ.pos 8 else ℤ.pos n
    | ℤ.negsuc n ↦ ℤ.negsuc n
  ];
  supply =
      if str_eq book.wrap_amount_per_chain "" then "1000000000" else book.wrap_amount_per_chain;
  tx_hash = "";
  creator = creator;
  deploy_method = "mirror";
  chain_id = ℤ.pos 56;
  chain_slug = "bsc";
  chain_name = "BNB Chain";
  explorer = "https://bscscan.com";
  created_at = now;
}

-- `mergeFlashCoinToken`
unfoldable pub merge_flash_coin_token : ℤ → MirrorBook → List TokenRecord → List TokenRecord
unfolding coin_address coin_record
merge_flash_coin_token now book l =
    let addr = coin_address book in
    if str_eq addr "" || has_address addr l then l else l ++ (coin_record "" now book ∷ [])

-- `registerFlashCoinToken`
unfoldable pub register_flash_coin_token :
    Writing → ℤ → String → MirrorBook → TokenFile → Result StoreError String × TokenFile
unfolding upsert_token
register_flash_coin_token w now deployer book file =
    let (r, file') = upsert_token w now (coin_record deployer (ℤ.pos 0) book) file in
    if str_eq (coin_address book) ""
    then (ok "", file)
    else (r >>= λ _. ok (coin_address book), file')
