-- ===== src/Ledger/Destination.antt =====
-- internal/ledger/external.go and externalAccountID of book.go: how the text of an outside
-- destination is read.
use shiva_blockchain.Base.{
  String, Bool, not, ◌&&◌, ◌||◌, Option, none, some, List, [], ◌∷◌, str_eq, ltb, if◌then◌else◌,
  Result, ok, err, ◌>>=◌, str_append,
}
use shiva_blockchain.Legacy.{split_colon}
use shiva_blockchain.Strings.{
  trim_space, to_lower, to_upper, starts, remove_char, split, join, drop_chars, len, contains,
}
use shiva_blockchain.Ledger.External.{
  ExternalKind, bank, onex, evm, solana, bitcoin, tron, destination_missing, invalid_onex,
  use_chain_format, unrecognized_format, chain_address_required, invalid_solana, invalid_bitcoin,
  invalid_tron, use_bank_format, bank_account_required, invalid_evm, ExternalDestination,
  ExternalError, is_evm_addr, short_addr, is_sol_addr, alias, is_btc_addr, chain_names,
  is_tron_addr, is_iban,
}
use shiva_blockchain.Assoc.{get_or}

-- `externalAccountIDFromDest`
unfoldable pub external_account_id_from_dest : ExternalKind → String → String → String → String
external_account_id_from_dest kind chain_id rail address =
    let addr = to_lower (trim_space address) in
    elim kind [
      | onex ↦ str_append "external:onex:" addr
      | bank ↦
          if str_eq rail ""
          then str_append "external:bank:" addr
          else str_append "external:bank:" (str_append (to_lower rail) (str_append ":" addr))
      | solana ↦ str_append "external:chain:solana:" addr
      | bitcoin ↦ str_append "external:chain:bitcoin:" addr
      | tron ↦ str_append "external:chain:tron:" addr
      | evm ↦
          str_append "external:chain:"
            (str_append (if str_eq chain_id "" then "ethereum" else chain_id) (str_append ":" addr))
    ]

-- The switch over the chain: the kind, and the address as it is kept.
unfoldable pub chain_address : String → String → Result ExternalError (ExternalKind × String)
chain_address chain_id address =
    if str_eq chain_id "onex-mainnet-1" || str_eq chain_id "onex-testnet-1"
    then ok (onex, address)
    else if str_eq chain_id "solana"
    then (if is_sol_addr address then ok (solana, address) else err invalid_solana)
    else if str_eq chain_id "bitcoin"
    then (if is_btc_addr address then ok (bitcoin, address) else err invalid_bitcoin)
    else if str_eq chain_id "tron"
    then (if is_tron_addr address then ok (tron, address) else err invalid_tron)
    else if is_evm_addr address
    then ok (evm, to_lower address)
    else err (invalid_evm chain_id)

unfoldable pub chain_destination : String → ExternalKind → String → ExternalDestination
chain_destination chain_id kind address = record {
  kind = kind;
  chain_id = chain_id;
  bank_rail = "";
  bank_name = "";
  address = address;
  label = str_append (get_or chain_id chain_id chain_names) (str_append " " (short_addr address));
  account_id = external_account_id_from_dest kind chain_id "" address;
}

-- `parseChainExternal`
unfoldable pub parse_chain_external : String → String → Result ExternalError ExternalDestination
unfolding chain_destination
parse_chain_external chain address_text =
    let named = to_lower (trim_space chain) in
    let chain_id : String = elim (alias named) [ none ↦ named | some id ↦ id ] in
    let address = trim_space address_text in
    if str_eq address ""
    then err chain_address_required
    else chain_address chain_id address >>= λ found. ok (chain_destination chain_id found.0 found.1)

-- `isBankRail`
unfoldable pub is_bank_rail : String → Bool
is_bank_rail text =
    let s = to_lower (trim_space text) in
    str_eq s "ach"
    || str_eq s "sepa"
    || str_eq s "swift"
    || str_eq s "wire"
    || str_eq s "iban"
    || str_eq s "fps"

unfoldable pub bank_destination :
    String → String → String → Result ExternalError ExternalDestination
bank_destination bank_name rail text =
    let trimmed = trim_space text in
    let account = to_upper (remove_char b' ' trimmed) in
    let short = str_append rail (str_append " " (short_addr account)) in
    if str_eq trimmed ""
    then err bank_account_required
    else ok (record {
      kind = bank;
      chain_id = "";
      bank_rail = rail;
      bank_name = bank_name;
      address = account;
      label = if str_eq bank_name "" then short else str_append bank_name (str_append " " short);
      account_id = external_account_id_from_dest bank "" rail account;
    })

-- The switch over the parts of a bank's destination after "bank".
unfoldable pub bank_parts : List String → Result ExternalError ExternalDestination
unfolding bank_destination
bank_parts [] = err use_bank_format
bank_parts (a ∷ []) = err use_bank_format
bank_parts (a ∷ b ∷ []) =
    if is_bank_rail a then bank_destination "" (to_lower a) b else bank_destination a "swift" b
bank_parts (a ∷ b ∷ x ∷ l) =
    if is_bank_rail b
    then bank_destination a (to_lower b) (join ":" (x ∷ l))
    else if is_bank_rail a
    then bank_destination "" (to_lower a) (join ":" (b ∷ x ∷ l))
    else bank_destination a "swift" (join ":" (b ∷ x ∷ l))

-- `parseBankExternal`
unfoldable pub parse_bank_external : String → Result ExternalError ExternalDestination
unfolding bank_parts
parse_bank_external raw = elim (split b':' raw) [ [] ↦ err use_bank_format | p ∷ l ↦ bank_parts l ]

unfoldable pub parse_onex : String → Result ExternalError ExternalDestination
parse_onex text =
    let addr = trim_space text in
    if ltb (len addr) 32
    then err invalid_onex
    else ok (record {
      kind = onex;
      chain_id = "onex-mainnet-1";
      bank_rail = "";
      bank_name = "";
      address = addr;
      label = str_append "OneX " (short_addr addr);
      account_id = external_account_id_from_dest onex "onex-mainnet-1" "" addr;
    })

-- `chain:<chainId>:<address>`
unfoldable pub parse_chain_form : String → Result ExternalError ExternalDestination
parse_chain_form rest = elim (split_colon rest) [
  | none ↦ err use_chain_format
  | some (chain, address) ↦ parse_chain_external chain address
]

-- An address without a prefix.
unfoldable pub parse_bare : String → Result ExternalError ExternalDestination
parse_bare raw =
    let iban = to_upper (remove_char b' ' raw) in
    if is_evm_addr raw
    then parse_chain_external "ethereum" raw
    else if is_btc_addr raw
    then parse_chain_external "bitcoin" raw
    else if is_tron_addr raw
    then parse_chain_external "tron" raw
    else if is_sol_addr raw && not (starts (to_lower raw) "0x")
    then parse_chain_external "solana" raw
    else if is_iban iban
    then parse_bank_external (str_append "bank:iban:" iban)
    else err unrecognized_format

-- `chainId:address`, and what falls through to an address without a prefix.
unfoldable pub parse_pair : String → Result ExternalError ExternalDestination
parse_pair raw = elim (split_colon raw) [
  | none ↦ parse_bare raw
  | some (chain, address) ↦
      let chain_key = to_lower (trim_space chain) in
      elim (alias chain_key) [
        | some id ↦ parse_chain_external id address
        | none ↦ if str_eq chain_key "bank" then parse_bank_external raw else parse_bare raw
      ]
]

-- `ParseExternalDestination`
unfoldable pub parse_external_destination : String → Result ExternalError ExternalDestination
unfolding parse_onex parse_chain_form parse_bare parse_pair
parse_external_destination text =
    let raw = trim_space text in
    let lower = to_lower raw in
    if str_eq raw ""
    then err destination_missing
    else if starts lower "bank:"
    then parse_bank_external raw
    else if starts lower "onex:"
    then parse_onex (drop_chars 5 raw)
    else if starts lower "chain:"
    then parse_chain_form (drop_chars 6 raw)
    else parse_pair raw

unfoldable pub unprefixed_id : String → String → String
unprefixed_id external asset =
    if starts (to_lower external) "0x"
    then str_append "external:crypto:" (to_lower external)
    else if ltb 10 (len external) && contains external "US"
    then str_append "external:bank:" external
    else str_append "external:acct:" (str_append asset (str_append ":" external))

-- `externalAccountID`
unfoldable pub external_account_id : String → String → String
unfolding unprefixed_id
external_account_id text asset =
    let external = trim_space text in
    if str_eq external "" then "" else elim (split_colon external) [
      | none ↦ unprefixed_id external asset
      | some (head, tail) ↦
          let kind = to_lower head in
          if str_eq kind "onex" || str_eq kind "bank" || str_eq kind "crypto" || str_eq kind "evm"
          then str_append "external:" (str_append kind (str_append ":" (trim_space tail)))
          else unprefixed_id external asset
    ]

-- `ExternalTo`
unfoldable pub external_to : String → String → String × Option ExternalDestination
external_to raw asset = elim (parse_external_destination raw) [
  | err e ↦ (external_account_id raw asset, none)
  | ok dest ↦ (dest.account_id, some dest)
]
