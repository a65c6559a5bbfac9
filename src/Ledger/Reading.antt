-- ===== src/Ledger/Reading.antt =====
-- How internal/ledger makes entries: bank.go and universal.go from what `json.Unmarshal` gives, and
-- `Read` of engine.go. The entries that banks and other chains report are given.
use shiva_blockchain.Base.{
  ℕ, ◌+◌, String, ◌&&◌, ◌||◌, Option, none, some, List, [], ◌∷◌, str_eq, if◌then◌else◌,
  decimal_string, str_append,
}
use shiva_blockchain.Base.Int.{ℤ}
use shiva_blockchain.Legacy.{split_colon}
use shiva_blockchain.Strings.{trim_space, to_lower, to_upper}
use shiva_blockchain.Ledger.Float.{Float64}
use shiva_blockchain.Ledger.Convert.{is_fiat, nought, format_float}
use shiva_blockchain.Assoc.{Assoc, lookup}
use shiva_blockchain.Ledger.{Entry}

pub record BankAccount : Type 0 where
  pub id : String
  pub iban : String
  pub name : String
  pub currency : String
  pub balance : String

pub record ImportRow : Type 0 where
  pub source : String
  pub asset : String
  pub amount : String
  pub currency : String
  pub account : String
  pub reference : String

pub record TokenMeta : Type 0 where
  pub chain_id : String
  pub token_id : String
  pub symbol : String

-- A value in a row: a text, a number, or something else.
pub data Cell (F : Type 0) : Type 0 where
  text : String → Cell F
  number : F → Cell F
  other : Cell F

abbrev or_else : String → String → String
or_else s t = if str_eq s "" then t else s

-- The name and the IBAN of a bank account, as one text.
unfoldable pub account_label : BankAccount → String
account_label acct =
    if str_eq acct.iban ""
    then acct.name
    else if str_eq acct.name ""
    then acct.iban
    else str_append acct.name (str_append " · " acct.iban)

-- `splitTokenKey`
unfoldable pub split_token_key : String → String × String
split_token_key key = elim (split_colon key) [ none ↦ ("", key) | some parts ↦ parts ]

-- The symbol of a key of the portfolio: that of the token, or the identifier.
unfoldable pub symbol_of : List TokenMeta → String → String → String
symbol_of [] chain_id token_id = token_id
symbol_of (t ∷ l) chain_id token_id =
    if str_eq t.chain_id chain_id && str_eq t.token_id token_id
    then t.symbol
    else symbol_of l chain_id token_id

module _ {F : Type 0} (d : Float64 F) where
  abbrev blank_entry : Entry F
  blank_entry = record {
    id = "";
    source = "";
    mode = "";
    chain_id = "";
    asset = "";
    token_key = "";
    atomic = "";
    human = "";
    fiat_currency = "";
    fiat_value = nought d;
    fiat_usd = nought d;
    account = "";
    timestamp = ℤ.pos 0;
    reference = "";
  }

  unfoldable pub bank_entry : ℤ → ℕ → BankAccount → Entry F
  unfolding account_label
  bank_entry now i acct =
      let cur = or_else (to_upper (trim_space acct.currency)) "USD" in
      record blank_entry {
        id = or_else acct.id (str_append "bank-" (decimal_string i));
        source = "bank";
        mode = "bank";
        asset = cur;
        token_key = str_append "fiat:" cur;
        human = trim_space acct.balance;
        fiat_currency = cur;
        account = account_label acct;
        timestamp = now;
        reference = "bank-balance";
      }

  -- `parseBankJSON`, from the accounts of the file.
  unfoldable pub bank_entries : ℤ → ℕ → List BankAccount → List (Entry F)
  unfolding bank_entry
  bank_entries now i [] = []
  bank_entries now i (acct ∷ l) =
      let rest = bank_entries now (i + 1) l in
      if str_eq (trim_space acct.balance) "" then rest else bank_entry now i acct ∷ rest

  unfoldable pub import_entry : ℤ → ℕ → ImportRow → Entry F
  import_entry now i row =
      let asset = to_upper (trim_space row.asset) in
      record blank_entry {
        id = str_append "import-" (decimal_string i);
        source = if str_eq row.source "" then "import" else to_lower row.source;
        mode = if is_fiat d asset then "fiat" else "real";
        asset = asset;
        token_key = asset;
        human = trim_space row.amount;
        fiat_currency =
            or_else (to_upper (trim_space row.currency)) (if is_fiat d asset then asset else "USD");
        account = row.account;
        reference = row.reference;
        timestamp = now;
      }

  -- `parseImportFile`, from the rows of the file.
  unfoldable pub import_entries : ℤ → ℕ → List ImportRow → List (Entry F)
  unfolding import_entry
  import_entries now i [] = []
  import_entries now i (row ∷ l) =
      let rest = import_entries now (i + 1) l in
      if str_eq (to_upper (trim_space row.asset)) "" then rest else import_entry now i row ∷ rest

  -- `modeForAsset`
  unfoldable pub mode_for_asset : String → String
  mode_for_asset asset = if is_fiat d asset then "fiat" else "real"

  -- `mapToEntries`; only entries that are kept are counted.
  unfoldable pub map_to_entries : String → ℕ → Assoc String → List (Entry F)
  map_to_entries src i [] = []
  map_to_entries src i ((key, value) ∷ l) =
      let asset = to_upper (trim_space key) in
      let amt = trim_space value in
      let skipped = str_eq asset "" || str_eq amt "" || str_eq amt "0" in
      let rest = map_to_entries src (if skipped then i else i + 1) l in
      let tag = str_append (str_append "map-" asset) (str_append "-" (decimal_string i)) in
      if skipped
      then rest
      else record blank_entry {
        id = tag;
        source = src;
        mode = mode_for_asset asset;
        asset = asset;
        human = amt;
      }
        ∷ rest

  -- `pickString`: the first of the keys that has a text or a number.
  unfoldable pub pick_string : List String → Assoc (Cell F) → String
  pick_string [] row = ""
  pick_string (k ∷ ks) row =
      let rest = pick_string ks row in
      elim (lookup k row) [
        | none ↦ rest
        | some c ↦ elim c [ text t ↦ trim_space t | number v ↦ format_float d v | other ↦ rest ]
      ]

  -- The loop of `parseRowArray`.
  unfoldable pub row_entries : ℕ → List (Assoc (Cell F)) → List (Entry F)
  row_entries i [] = []
  row_entries i (row ∷ l) =
      let rest = row_entries (i + 1) l in
      let asset = pick_string ("asset" ∷ "symbol" ∷ "currency" ∷ "token" ∷ []) row in
      let amt = pick_string ("amount" ∷ "balance" ∷ "value" ∷ "quantity" ∷ []) row in
      if str_eq asset "" || str_eq amt ""
      then rest
      else record blank_entry {
        id = str_append "row-" (decimal_string i);
        source = "import";
        mode = mode_for_asset asset;
        asset = to_upper asset;
        human = amt;
        account = pick_string ("account" ∷ "address" ∷ "wallet" ∷ "name" ∷ []) row;
      }
        ∷ rest

  -- What the four readers make of a file, none where they fail.
  pub record Readings : Type 0 where
    pub rows : Option (List ImportRow)
    pub accounts : Option (List BankAccount)
    pub balances : Option (Assoc String)
    pub cells : Option (List (Assoc (Cell F)))

  -- A reader that gives no entry is passed over.
  unfoldable pub first_entries : List (Option (List (Entry F))) → Option (List (Entry F))
  first_entries [] = none
  first_entries (none ∷ l) = first_entries l
  first_entries (some [] ∷ l) = first_entries l
  first_entries (some (e ∷ es) ∷ l) = some (e ∷ es)

  abbrev over_some : {A B : Type 0} → (A → B) → Option A → Option B
  over_some f none = none
  over_some f (some a) = some (f a)

  -- `ParseAnyLedger`
  unfoldable pub parse_any_ledger : ℤ → Readings → Option (List (Entry F))
  unfolding first_entries
  parse_any_ledger now file = first_entries (
      over_some (import_entries now 0) file.rows
      ∷ over_some (bank_entries now 0) file.accounts
      ∷ over_some (map_to_entries "import" 0) file.balances
      ∷ over_some (row_entries 0) file.cells
      ∷ [])
