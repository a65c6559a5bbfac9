-- ===== src/Ledger/Store.antt =====
-- internal/ledger/book.go: the store of accounts and its transfers. The book in the file is what
-- `json.Unmarshal` makes of it; accounts in a file are not null.
use shiva_blockchain.Base.{
  ℕ, String, Bool, false, not, ◌&&◌, ◌||◌, none, some, List, [], ◌∷◌, str_eq, ltb, ◌==◌,
  if◌then◌else◌, length, take, Result, ok, err, ◌>>=◌, or_fail, str_append,
}
use shiva_blockchain.Base.Int.{ℤ}
use shiva_blockchain.Strings.{trim_space, to_upper}
use shiva_blockchain.Ledger.Convert.{parse_human, nought, atomic_to_human_str, decimals_for_symbol}
use shiva_blockchain.Ledger.{
  LedgerError, TransferRecord, Book, BookAccount, from_file, account_not_found, no_account,
  Snapshot, Entry,
}
use shiva_blockchain.Ledger.Float.{Float64}
use shiva_blockchain.Assoc.{lookup, values, Assoc, insert}

-- "ledger-book.json", as it is found.
pub data BookFile : Type 0 where
  missing unreadable malformed : BookFile
  holds : Book → BookFile

pub record BookStore : Type 0 where
  pub file : BookFile
  pub book : Book

-- How a call of `save` ends; a write that fails may leave any file.
pub data Saving : Type 0 where
  written : Saving
  failed : BookFile → Saving

abbrev pub empty_book : Book
empty_book = record { accounts = []; transfers = [] }

-- `load`, from the accounts in memory and the file.
unfoldable pub load_book :
    Assoc BookAccount → BookFile → BookStore → Result LedgerError (Unit {0}) × BookStore
load_book (_ ∷ _) file s = (ok tt, s)
load_book [] missing s = (ok tt, record s { book = empty_book })
load_book [] unreadable s = (err from_file, s)
load_book [] malformed s = (err from_file, s)
load_book [] (holds b) s = (ok tt, record s { book = b })

unfoldable pub load : BookStore → Result LedgerError (Unit {0}) × BookStore
unfolding load_book
load s = load_book s.book.accounts s.file s

-- `save`
unfoldable pub save : Saving → BookStore → Result LedgerError (Unit {0}) × BookStore
save written s = (ok tt, record s { file = holds s.book })
save (failed f) s = (err from_file, record s { file = f })

-- A method that starts with `if err := s.load(); err != nil { return err }`.
abbrev pub after_load :
    {A : Type 0}
    → (BookStore → Result LedgerError A × BookStore)
    → BookStore
    → Result LedgerError A × BookStore
after_load body s =
    let (r, loaded) = load s in elim r [ ok _ ↦ body loaded | err e ↦ (err e, loaded) ]

module _ {F : Type 0} (d : Float64 F) where
  open d use {less, at_most}

  -- The balance that an entry reports.
  unfoldable pub reported : Entry F → String
  reported e =
      let shown = trim_space e.human in
      if str_eq shown "" && not (str_eq e.atomic "")
      then atomic_to_human_str e.atomic (decimals_for_symbol e.asset)
      else shown

  unfoldable pub entry_account : ℤ → Entry F → BookAccount
  entry_account now e = record {
    id = e.id;
    source = e.source;
    mode = e.mode;
    asset = to_upper e.asset;
    token_key = e.token_key;
    chain_id = e.chain_id;
    balance = reported e;
    account = e.account;
    updated_at = now;
  }

  -- `ok && parseHuman(existing.Balance) > parseHuman(bal)`
  unfoldable pub holds_more : String → String → Assoc BookAccount → Bool
  holds_more id bal accounts = elim (lookup id accounts) [
    | none ↦ false
    | some old ↦ less (parse_human d bal) (parse_human d old.balance)
  ]

  -- One round of the loop of `SyncFromSnapshot`.
  unfoldable pub sync_entry : ℤ → Entry F → Assoc BookAccount → Assoc BookAccount
  sync_entry now e accounts =
      if str_eq e.id "" || str_eq (reported e) ""
      then accounts
      else if holds_more e.id (reported e) accounts
      then accounts
      else insert e.id (entry_account now e) accounts

  unfoldable pub sync_entries : ℤ → List (Entry F) → Assoc BookAccount → Assoc BookAccount
  sync_entries now [] accounts = accounts
  sync_entries now (e ∷ l) accounts = sync_entries now l (sync_entry now e accounts)

  unfoldable pub sync_loaded :
      Saving → ℤ → Snapshot F → BookStore → Result LedgerError (Unit {0}) × BookStore
  sync_loaded w now snap s = save w (record s {
    book = record s.book { accounts = sync_entries now snap.entries s.book.accounts };
  })

  -- `SyncFromSnapshot`
  unfoldable pub sync_from_snapshot :
      Saving → ℤ → Snapshot F → BookStore → Result LedgerError (Unit {0}) × BookStore
  unfolding sync_loaded
  sync_from_snapshot w now snap = after_load (sync_loaded w now snap)

  unfoldable pub with_balance : List BookAccount → List BookAccount
  with_balance [] = []
  with_balance (a ∷ l) =
      let rest = with_balance l in
      if at_most (parse_human d a.balance) (nought d) then rest else a ∷ rest

  -- `ListAccounts`; the order is that of the map here.
  unfoldable pub list_accounts : BookStore → Result LedgerError (List BookAccount) × BookStore
  unfolding with_balance
  list_accounts = after_load λ s. (ok (with_balance (values s.book.accounts)), s)

  -- One round of the loop of `pickAccount`, with the best so far.
  unfoldable pub better_of : String → BookAccount → String × F → String × F
  better_of asset a best =
      if str_eq (to_upper a.asset) asset && less best.1 (parse_human d a.balance)
      then (a.id, parse_human d a.balance)
      else best

  unfoldable pub best_account : String → List BookAccount → String × F → String × F
  unfolding better_of
  best_account asset [] best = best
  best_account asset (a ∷ l) best = best_account asset l (better_of asset a best)

  -- `pickAccount`
  unfoldable pub pick_account : String → BookStore → Result LedgerError String × BookStore
  pick_account asset_text s =
      let asset = to_upper (trim_space asset_text) in
      let (listed, loaded) = list_accounts s in
      (
        (listed >>= λ accounts.
            (let best = (best_account asset accounts ("", nought d)).0 in
              if str_eq best "" then err (no_account asset) else ok best)),
        loaded,
      )

-- `ListTransfers`; a limit that is not positive is 0 here.
unfoldable pub list_transfers : ℕ → BookStore → List TransferRecord × BookStore
list_transfers limit s =
    let (r, loaded) = load s in
    let all = length loaded.book.transfers in
    let wanted = if limit == 0 || ltb all limit then all else limit in
    elim r [
      | err e ↦ ([], loaded)
      | ok _ ↦ (take (if ltb 50 wanted then 50 else wanted) loaded.book.transfers, loaded)
    ]

-- `GetAccount`, which returns a copy.
unfoldable pub get_account : String → BookStore → Result LedgerError BookAccount × BookStore
get_account id = after_load λ s. (or_fail (lookup id s.book.accounts) (account_not_found id), s)

-- `bookVaultID`
unfoldable pub book_vault_id : String → String
book_vault_id asset = str_append "book:" (to_upper (trim_space asset))
