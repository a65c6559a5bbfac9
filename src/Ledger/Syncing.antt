-- ===== src/Ledger/Syncing.antt =====
-- SyncFromSnapshot of internal/ledger/book.go before and after transfers.
use shiva_blockchain.Base.{
  String, ◌≡◌, ap, ◌∙◌, ◌≢◌, false, not, ◌&&◌, Option, some, [], ◌∷◌, arith, str_eq, eq_iff,
  if◌then◌else◌, ok,
}
use shiva_blockchain.Base.Int.{ℤ}
use shiva_blockchain.Assoc.Laws.{lookup-insert}
use shiva_blockchain.Strings.{trim_space}
use shiva_blockchain.Ledger.Store.{
  BookStore, Saving, load, sync_entry, sync_entries, sync_from_snapshot, entry_account, holds_more,
  reported,
}
use shiva_blockchain.Ledger.Transfer.{transfer, Moment, Settle}
use shiva_blockchain.Ledger.Float.{Float64}
use shiva_blockchain.Ledger.{Entry, Snapshot, Book, BookAccount}
use shiva_blockchain.Assoc.{Assoc, lookup}
use shiva_blockchain.Ledger.Request.{TransferRequest}
use shiva_blockchain.Ledger.Moves.{save-book, load_held}
use shiva_blockchain.Ledger.Payments.{
  IsInternal, balance_at, IsCovered, transfer_pays, sender_after,
}
use shiva_blockchain.Ledger.Convert.{parse_human, format_float}

module _ {F : Type 0} (d : Float64 F) where
  open d use {plus, minus, less}

  pub accounts-sync_from_snapshot :
      (w : Saving) (now : ℤ) (snap : Snapshot F) (s : BookStore)
      → load s ≡ (ok tt, s)
      → (sync_from_snapshot d w now snap s).1.book.accounts
        ≡ sync_entries d now snap.entries s.book.accounts
  unfolding sync_from_snapshot
  accounts-sync_from_snapshot w now snap s held =
      let synced = record s {
        book = record s.book { accounts = sync_entries d now snap.entries s.book.accounts };
      } in
      ground (arith, held, ap (λ (b : Book). b.accounts) (save-book w synced))

  -- The balance of an account after its entry has been synchronised: the higher of both.
  pub balance-sync_entry :
      (now : ℤ) (e : Entry F) (accounts : Assoc BookAccount) (id : String)
      → str_eq e.id "" ≡ false
      → str_eq (reported d e) "" ≡ false
      → balance_at id (sync_entry d now e accounts) ≡ (
          if str_eq e.id id && not (holds_more d e.id (reported d e) accounts)
          then some (reported d e)
          else balance_at id accounts)
  unfolding sync_entry entry_account
  balance-sync_entry now e accounts id named shown =
      ground (arith, lookup-insert e.id id (entry_account d now e) accounts)

  module _ (w w' w'' : Saving) (moment : Moment) (later : ℤ) (settle : Option Settle)
      (prices : Assoc F) where
    -- A snapshot whose entry still reports the balance that an account had before it paid another
    -- account of the book gives the account that balance back, unless the book holds more by then;
    -- the receiver keeps what it was paid.
    pub sync_restores :
        (req : TransferRequest) (s : BookStore) (from to : BookAccount) (snap : Snapshot F)
        (e : Entry F)
        → IsInternal req
        → IsCovered d req from
        → lookup req.from_account s.book.accounts ≡ some from
        → from.id ≡ req.from_account
        → lookup (trim_space req.to_account) s.book.accounts ≡ some to
        → trim_space req.to_account ≢ req.from_account
        → snap.entries ≡ e ∷ []
        → e.id ≡ req.from_account
        → str_eq e.id "" ≡ false
        → reported d e ≡ from.balance
        → str_eq from.balance "" ≡ false
        → less (parse_human d from.balance) (
            parse_human d
              (format_float d (minus (parse_human d from.balance) (parse_human d req.amount))))
          ≡ false
        → let paid = (transfer d w w' moment settle prices req s).1 in
          let synced = (sync_from_snapshot d w'' later snap paid).1.book.accounts in
          (balance_at req.from_account synced ≡ some from.balance)
          × (balance_at (trim_space req.to_account) synced
              ≡ some (format_float d (plus (parse_human d to.balance) (parse_human d req.amount))))
    unfolding sync_entries holds_more
    sync_restores req s from to snap e i c found keyed other apart one same named full shown lower =
        let paid = (transfer d w w' moment settle prices req s).1 in
        let to_id = trim_space req.to_account in
        let pays =
          transfer_pays d w w' moment settle prices req s from to i c found keyed other apart in
        let held =
          load_held paid req.from_account
            (sender_after d w w' moment settle prices req s from to i c found keyed other apart) in
        let synced =
          accounts-sync_from_snapshot w'' later snap paid held
          ∙ ap (λ l. sync_entries d later l paid.book.accounts) one in
        let both = λ (id : String). balance-sync_entry later e paid.book.accounts id in
        (
          rw (synced, sync_entries)
              (ground (
                arith,
                both req.from_account,
                pays req.from_account,
                eq_iff e.id req.from_account,
                eq_iff to_id req.from_account,
                eq_iff req.from_account req.from_account,
              )),
          rw (synced, sync_entries)
              (ground (arith, both to_id, pays to_id, eq_iff e.id to_id, eq_iff to_id to_id)),
        )
