-- ===== src/Ledger/Moves.antt =====
-- What Transfer of internal/ledger/book.go leaves in the book, on every path.
use shiva_blockchain.Base.{
  String, ◌≡◌, refl, ap, ◌∙◌, inl, inr, false, Option, none, some, arith, str_eq, if◌then◌else◌,
  Bool-cases, Option-cases, Result, ok, Result-cases,
}
use shiva_blockchain.Ledger.Float.{Float64}
use shiva_blockchain.Assoc.{lookup, Assoc}
use shiva_blockchain.Ledger.Transfer.{
  Moment, Settle, execute_plan, after_save, move_accounts, settle_transfer, TransferResult, settled,
  result_of, replace_first, transfer_record, sender_after, move_book, transfer_from,
}
use shiva_blockchain.Ledger.{BookAccount, TransferRecord, LedgerError, Book}
use shiva_blockchain.Ledger.Request.{TransferRequest, Plan, resolve_external_raw, plan_transfer}
use shiva_blockchain.Ledger.Store.{BookStore, Saving, load, save, written, failed, get_account}
use shiva_blockchain.Ledger.Transfer.{transfer}

-- A book with an account is not read again.
pub load_held :
    (s : BookStore) (id : String) {a : BookAccount}
    → lookup id s.book.accounts ≡ some a
    → load s ≡ (ok tt, s)
unfolding load lookup
load_held s id h = ground (arith, h)

pub get_account_held :
    (s : BookStore) (id : String) {a : BookAccount}
    → lookup id s.book.accounts ≡ some a
    → get_account id s ≡ (ok a, s)
unfolding get_account
get_account_held s id h = ground (arith, h, load_held s id h)

pub save-book : (w : Saving) (s : BookStore) → (save w s).1.book ≡ s.book
unfolding save
save-book written s = refl
save-book (failed f) s = refl

module _ {F : Type 0} (d : Float64 F) (w w' : Saving) (moment : Moment)
    (settle : Option Settle) where
  settle-accounts :
      (pay : Settle) (plan : Plan d) (rec : TransferRecord) (s : BookStore)
      → (settle_transfer d w' pay plan rec s).1.book.accounts ≡ s.book.accounts
  unfolding settle_transfer
  settle-accounts pay plan rec s = elim (Option-cases (pay rec plan.external)) [
    | inl refused ↦ rw (refused, settle_transfer)
    | inr (ref, paid) ↦
        let rec' = settled d plan ref rec in
        let noted = record s {
          book = record s.book { transfers = replace_first rec' s.book.transfers };
        } in
        rw (paid, settle_transfer) (ap (λ (b : Book). b.accounts) (save-book w' noted))
  ]

  after_save-accounts :
      (req : TransferRequest) (plan : Plan d) (rec : TransferRecord) (s : BookStore)
      → (after_save d w' settle req plan rec s).1.book.accounts ≡ s.book.accounts
  unfolding after_save
  after_save-accounts req plan rec s = elim (Bool-cases (str_eq (resolve_external_raw req) "")) [
    | inl inside ↦ rw (inside, after_save)
    | inr outside ↦ rw (outside, after_save) (paid settle)
  ]
    where
      paid :
          (o : Option Settle)
          → (elim o as (λ _. Result LedgerError (TransferResult F) × BookStore) [
            | none ↦ (ok (result_of d plan rec), s)
            | some pay ↦ settle_transfer d w' pay plan rec s
          ]).1.book.accounts
            ≡ s.book.accounts
      paid none = refl
      paid (some pay) = settle-accounts pay plan rec s

  -- The accounts after a transfer that is not a preview, however its writes and its payment end.
  pub accounts-execute_plan :
      (req : TransferRequest) (from : BookAccount) (plan : Plan d) (s : BookStore)
      → (execute_plan d w w' moment settle req from plan s).1.book.accounts
        ≡ move_accounts d moment.now from plan s.book.accounts
  unfolding execute_plan move_book
  accounts-execute_plan req from plan s =
      let status = if str_eq (resolve_external_raw req) "" then "completed" else "pending" in
      let rec =
        transfer_record d moment.new_id status moment.now (sender_after d from plan) req plan in
      let moved = move_book d moment.now from plan rec s in
      let kept = ap (λ (b : Book). b.accounts) (save-book w moved) in
      elim (Result-cases (save w moved).0) [
        | inl (done, e) ↦
            rw (e, execute_plan) (after_save-accounts req plan rec (save w moved).1 ∙ kept)
        | inr (broken, e) ↦ rw (e, execute_plan) kept
      ]

  -- A call with an account of the book is the part of it that follows the search.
  pub transfer_found :
      (prices : Assoc F) (req : TransferRequest) (s : BookStore) {from : BookAccount}
      → lookup req.from_account s.book.accounts ≡ some from
      → transfer d w w' moment settle prices req s
        ≡ transfer_from d w w' moment settle prices req from s
  unfolding transfer
  transfer_found prices req s found =
      ground (arith, load_held s req.from_account found, get_account_held s req.from_account found)

  -- A transfer that is planned and not only shown.
  pub accounts-transfer :
      (prices : Assoc F) (req : TransferRequest) (s : BookStore) {from : BookAccount}
      {plan : Plan d}
      → req.preview ≡ false
      → lookup req.from_account s.book.accounts ≡ some from
      → plan_transfer d from req prices ≡ ok plan
      → (transfer d w w' moment settle prices req s).1.book.accounts
        ≡ move_accounts d moment.now from plan s.book.accounts
  unfolding transfer_from execute_plan resolve_external_raw transfer_record
  accounts-transfer prices req s {from} {plan} shown found planned =
      rw (transfer_found prices req s found) (
        rw (planned, transfer_from)
          (rw (shown, transfer_from) (accounts-execute_plan req from plan s)))
