-- ===== src/Ledger/Transfer.antt =====
-- Transfer and ConvertActive of internal/ledger/book.go. The clock and the callback that settles a
-- transfer outside are given.
use shiva_blockchain.Base.{
  String, not, ◌&&◌, Option, none, some, List, [], ◌∷◌, str_eq, if◌then◌else◌, take, Result, ok,
  err,
}
use shiva_blockchain.Base.Int.{ℤ}
use shiva_blockchain.Ledger.External.{ExternalKind, ExternalDestination}
use shiva_blockchain.Ledger.Convert.{parse_human, format_float}
use shiva_blockchain.Ledger.{
  TransferRecord, from_settlement, BookAccount, ConvertResult, LedgerError,
}
use shiva_blockchain.Ledger.Float.{Float64}
use shiva_blockchain.Ledger.Request.{
  Plan, TransferRequest, resolve_external_raw, plan_transfer, new_account,
}
use shiva_blockchain.Ledger.Store.{Saving, BookStore, after_load, save, get_account}
use shiva_blockchain.Assoc.{Assoc, insert, get_or}

pub record TransferResult (F : Type 0) : Type 0 where
  pub status : String
  pub transfer : TransferRecord
  pub convert : Option (ConvertResult F)
  pub external : Option ExternalDestination
  pub settlement : String

-- The time of a call, and the identifier that it makes from the clock.
pub record Moment : Type 0 where
  pub now : ℤ
  pub new_id : String

-- `settle`: the reference of the payment, or an error.
abbrev pub Settle : Type 0
Settle = TransferRecord → Option ExternalDestination → Option String

-- The limit of the history.
unfoldable pub push_transfer : TransferRecord → List TransferRecord → List TransferRecord
push_transfer rec l = take 500 (rec ∷ l)

-- `s.data.Transfers[0] = rec`, if there is one.
unfoldable pub replace_first : TransferRecord → List TransferRecord → List TransferRecord
replace_first rec [] = []
replace_first rec (old ∷ l) = rec ∷ l

module _ {F : Type 0} (d : Float64 F) where
  open d use {plus, minus}

  unfoldable pub transfer_record :
      String → String → ℤ → BookAccount → TransferRequest → Plan d → TransferRecord
  transfer_record id status now from req plan = record {
    id = id;
    from_account = from.id;
    to_account = plan.to_id;
    asset = from.asset;
    amount = format_float d plan.amt;
    to_amount = format_float d plan.out_amt;
    convert_to = req.convert_to;
    status = status;
    tx_ref = "";
    note = req.note;
    created_at = now;
  }

  -- `from` once `to` is credited: in a transfer to itself both are one object, which has taken the asset
  -- sent.
  unfoldable pub sender_after : BookAccount → Plan d → BookAccount
  sender_after from plan =
      if str_eq plan.to_id from.id then record from { asset = plan.out_asset } else from

  -- `from` after the debit; `from` is a copy that replaces the account.
  unfoldable pub debited : ℤ → BookAccount → F → BookAccount
  debited now from amt = record from {
    balance = format_float d (minus (parse_human d from.balance) amt);
    updated_at = now;
  }

  -- `to` after the credit.
  unfoldable pub credited : ℤ → BookAccount → Plan d → BookAccount
  credited now to plan = record to {
    balance = format_float d (plus (parse_human d to.balance) plan.out_amt);
    asset = plan.out_asset;
    updated_at = now;
  }

  -- Both writes of the map, the second after the first.
  unfoldable pub move_accounts : ℤ → BookAccount → Plan d → Assoc BookAccount → Assoc BookAccount
  unfolding debited credited
  move_accounts now from plan accounts =
      let after = insert from.id (debited now from plan.amt) accounts in
      let opened = new_account now plan.to_id plan.out_asset plan.external in
      insert plan.to_id (credited now (get_or opened plan.to_id after) plan) after

  unfoldable pub move_book : ℤ → BookAccount → Plan d → TransferRecord → BookStore → BookStore
  move_book now from plan rec s = record s {
    book = record {
      accounts = move_accounts now from plan s.book.accounts;
      transfers = push_transfer rec s.book.transfers;
    };
  }

  unfoldable pub result_of : Plan d → TransferRecord → TransferResult F
  result_of plan rec = record {
    status = rec.status;
    transfer = rec;
    convert = plan.convert;
    external = plan.external;
    settlement = rec.tx_ref;
  }

  -- The record once the payment has a reference.
  unfoldable pub settled : Plan d → String → TransferRecord → TransferRecord
  settled plan ref rec =
      let referenced = record rec { tx_ref = ref } in
      let submitted =
        if not (str_eq ref "") && not (str_eq ref "pending-settlement")
        then record referenced { status = "submitted" }
        else referenced in
      elim plan.external [
        | none ↦ submitted
        | some dest ↦ elim dest.kind [
          | ExternalKind.onex ↦ record referenced { status = "on_chain" }
          | _ ↦ submitted
        ]
      ]

  -- The settlement of a pending transfer. The second `save` may fail unnoticed.
  unfoldable pub settle_transfer :
      Saving
      → Settle
      → Plan d
      → TransferRecord
      → BookStore
      → Result LedgerError (TransferResult F) × BookStore
  unfolding settled
  settle_transfer w settle plan rec s = elim (settle rec plan.external) [
    | none ↦ (err from_settlement, s)
    | some ref ↦
        let rec' = settled plan ref rec in
        let noted = record s {
          book = record s.book { transfers = replace_first rec' s.book.transfers };
        } in
        (ok (result_of plan rec'), (save w noted).1)
  ]

  -- What `Transfer` does after the book has been written to the file.
  unfoldable pub after_save :
      Saving
      → Option Settle
      → TransferRequest
      → Plan d
      → TransferRecord
      → BookStore
      → Result LedgerError (TransferResult F) × BookStore
  unfolding settle_transfer
  after_save w settle req plan rec s =
      let finished : Result LedgerError (TransferResult F) × BookStore =
        (ok (result_of plan rec), s) in
      if str_eq (resolve_external_raw req) ""
      then finished
      else elim settle [ none ↦ finished | some pay ↦ settle_transfer w pay plan rec s ]

  -- `Transfer` with a plan that is not a preview.
  unfoldable pub execute_plan :
      Saving
      → Saving
      → Moment
      → Option Settle
      → TransferRequest
      → BookAccount
      → Plan d
      → BookStore
      → Result LedgerError (TransferResult F) × BookStore
  unfolding after_save
  execute_plan w w' moment settle req from plan s =
      let status = if str_eq (resolve_external_raw req) "" then "completed" else "pending" in
      let rec = transfer_record moment.new_id status moment.now (sender_after from plan) req plan in
      let (saved, s') = save w (move_book moment.now from plan rec s) in
      elim saved [ ok _ ↦ after_save w' settle req plan rec s' | err e ↦ (err e, s') ]

  unfoldable pub preview_of : Moment → BookAccount → TransferRequest → Plan d → TransferResult F
  preview_of moment from req plan =
      result_of plan (transfer_record "preview" "preview" moment.now from req plan)

  -- `Transfer` of an account that was found.
  unfoldable pub transfer_from :
      Saving
      → Saving
      → Moment
      → Option Settle
      → Assoc F
      → TransferRequest
      → BookAccount
      → BookStore
      → Result LedgerError (TransferResult F) × BookStore
  transfer_from w w' moment settle prices req from s = elim (plan_transfer d from req prices) [
    | err e ↦ (err e, s)
    | ok plan ↦
        if req.preview
        then (ok (preview_of moment from req plan), s)
        else execute_plan w w' moment settle req from plan s
  ]

  unfoldable pub transfer_loaded :
      Saving
      → Saving
      → Moment
      → Option Settle
      → Assoc F
      → TransferRequest
      → BookStore
      → Result LedgerError (TransferResult F) × BookStore
  transfer_loaded w w' moment settle prices req s =
      let (found, s') = get_account req.from_account s in
      elim found [
        | err e ↦ (err e, s')
        | ok from ↦ transfer_from w w' moment settle prices req from s'
      ]

  -- `Transfer`, with the ends of its two calls of `save`.
  unfoldable pub transfer :
      Saving
      → Saving
      → Moment
      → Option Settle
      → Assoc F
      → TransferRequest
      → BookStore
      → Result LedgerError (TransferResult F) × BookStore
  unfolding transfer_loaded
  transfer w w' moment settle prices req =
      after_load (transfer_loaded w w' moment settle prices req)
