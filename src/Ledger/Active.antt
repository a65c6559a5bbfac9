-- ===== src/Ledger/Active.antt =====
-- ConvertActive of internal/ledger/book.go.
use shiva_blockchain.Base.{
  String, false, none, str_eq, if◌then◌else◌, Result, ok, err, ◌>>=◌, ◌>>◌, fail_if,
}
use shiva_blockchain.Ledger.Transfer.{transfer}
use shiva_blockchain.Strings.{trim_space, to_upper}
use shiva_blockchain.Ledger.Convert.{convert_amount}
use shiva_blockchain.Ledger.Float.{Float64}
use shiva_blockchain.Ledger.{
  ConvertRequest, to_asset_required, same_asset, ConvertResult, LedgerError,
}
use shiva_blockchain.Ledger.Store.{Saving, BookStore, book_vault_id, pick_account}
use shiva_blockchain.Assoc.{Assoc}
use shiva_blockchain.Ledger.Transfer.{Moment, TransferResult}
use shiva_blockchain.Ledger.Request.{TransferRequest}

module _ {F : Type 0} (d : Float64 F) where
  -- The identifier that `ConvertActive` debits.
  unfoldable pub source_account : ConvertRequest → BookStore → Result LedgerError String × BookStore
  source_account req s =
      let given = trim_space req.from_account in
      if str_eq given "" then pick_account d req.from_asset s else (ok given, s)

  -- The checks of `ConvertActive`, and its quote.
  unfoldable pub quote_active : ConvertRequest → Assoc F → Result LedgerError (ConvertResult F)
  quote_active req prices =
      let to = to_upper (trim_space req.to_asset) in
      fail_if (str_eq to "") to_asset_required
      >> (fail_if (str_eq (to_upper (trim_space req.from_asset)) to) same_asset
          >> convert_amount d req prices)

  unfoldable pub vault_request : String → ConvertRequest → TransferRequest
  vault_request from_id req =
      let to = to_upper (trim_space req.to_asset) in
      record {
        from_account = from_id;
        to_account = book_vault_id to;
        amount = req.amount;
        convert_to = to;
        external_to = "";
        external_chain = "";
        external_bank = "";
        bank_rail = "";
        external_address = "";
        note = "ledger-convert";
        preview = false;
      }

  unfoldable pub completed :
      String → ConvertRequest → ConvertResult F → TransferResult F → ConvertResult F
  completed from_id req conv res = record conv {
    from_account = from_id;
    to_account = (vault_request from_id req).to_account;
    status = if str_eq res.status "" then "completed" else res.status;
    transfer_id = res.transfer.id;
  }

  -- `ConvertActive`; without a callback the second `save` is not made.
  unfoldable pub convert_active :
      Saving
      → Moment
      → Assoc F
      → ConvertRequest
      → BookStore
      → Result LedgerError (ConvertResult F) × BookStore
  unfolding completed
  convert_active w moment prices req s =
      let (source, s1) = source_account req s in
      let checked : Result LedgerError (String × ConvertResult F) =
        source >>= λ from_id. quote_active req prices >>= λ conv. ok (from_id, conv) in
      elim checked [
        | err e ↦ (err e, s1)
        | ok (from_id, conv) ↦
            let (r, s2) = transfer d w w moment none prices (vault_request from_id req) s1 in
            (r >>= λ res. ok (completed from_id req conv res), s2)
      ]
