-- ===== src/Ledger/Request.antt =====
-- Requests of transfers in internal/ledger/book.go: ResolveExternalRaw, and what Transfer works out
-- before it writes.
use shiva_blockchain.Base.{
  String, Bool, not, ◌&&◌, ◌||◌, Option, none, some, str_eq, if◌then◌else◌, Result, ok, ◌>>=◌, ◌>>◌,
  fail_if, str_append,
}
use shiva_blockchain.Base.Int.{ℤ}
use shiva_blockchain.Ledger.External.{ExternalKind}
use shiva_blockchain.Ledger.Destination.{external_to}
use shiva_blockchain.Strings.{trim_space, to_upper, starts}
use shiva_blockchain.Ledger.Convert.{parse_human, format_float, nought, convert_amount}
use shiva_blockchain.Ledger.{
  insufficient_balance, invalid_amount, destination_required, ConvertResult, BookAccount,
  LedgerError,
}
use shiva_blockchain.Ledger.Float.{Float64}
use shiva_blockchain.Ledger.External.{ExternalDestination}
use shiva_blockchain.Assoc.{Assoc}

pub record TransferRequest : Type 0 where
  pub from_account : String
  pub to_account : String
  pub amount : String
  pub convert_to : String
  pub external_to : String
  pub external_chain : String
  pub external_bank : String
  pub bank_rail : String
  pub external_address : String
  pub note : String
  pub preview : Bool

-- `ResolveExternalRaw`
unfoldable pub resolve_external_raw : TransferRequest → String
resolve_external_raw req =
    let addr = trim_space req.external_address in
    let chain = trim_space req.external_chain in
    let bank = trim_space req.external_bank in
    let rail = trim_space req.bank_rail in
    let colon = λ (s : String) (t : String). str_append s (str_append ":" t) in
    if not (str_eq (trim_space req.external_to) "")
    then trim_space req.external_to
    else if str_eq addr ""
    then ""
    else if not (str_eq chain "")
    then colon chain addr
    else if not (str_eq bank "")
    then colon "bank" (colon bank (colon (if str_eq rail "" then "swift" else rail) addr))
    else if not (str_eq rail "")
    then colon "bank" (colon rail addr)
    else addr

-- The account that a transfer opens.
unfoldable pub new_account : ℤ → String → String → Option ExternalDestination → BookAccount
new_account now to_id out_asset ext =
    let plain : BookAccount = record {
      id = to_id;
      source = "import";
      mode = "real";
      asset = out_asset;
      token_key = "";
      chain_id = "";
      balance = "0";
      account = "";
      updated_at = now;
    } in
    let onex_key : String = "onex-mainnet-1:ONEX" in
    elim ext [
      | some dest ↦
          let on_chain = record plain {
            source = "evm";
            chain_id = dest.chain_id;
            account = dest.address;
          } in
          elim dest.kind [
            | ExternalKind.onex ↦ record plain {
              source = "onex";
              chain_id = dest.chain_id;
              token_key = onex_key;
            }
            | ExternalKind.bank ↦ record plain {
              source = "bank";
              mode = "bank";
              account = dest.label;
            }
            | _ ↦ on_chain
          ]
      | none ↦
          if starts to_id "external:onex:"
          then record plain { source = "onex"; chain_id = "onex-mainnet-1"; token_key = onex_key }
          else if starts to_id "external:bank:"
          then record plain { source = "bank"; mode = "bank" }
          else if starts to_id "external:crypto:"
          then record plain { source = "evm" }
          else plain
    ]

module _ {F : Type 0} (d : Float64 F) where
  open d use {less, at_most}

  -- What `Transfer` has worked out before it writes.
  pub record Plan : Type 0 where
    pub amt : F
    pub out_amt : F
    pub out_asset : String
    pub convert : Option (ConvertResult F)
    pub to_id : String
    pub external : Option ExternalDestination

  -- The conversion, if the request asks for another asset.
  unfoldable pub plan_conversion :
      BookAccount
      → TransferRequest
      → Assoc F
      → F
      → Result LedgerError (String × F × Option (ConvertResult F))
  plan_conversion from req prices amt =
      let asset = to_upper (trim_space from.asset) in
      let wanted = to_upper (trim_space req.convert_to) in
      if str_eq wanted "" || str_eq wanted asset
      then ok (asset, amt, none)
      else convert_amount d
          (record {
            from_asset = asset;
            to_asset = wanted;
            amount = format_float d amt;
            fiat_currency = "";
            from_account = "";
          })
          prices
        >>= λ cr. ok (wanted, parse_human d cr.to_amount, some cr)

  -- The receiving account, and the destination outside if there is one.
  unfoldable pub plan_destination : TransferRequest → String → String × Option ExternalDestination
  plan_destination req out_asset =
      let to_id = trim_space req.to_account in
      let raw = resolve_external_raw req in
      if str_eq to_id "" && not (str_eq raw "") then external_to raw out_asset else (to_id, none)

  -- All of `Transfer` up to the preview.
  unfoldable pub plan_transfer : BookAccount → TransferRequest → Assoc F → Result LedgerError Plan
  plan_transfer from req prices = do
    let amt = parse_human d req.amount
    fail_if (at_most amt (nought d)) invalid_amount
    fail_if (less (parse_human d from.balance) amt) insufficient_balance
    (out_asset, out_amt, convert) ← plan_conversion from req prices amt
    let (to_id, external) = plan_destination req out_asset
    fail_if (str_eq to_id "") destination_required
    ok (record {
      amt = amt;
      out_amt = out_amt;
      out_asset = out_asset;
      convert = convert;
      to_id = to_id;
      external = external;
    })
