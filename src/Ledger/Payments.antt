-- ===== src/Ledger/Payments.antt =====
-- Transfers between two accounts of the book of internal/ledger/book.go.
use shiva_blockchain.Base.{
  String, ◌≡◌, ◌≢◌, true, false, Option, none, some, arith, str_eq, eq_iff, if◌then◌else◌, ok,
}
use shiva_blockchain.Base.Int.{ℤ}
use shiva_blockchain.Assoc.Laws.{lookup-insert}
use shiva_blockchain.Strings.{trim_space, to_upper}
use shiva_blockchain.Ledger.Store.{BookStore, Saving}
use shiva_blockchain.Ledger.Transfer.{transfer, Moment, Settle, move_accounts, credited, debited}
use shiva_blockchain.Ledger.Float.{Float64, IsNan}
use shiva_blockchain.Ledger.Request.{
  TransferRequest, plan_transfer, plan_conversion, Plan, plan_destination,
}
use shiva_blockchain.Ledger.{BookAccount}
use shiva_blockchain.Ledger.Convert.{parse_human, nought, format_float}
use shiva_blockchain.Assoc.{Assoc, lookup, get_or, insert}
use shiva_blockchain.Ledger.Moves.{accounts-transfer}

-- The balance that the book has for an identifier.
abbrev pub balance_at : String → Assoc BookAccount → Option String
balance_at id accounts = elim (lookup id accounts) [ none ↦ none | some a ↦ some a.balance ]

-- A request to pay another account of the book, in the asset of the sender.
pub record IsInternal (req : TransferRequest) : Type 0 where
  pub carried_out : req.preview ≡ false
  pub no_conversion : str_eq (to_upper (trim_space req.convert_to)) "" ≡ true
  pub has_receiver : str_eq (trim_space req.to_account) "" ≡ false

module _ {F : Type 0} (d : Float64 F) where
  open d use {plus, minus, less, at_most, is_special}

  -- The tests of the amount, against nothing and against the balance.
  pub record IsCovered (req : TransferRequest) (from : BookAccount) : Type 0 where
    pub more_than_none : at_most (parse_human d req.amount) (nought d) ≡ false
    pub not_above : less (parse_human d from.balance) (parse_human d req.amount) ≡ false

  unfoldable pub internal_plan : TransferRequest → BookAccount → Plan d
  internal_plan req from = record {
    amt = parse_human d req.amount;
    out_amt = parse_human d req.amount;
    out_asset = to_upper (trim_space from.asset);
    convert = none;
    to_id = trim_space req.to_account;
    external = none;
  }

  plan_internal :
      (prices : Assoc F) (req : TransferRequest) (from : BookAccount)
      → IsInternal req
      → IsCovered req from
      → plan_transfer d from req prices ≡ ok (internal_plan req from)
  unfolding plan_transfer plan_conversion plan_destination internal_plan
  plan_internal prices req from i c = ground arith

  -- The receiver is read after the sender has been written.
  lookup-move_accounts :
      (now : ℤ) (req : TransferRequest) (from to : BookAccount) (accounts : Assoc BookAccount)
      (id : String)
      → lookup (trim_space req.to_account) accounts ≡ some to
      → trim_space req.to_account ≢ from.id
      → lookup id (move_accounts d now from (internal_plan req from) accounts) ≡ (
          if str_eq (trim_space req.to_account) id
          then some (credited d now to (internal_plan req from))
          else if str_eq from.id id
          then some (debited d now from (parse_human d req.amount))
          else lookup id accounts)
  unfolding move_accounts internal_plan get_or
  lookup-move_accounts now req from to accounts id other apart =
      let paid = debited d now from (parse_human d req.amount) in
      let after = insert from.id paid accounts in
      ground (
        arith,
        eq_iff from.id (trim_space req.to_account),
        lookup-insert from.id (trim_space req.to_account) paid accounts,
        lookup-insert from.id id paid accounts,
        lookup-insert (trim_space req.to_account) id (credited d now to (internal_plan req from))
            after,
      )

  module _ (w w' : Saving) (moment : Moment) (settle : Option Settle) (prices : Assoc F) where
    -- A transfer in one asset between two accounts of the book, of an amount that is neither at most
    -- 0 nor above the sender's balance: the sender's balance becomes the difference, the receiver's
    -- the sum, the receiver takes the sender's asset, and no other account changes, also where
    -- writing the file or the settlement fails.
    pub transfer_pays :
        (req : TransferRequest) (s : BookStore) (from to : BookAccount)
        → IsInternal req
        → IsCovered req from
        → lookup req.from_account s.book.accounts ≡ some from
        → from.id ≡ req.from_account
        → lookup (trim_space req.to_account) s.book.accounts ≡ some to
        → trim_space req.to_account ≢ req.from_account
        → (id : String)
        → lookup id (transfer d w w' moment settle prices req s).1.book.accounts ≡ (
            if str_eq (trim_space req.to_account) id
            then some (record to {
              balance = format_float d (plus (parse_human d to.balance) (parse_human d req.amount));
              asset = to_upper (trim_space from.asset);
              updated_at = moment.now;
            })
            else if str_eq req.from_account id
            then some (record from {
              balance =
                  format_float d (minus (parse_human d from.balance) (parse_human d req.amount));
              updated_at = moment.now;
            })
            else lookup id s.book.accounts)
    unfolding credited debited internal_plan
    transfer_pays req s from to i c found keyed other apart id =
        let planned = plan_internal prices req from i c in
        rw (accounts-transfer d w w' moment settle prices req s i.carried_out found planned) (
          ground (
            arith,
            lookup-move_accounts moment.now req from to s.book.accounts id,
            eq_iff req.from_account (trim_space req.to_account),
            keyed,
          ))

    -- The account of the sender afterwards.
    pub sender_after :
        (req : TransferRequest) (s : BookStore) (from to : BookAccount)
        → IsInternal req
        → IsCovered req from
        → lookup req.from_account s.book.accounts ≡ some from
        → from.id ≡ req.from_account
        → lookup (trim_space req.to_account) s.book.accounts ≡ some to
        → trim_space req.to_account ≢ req.from_account
        → lookup req.from_account (transfer d w w' moment settle prices req s).1.book.accounts
          ≡ some (debited d moment.now from (parse_human d req.amount))
    unfolding debited
    sender_after req s from to i c found keyed other apart = ground (
      arith,
      transfer_pays req s from to i c found keyed other apart req.from_account,
      eq_iff (trim_space req.to_account) req.from_account,
      eq_iff req.from_account req.from_account,
    )

    -- An amount that `strconv.ParseFloat` reads as NaN passes both tests, whatever the sender has:
    -- a transfer of it between two accounts of the book sets both balances to "0".
    pub transfer_nan :
        (req : TransferRequest) (s : BookStore) (from to : BookAccount)
        → IsInternal req
        → IsNan d (parse_human d req.amount)
        → lookup req.from_account s.book.accounts ≡ some from
        → from.id ≡ req.from_account
        → lookup (trim_space req.to_account) s.book.accounts ≡ some to
        → trim_space req.to_account ≢ req.from_account
        → let after = (transfer d w w' moment settle prices req s).1.book.accounts in
          (balance_at req.from_account after ≡ some "0")
          × (balance_at (trim_space req.to_account) after ≡ some "0")
    unfolding format_float
    transfer_nan req s from to i nan found keyed other apart =
        let amt = parse_human d req.amount in
        let c : IsCovered req from = record {
          more_than_none = nan.not_at_most (nought d);
          not_above = nan.never_above (parse_human d from.balance);
        } in
        let paid = transfer_pays req s from to i c found keyed other apart in
        (
          ground (
            arith,
            paid req.from_account,
            eq_iff (trim_space req.to_account) req.from_account,
            eq_iff req.from_account req.from_account,
            nan.minus_special (parse_human d from.balance),
          ),
          ground (
            arith,
            paid (trim_space req.to_account),
            eq_iff (trim_space req.to_account) (trim_space req.to_account),
            nan.plus_special (parse_human d to.balance),
          ),
        )
