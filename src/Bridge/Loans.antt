-- ===== src/Bridge/Loans.antt =====
-- Loans of internal/bridge/defi.go, on the portfolio that was loaded.
use shiva_blockchain.Base.{
  ℕ, String, Bool, false, ◌&&◌, ◌||◌, Option, none, some, List, [], ◌∷◌, str_eq, ltb, leb, ◌==◌,
  if◌then◌else◌, u64_mod, Result, ok, err, or_fail, map_err, Bytes, codes,
}
use shiva_blockchain.Base.Decimal.Reading.{read_digits}
use shiva_blockchain.Rpc.Amount.{parse_amount, trim_space}
use shiva_blockchain.Bridge.Portfolio.{
  Portfolio, LoanRecord, BridgeError, loan_not_found, bad_amount, Stamp, add_balance, sub_balance,
}

has_dot : Bytes → Bool
has_dot [] = false
has_dot (ch ∷ s) = ch == b'.' || has_dot s

-- The digits at the start of a text.
digit_run : Bytes → Bytes
digit_run [] = []
digit_run (ch ∷ s) = let rest = digit_run s in if leb b'0' ch && leb ch b'9' then ch ∷ rest else []

-- `fmt.Sscanf(s, "%d", &n)` of a text without a sign: the number at its start.
unfoldable pub scan_number : Bytes → Option ℕ
unfolding digit_run
scan_number s = elim (digit_run s) [
  | [] ↦ none
  | d ∷ ds ↦ elim (read_digits 0 (d ∷ ds)) [
    | none ↦ none
    | some n ↦ if ltb n u64_mod then some n else none
  ]
]

-- `parseAtomicAmount`
unfoldable pub parse_atomic_amount : String → Result BridgeError ℕ
unfolding has_dot
parse_atomic_amount s =
    if has_dot (codes s)
    then map_err (λ e. bad_amount) (parse_amount s)
    else or_fail (scan_number (trim_space (codes s))) bad_amount

-- `CreateLoan` once the collateral has been taken.
unfoldable pub open_loan :
    Stamp
    → String
    → String
    → ℕ
    → String
    → String
    → Portfolio
    → Result BridgeError LoanRecord × Portfolio
open_loan stamp kind collateral_key col debt_key debt_amt p = elim (parse_atomic_amount debt_amt) [
  | err e ↦ (err e, p)
  | ok debt ↦
      let paid = if str_eq kind "borrow" then add_balance debt_key debt p else p in
      let loan : LoanRecord = record {
        id = stamp.new_id;
        kind = kind;
        collateral_key = collateral_key;
        collateral_amt = col;
        debt_key = debt_key;
        debt_amt = debt;
        status = "active";
        created_at = stamp.now;
      } in
      (ok loan, record paid { loans = loan ∷ paid.loans })
]

-- `CreateLoan`, without the rate that is only recorded.
unfoldable pub create_loan :
    Stamp
    → String
    → String
    → String
    → String
    → String
    → Portfolio
    → Result BridgeError LoanRecord × Portfolio
create_loan stamp kind collateral_key collateral_amt debt_key debt_amt p =
    elim (parse_atomic_amount collateral_amt) [
      | err e ↦ (err e, p)
      | ok col ↦
          let (r, p') = sub_balance collateral_key col p in
          elim r [
            | err e ↦ (err e, p')
            | ok _ ↦ open_loan stamp kind collateral_key col debt_key debt_amt p'
          ]
    ]

-- The first active loan of this ID, and the loans with that one repaid.
unfoldable pub close_loan : String → List LoanRecord → Option (LoanRecord × List LoanRecord)
close_loan id [] = none
close_loan id (l ∷ ls) =
    let rest = close_loan id ls in
    if str_eq l.id id && str_eq l.status "active"
    then some (l, record l { status = "repaid" } ∷ ls)
    else elim rest [ none ↦ none | some (found, ls') ↦ some (found, l ∷ ls') ]

-- `RepayLoan`
unfoldable pub repay_loan : String → Portfolio → Result BridgeError (Unit {0}) × Portfolio
repay_loan id p = elim (close_loan id p.loans) [
  | none ↦ (err loan_not_found, p)
  | some (l, loans) ↦
      let (r, p') = sub_balance l.debt_key l.debt_amt p in
      elim r [
        | err e ↦ (err e, p')
        | ok _ ↦
            (ok tt, record (add_balance l.collateral_key l.collateral_amt p') { loans = loans })
      ]
]
