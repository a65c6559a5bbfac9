-- ===== src/Bridge/Aliasing.antt =====
-- Debits of calls of internal/bridge that fail: the portfolio is the object in the map of the store.
use shiva_blockchain.Base.{ℕ, ◌+◌, ◌-◌, ◌≤◌, String, ◌≡◌, arith, eq_iff, ok, err}
use shiva_blockchain.Assoc.{get_or}
use shiva_blockchain.Assoc.Laws.{get_or-insert}
use shiva_blockchain.Bridge.Portfolio.{
  Portfolio, BridgeError, Stamp, get_balance, set_balance, sub_balance,
}
use shiva_blockchain.Bridge.Loans.{parse_atomic_amount, open_loan, create_loan}

-- `CreateLoan` takes the collateral, where the balance covers it, before it reads the amount of the
-- debt: where that is no number the call fails, opens no loan, and the collateral is gone.
pub create_loan_loses_collateral :
    (stamp : Stamp) (kind collateral_key collateral_amt debt_key debt_amt : String) (p : Portfolio)
    (col : ℕ) {e : BridgeError}
    → parse_atomic_amount collateral_amt ≡ ok col
    → col ≤ get_balance collateral_key p
    → parse_atomic_amount debt_amt ≡ err e
    → let r = create_loan stamp kind collateral_key collateral_amt debt_key debt_amt p in
      (r.0 ≡ err e)
      × (r.1.loans ≡ p.loans)
      × (get_balance collateral_key r.1 + col ≡ get_balance collateral_key p)
unfolding create_loan open_loan sub_balance set_balance get_balance
create_loan_loses_collateral stamp kind collateral_key collateral_amt debt_key debt_amt p col {e}
      has_col covered bad =
    ground (
      arith,
      has_col,
      bad,
      eq_iff collateral_key collateral_key,
      get_or-insert 0 collateral_key collateral_key (get_or 0 collateral_key p.balances - col)
          p.balances,
    )
