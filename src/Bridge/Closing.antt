-- ===== src/Bridge/Closing.antt =====
-- The closing of stakes, loans and tasks in internal/bridge.
use shiva_blockchain.Base.{
  ℕ, ◌+◌, String, ◌≡◌, inl, inr, ◌&&◌, some, List, [], ◌∷◌, arith, str_eq, if◌then◌else◌,
  Option-cases, ok,
}
use shiva_blockchain.Base.Int.{ℤ}
use shiva_blockchain.Bridge.Portfolio.{
  Portfolio, StakeRecord, LoanRecord, TaskItem, add_balance, set_balance,
}
use shiva_blockchain.Bridge.Tasks.{is_open, finish_task, request_task}
use shiva_blockchain.Bridge.Staking.{Floats, close_stake, unstake}
use shiva_blockchain.Bridge.Loans.{close_loan, repay_loan}

-- How many active stakes have this ID.
unfoldable pub active_stakes : String → List StakeRecord → ℕ
active_stakes id [] = 0
active_stakes id (s ∷ ss) =
    (if str_eq s.id id && str_eq s.status "active" then 1 else 0) + active_stakes id ss

-- How many active loans have this ID.
unfoldable pub active_loans : String → List LoanRecord → ℕ
active_loans id [] = 0
active_loans id (l ∷ ls) =
    (if str_eq l.id id && str_eq l.status "active" then 1 else 0) + active_loans id ls

-- How many open tasks have this ID.
unfoldable pub open_tasks : String → List TaskItem → ℕ
open_tasks id [] = 0
open_tasks id (t ∷ ts) = (if is_open id t then 1 else 0) + open_tasks id ts

close_stake_one :
    (id : String) (ss : List StakeRecord) {s : StakeRecord} {ss' : List StakeRecord}
    → close_stake id ss ≡ some (s, ss')
    → active_stakes id ss ≡ active_stakes id ss' + 1
unfolding close_stake active_stakes
close_stake_one id [] h = ground arith
close_stake_one id (x ∷ ss) {s} {ss'} h = elim (Option-cases (close_stake id ss)) [
  | inl e ↦ ground (arith, e)
  | inr ((t, ts), e) ↦ ground (arith, e, close_stake_one id ss e)
]

close_loan_one :
    (id : String) (ls : List LoanRecord) {l : LoanRecord} {ls' : List LoanRecord}
    → close_loan id ls ≡ some (l, ls')
    → active_loans id ls ≡ active_loans id ls' + 1
unfolding close_loan active_loans
close_loan_one id [] h = ground arith
close_loan_one id (x ∷ ls) {l} {ls'} h = elim (Option-cases (close_loan id ls)) [
  | inl e ↦ ground (arith, e)
  | inr ((t, ts), e) ↦ ground (arith, e, close_loan_one id ls e)
]

finish_task_one :
    (id : String) (ts : List TaskItem) {t : TaskItem} {ts' : List TaskItem}
    → finish_task id ts ≡ some (t, ts')
    → open_tasks id ts ≡ open_tasks id ts' + 1
unfolding finish_task open_tasks
finish_task_one id [] h = ground arith
finish_task_one id (x ∷ ts) {t} {ts'} h = elim (Option-cases (finish_task id ts)) [
  | inl e ↦ ground (arith, e)
  | inr ((u, us), e) ↦ ground (arith, e, finish_task_one id ts e)
]

-- An `Unstake` that succeeds closes exactly one active stake of its ID.
unstake_closes_one :
    (fl : Floats) (apy : StakeRecord → fl.F) (now : ℤ) (id : String) (p : Portfolio) {n : ℕ}
    → (unstake fl apy now id p).0 ≡ ok n
    → active_stakes id p.stakes ≡ active_stakes id (unstake fl apy now id p).1.stakes + 1
unfolding unstake
unstake_closes_one fl apy now id p h = elim (Option-cases (close_stake id p.stakes)) [
  | inl e ↦ ground (arith, e)
  | inr ((s, ss), e) ↦ ground (arith, e, close_stake_one id p.stakes e)
]

-- A `RepayLoan` that succeeds closes exactly one active loan of its ID.
repay_loan_closes_one :
    (id : String) (p : Portfolio)
    → (repay_loan id p).0 ≡ ok tt
    → active_loans id p.loans ≡ active_loans id (repay_loan id p).1.loans + 1
unfolding repay_loan
repay_loan_closes_one id p h = elim (Option-cases (close_loan id p.loans)) [
  | inl e ↦ ground (arith, e)
  | inr ((s, ss), e) ↦ ground (arith, e, close_loan_one id p.loans e)
]

-- A `CompleteTask` that succeeds closes exactly one open task of its ID.
request_task_closes_one :
    (id : String) (p : Portfolio)
    → (request_task id p).0 ≡ ok tt
    → open_tasks id p.tasks ≡ open_tasks id (request_task id p).1.tasks + 1
unfolding request_task add_balance set_balance
request_task_closes_one id p h = elim (Option-cases (finish_task id p.tasks)) [
  | inl e ↦ ground (arith, e)
  | inr ((t, ts), e) ↦ ground (arith, e, finish_task_one id p.tasks e)
]
