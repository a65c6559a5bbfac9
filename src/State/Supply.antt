-- ===== src/State/Supply.antt =====
-- The supply of coins under the writes of internal/chain/state.go.
use shiva_blockchain.Base.{
  ℕ, ◌+◌, ◌≤◌, ◌<◌, String, ◌≡◌, refl, ◌≢◌, arith, str_eq, eq_iff, if◌then◌else◌, u64_mod, add64,
  sub64, add64-eq-add, sub64-eq-sub, ok,
}
use shiva_blockchain.Assoc.{insert}
use shiva_blockchain.Assoc.Laws.{sum_by, sum_by-insert, get_or-le-sum_by}
use shiva_blockchain.Types.{Transaction, AccountState, zero_account, ChainState}
use shiva_blockchain.Crypto.{Primitives}
use shiva_blockchain.State.{account, credit, debit, pay_fee, check_transaction, apply_transaction}

abbrev balance_of : AccountState → ℕ
balance_of a = a.balance

-- The sum of all balances.
unfoldable pub supply : ChainState → ℕ
supply s = sum_by balance_of s

pub balance-le-supply : (s : ChainState) (a : String) → (account s a).balance ≤ supply s
unfolding supply
balance-le-supply s a = get_or-le-sum_by balance_of zero_account a s refl

-- A write of an account, with the balance that it had on the other side.
pub supply-insert :
    (s : ChainState) (a : String) (v : AccountState)
    → supply (insert a v s) + (account s a).balance ≡ supply s + v.balance
unfolding supply
supply-insert s a v = sum_by-insert balance_of zero_account a v s refl

pub supply-credit :
    (s : ChainState) (a : String) (x : ℕ)
    → supply s + x < u64_mod
    → supply (credit a x s) ≡ supply s + x
unfolding credit
supply-credit s a x h =
    let v : AccountState = record (account s a) { balance = add64 (account s a).balance x } in
    omega (arith, supply-insert s a v, balance-le-supply s a, add64-eq-add (account s a).balance x)

pub supply-debit :
    (s : ChainState) (tx : Transaction)
    → supply s < u64_mod
    → tx.amount + tx.fee ≤ (account s tx.from).balance
    → supply (debit tx s) + (tx.amount + tx.fee) ≡ supply s
unfolding debit
supply-debit s tx h p =
    let v : AccountState = record {
      balance = sub64 (account s tx.from).balance (add64 tx.amount tx.fee);
      nonce = add64 (account s tx.from).nonce 1;
    } in
    let sum : add64 tx.amount tx.fee ≡ tx.amount + tx.fee =
      add64-eq-add tx.amount tx.fee (omega (arith, balance-le-supply s tx.from)) in
    omega (
      arith,
      sum,
      supply-insert s tx.from v,
      balance-le-supply s tx.from,
      sub64-eq-sub (account s tx.from).balance (add64 tx.amount tx.fee),
    )

-- What a transfer destroys: its fee, where no miner is given.
unfoldable pub burned : Transaction → String → ℕ
burned tx miner = if str_eq miner "" then tx.fee else 0

pub supply-pay_fee :
    (s : ChainState) (tx : Transaction) (miner : String)
    → supply s + tx.fee < u64_mod
    → supply (pay_fee tx.fee miner s) + burned tx miner ≡ supply s + tx.fee
unfolding pay_fee burned
supply-pay_fee s tx miner h = ground (arith, supply-credit s miner tx.fee)

pub check-covers :
    (c : Primitives) (s : ChainState) (tx : Transaction)
    → check_transaction c s tx ≡ ok tt
    → add64 tx.amount tx.fee ≤ (account s tx.from).balance
unfolding check_transaction
check-covers c s tx h = ground arith

pub apply_transaction-inv :
    (c : Primitives) (s : ChainState) (tx : Transaction) (miner : String) {s' : ChainState}
    → tx.from ≢ ""
    → apply_transaction c s tx miner ≡ ok s'
    → (check_transaction c s tx ≡ ok tt)
      × (s' ≡ pay_fee tx.fee miner (credit tx.to tx.amount (debit tx s)))
unfolding apply_transaction
apply_transaction-inv c s tx miner ne h = ground (arith, eq_iff tx.from "")

-- A transfer that the code accepts moves coins and makes none, where the supply and the sum of
-- amount and fee fit a uint64: the supply falls by the fee if there is no miner, and is unchanged
-- if there is one.
pub supply-apply_transaction :
    (c : Primitives) (s : ChainState) (tx : Transaction) (miner : String) {s' : ChainState}
    → tx.from ≢ ""
    → supply s < u64_mod
    → tx.amount + tx.fee < u64_mod
    → apply_transaction c s tx miner ≡ ok s'
    → supply s' + burned tx miner ≡ supply s
supply-apply_transaction c s tx miner {s'} ne fits small h =
    let inv = apply_transaction-inv c s tx miner ne h in
    let covers : tx.amount + tx.fee ≤ (account s tx.from).balance =
      omega (arith, check-covers c s tx inv.0, add64-eq-add tx.amount tx.fee small) in
    rw (inv.1) (
      omega (
        arith,
        supply-debit s tx fits covers,
        supply-credit (debit tx s) tx.to tx.amount,
        supply-pay_fee (credit tx.to tx.amount (debit tx s)) tx miner,
      ))
