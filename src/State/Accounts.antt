-- ===== src/State/Accounts.antt =====
-- Which transactions internal/chain/state.go accepts, and what each account holds afterwards.
use shiva_blockchain.Base.{
  ℕ, ◌≤◌, ◌<◌, String, ◌≡◌, ◌≢◌, ◌↔◌, inl, inr, true, arith, str_eq, eq_iff, ltb, if◌then◌else◌,
  Bool-cases, u64_mod, add64, sub64, ok, err,
}
use shiva_blockchain.Assoc.Laws.{get_or-insert}
use shiva_blockchain.Types.{Transaction, zero_account, ChainState}
use shiva_blockchain.Crypto.{Primitives, tx_payload, verify_tx}
use shiva_blockchain.State.{
  TxError, account, credit, debit, pay_fee, check_transaction, apply_transaction,
  insufficient_balance, invalid_nonce,
}
use shiva_blockchain.State.Supply.{apply_transaction-inv}

pub account-credit :
    (s : ChainState) (a j : String) (x : ℕ)
    → account (credit a x s) j ≡ (
        if str_eq a j
        then record (account s a) { balance = add64 (account s a).balance x }
        else account s j)
unfolding credit
account-credit s a j x = get_or-insert zero_account a j _ s

pub account-debit :
    (s : ChainState) (tx : Transaction) (j : String)
    → account (debit tx s) j ≡ (
        if str_eq tx.from j
        then record {
          balance = sub64 (account s tx.from).balance (add64 tx.amount tx.fee);
          nonce = add64 (account s tx.from).nonce 1;
        }
        else account s j)
unfolding debit
account-debit s tx j = get_or-insert zero_account tx.from j _ s

pub nonce-credit :
    (s : ChainState) (a j : String) (x : ℕ) → (account (credit a x s) j).nonce ≡ (account s j).nonce
nonce-credit s a j x = ground (arith, account-credit s a j x, eq_iff a j)

pub nonce-pay_fee :
    (s : ChainState) (fee : ℕ) (miner j : String)
    → (account (pay_fee fee miner s) j).nonce ≡ (account s j).nonce
unfolding pay_fee
nonce-pay_fee s fee miner j = ground (arith, nonce-credit s miner j fee)

-- The sender's nonce goes up by one, also where the sender is the receiver or the miner.
pub nonce-apply_transaction :
    (c : Primitives) (s : ChainState) (tx : Transaction) (miner : String) {s' : ChainState}
    → tx.from ≢ ""
    → apply_transaction c s tx miner ≡ ok s'
    → (account s' tx.from).nonce ≡ add64 tx.nonce 1
unfolding check_transaction
nonce-apply_transaction c s tx miner ne h =
    let inv = apply_transaction-inv c s tx miner ne h in
    let s1 = debit tx s in
    let s2 = credit tx.to tx.amount s1 in
    rw (inv.1) (
      ground (
        arith,
        inv.0,
        nonce-pay_fee s2 tx.fee miner tx.from,
        nonce-credit s1 tx.to tx.from tx.amount,
        account-debit s tx tx.from,
        eq_iff tx.from tx.from,
      ))

-- A transaction with a sender and a nonce below 2 ^ 64 that has been applied is refused in the
-- state that it made, whoever the miners are.
pub no_replay :
    (c : Primitives) (s : ChainState) (tx : Transaction) (miner again : String) {s' : ChainState}
    → tx.from ≢ ""
    → tx.nonce < u64_mod
    → apply_transaction c s tx miner ≡ ok s'
    → (e : TxError) × (apply_transaction c s' tx again ≡ err e)
unfolding apply_transaction check_transaction add64
no_replay c s tx miner again {s'} ne small h =
    let moved = nonce-apply_transaction c s tx miner ne h in
    let used : (account s' tx.from).nonce ≢ tx.nonce = omega (arith, moved) in
    elim (Bool-cases (ltb (account s' tx.from).balance (add64 tx.amount tx.fee))) [
      | inl short ↦ (insufficient_balance, ground (arith, eq_iff tx.from ""))
      | inr covers ↦ (invalid_nonce, ground (arith, eq_iff tx.from ""))
    ]

-- Exactly when `ApplyTransaction` accepts a transaction with a sender: the balance covers the sum
-- of amount and fee as a uint64, the nonce is the account's, and the signature is valid.
pub accepted_iff :
    (c : Primitives) (s : ChainState) (tx : Transaction) (miner : String)
    → tx.from ≢ ""
    → ((s' : ChainState) × (apply_transaction c s tx miner ≡ ok s')) ↔ (
        (add64 tx.amount tx.fee ≤ (account s tx.from).balance)
        × ((account s tx.from).nonce ≡ tx.nonce)
        × (verify_tx c tx.from (tx_payload tx) tx.signature ≡ true))
unfolding apply_transaction check_transaction
accepted_iff c s tx miner ne = (
  λ r. ground (arith, eq_iff tx.from "", r.1),
  λ h. (
    pay_fee tx.fee miner (credit tx.to tx.amount (debit tx s)),
    ground (arith, eq_iff tx.from ""),
  ),
)

-- A transaction that is applied changes no account but those of the sender, the receiver and the
-- miner.
account-apply_transaction_other :
    (c : Primitives) (s : ChainState) (tx : Transaction) (miner j : String) {s' : ChainState}
    → j ≢ tx.from
    → j ≢ tx.to
    → j ≢ miner
    → apply_transaction c s tx miner ≡ ok s'
    → account s' j ≡ account s j
unfolding apply_transaction pay_fee
account-apply_transaction_other c s tx miner j nf nt nm h = ground (
  arith,
  eq_iff tx.from j,
  eq_iff tx.to j,
  eq_iff miner j,
  account-credit s tx.to j tx.amount,
  account-debit s tx j,
  account-credit (debit tx s) tx.to j tx.amount,
  account-credit (credit tx.to tx.amount (debit tx s)) miner j tx.fee,
)
