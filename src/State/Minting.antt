-- ===== src/State/Minting.antt =====
-- Transactions without a sender, and overflow of amount and fee, in internal/chain/state.go.
use shiva_blockchain.Base.{
  ◌+◌, ◌<◌, String, ◌≡◌, ◌≢◌, true, arith, eq_iff, u64_mod, add64, sub64, ok,
}
use shiva_blockchain.Types.{Transaction, ChainState}
use shiva_blockchain.Crypto.{Primitives, tx_payload, verify_tx}
use shiva_blockchain.State.{account, credit, debit, pay_fee, check_transaction, apply_transaction}
use shiva_blockchain.State.Supply.{supply, supply-credit}
use shiva_blockchain.State.Accounts.{account-credit, account-debit}

-- A transaction with no sender needs neither a signature nor a balance, also outside of genesis: it
-- is accepted in every state, and raises the supply by its amount, where that fits a uint64.
pub coinbase_mints :
    (c : Primitives) (s : ChainState) (tx : Transaction) (miner : String)
    → tx.from ≡ ""
    → supply s + tx.amount < u64_mod
    → (s' : ChainState) × (apply_transaction c s tx miner ≡ ok s')
      × (supply s' ≡ supply s + tx.amount)
unfolding apply_transaction
coinbase_mints c s tx miner none_given fits = (
  credit tx.to tx.amount s,
  ground (arith, eq_iff tx.from ""),
  supply-credit s tx.to tx.amount fits,
)

-- Amount and fee are added as uint64 before the balance is tested: a signed transfer to another
-- account, with the right nonce and without a miner, whose sum wraps to 0 is accepted from any
-- balance. It leaves the sender's balance and adds the amount to the receiver's.
pub overflow_mints :
    (c : Primitives) (s : ChainState) (tx : Transaction)
    → tx.from ≢ ""
    → tx.to ≢ tx.from
    → tx.amount + tx.fee ≡ u64_mod
    → (account s tx.from).balance < u64_mod
    → (account s tx.from).nonce ≡ tx.nonce
    → verify_tx c tx.from (tx_payload tx) tx.signature ≡ true
    → (s' : ChainState) × (apply_transaction c s tx "" ≡ ok s')
      × ((account s' tx.from).balance ≡ (account s tx.from).balance)
      × ((account s' tx.to).balance ≡ add64 (account s tx.to).balance tx.amount)
unfolding apply_transaction check_transaction pay_fee add64 sub64
overflow_mints c s tx ne apart wraps small nonce signed =
    let s' = credit tx.to tx.amount (debit tx s) in
    (
      s',
      ground (arith, eq_iff tx.from "", nonce, signed),
      ground (
        arith,
        account-credit (debit tx s) tx.to tx.from tx.amount,
        account-debit s tx tx.from,
        eq_iff tx.to tx.from,
        eq_iff tx.from tx.from,
      ),
      ground (
        arith,
        account-credit (debit tx s) tx.to tx.to tx.amount,
        account-debit s tx tx.to,
        eq_iff tx.from tx.to,
        eq_iff tx.to tx.to,
      ),
    )
