-- ===== src/State/Batch.antt =====
-- The supply over all the transactions of a block.
use shiva_blockchain.Base.{
  ℕ, ◌+◌, ◌<◌, String, ◌≡◌, refl, ◌≢◌, inl, inr, List, [], ◌∷◌, arith, eq_iff, u64_mod, ok,
  Result-cases,
}
use shiva_blockchain.Types.{Transaction, ChainState}
use shiva_blockchain.Crypto.{Primitives}
use shiva_blockchain.State.{apply_transaction, apply_transactions, apply_block_reward}
use shiva_blockchain.State.Supply.{supply, burned, supply-apply_transaction, supply-credit}

-- A transfer whose amount and fee have a sum that fits a uint64: no coinbase, no overflow.
pub record IsTransfer (tx : Transaction) : Type 0 where
  pub has_sender : tx.from ≢ ""
  pub no_overflow : tx.amount + tx.fee < u64_mod

abbrev pub AllTransfers : List Transaction → Type 0
AllTransfers [] = Unit
AllTransfers (tx ∷ txs) = IsTransfer tx × AllTransfers txs

-- The fees that a block without a miner destroys.
unfoldable pub burned_all : List Transaction → String → ℕ
burned_all [] miner = 0
burned_all (tx ∷ txs) miner = burned tx miner + burned_all txs miner

pub supply-apply_transactions :
    (c : Primitives) (s : ChainState) (txs : List Transaction) (miner : String) {s' : ChainState}
    → AllTransfers txs
    → supply s < u64_mod
    → apply_transactions c s txs miner ≡ ok s'
    → supply s' + burned_all txs miner ≡ supply s
unfolding apply_transactions burned_all
supply-apply_transactions c s [] miner all fits h = ground arith
supply-apply_transactions c s (tx ∷ txs) miner {s'} (t, all) fits h =
    elim (Result-cases (apply_transaction c s tx miner)) [
      | inr (f, e) ↦ ground (arith, e)
      | inl (s1, e) ↦
          let one = supply-apply_transaction c s tx miner t.has_sender fits t.no_overflow e in
          let rest = supply-apply_transactions c s1 txs miner {s' = s'} all (omega (arith, one)) in
          ground (arith, e, one, rest)
    ]

burned_all-miner : (txs : List Transaction) (miner : String) → miner ≢ "" → burned_all txs miner ≡ 0
unfolding burned_all burned
burned_all-miner [] miner h = refl
burned_all-miner (tx ∷ txs) miner h = ground (arith, eq_iff miner "", burned_all-miner txs miner h)

pub supply-apply_block_reward :
    (s : ChainState) (miner : String) (reward : ℕ)
    → miner ≢ ""
    → supply s + reward < u64_mod
    → supply (apply_block_reward s miner reward) ≡ supply s + reward
unfolding apply_block_reward
supply-apply_block_reward s miner reward h fits =
    ground (arith, eq_iff miner "", supply-credit s miner reward)

-- With a miner, transfers keep the supply.
pub supply-apply_transactions_miner :
    (c : Primitives) (s : ChainState) (txs : List Transaction) (miner : String) {s' : ChainState}
    → miner ≢ ""
    → AllTransfers txs
    → supply s < u64_mod
    → apply_transactions c s txs miner ≡ ok s'
    → supply s' ≡ supply s
supply-apply_transactions_miner c s txs miner ne all fits h =
    omega (arith, supply-apply_transactions c s txs miner all fits h, burned_all-miner txs miner ne)
