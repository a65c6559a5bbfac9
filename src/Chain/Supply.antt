-- ===== src/Chain/Supply.antt =====
-- The supply of coins over blocks and from the genesis configuration (internal/chain/chain.go).
use shiva_blockchain.Base.{
  ℕ, ◌+◌, ◌<◌, ◌≡◌, refl, ◌∙◌, ◌≢◌, ◌⊎◌, inl, inr, true, [], ◌∷◌, arith, u64_mod, Result, ok,
  Result-cases,
}
use shiva_blockchain.Types.{Block, ChainState, GenesisConfig, genesis_txs, new_genesis_block}
use shiva_blockchain.Crypto.{Primitives}
use shiva_blockchain.State.{apply_transactions, apply_transaction, credit}
use shiva_blockchain.State.Supply.{supply, supply-credit}
use shiva_blockchain.State.Batch.{
  AllTransfers, supply-apply_transactions_miner, supply-apply_block_reward,
}
use shiva_blockchain.Storage.{Writes}
use shiva_blockchain.Chain.Defs.{Blockchain, ApplyError, simulate, reward_block, apply_block}
use shiva_blockchain.Chain.Apply.{Ending, apply_block_internal-Ending, refused, known, applied}
use shiva_blockchain.Chain.Safety.{simulate-validate_block, state-persist_block}
use shiva_blockchain.Assoc.{Assoc}
use shiva_blockchain.Chain.{genesis_state, apply_ignoring_errors}
use shiva_blockchain.Assoc.Laws.{sum_by}

supply-simulate :
    (c : Primitives) (reward : ℕ) (s : ChainState) (b : Block) {sim : ChainState}
    → 0 < b.header.index
    → b.header.miner ≢ ""
    → AllTransfers b.transactions
    → supply s + reward < u64_mod
    → simulate c reward s b ≡ ok sim
    → supply sim ≡ supply s + reward
unfolding simulate reward_block
supply-simulate c reward s b {sim} above ne all fits h =
    elim (Result-cases (apply_transactions c s b.transactions b.header.miner)) [
      | inr (f, e) ↦ ground (arith, e)
      | inl (t, e) ↦
          let same =
            supply-apply_transactions_miner c s b.transactions b.header.miner ne all (omega arith)
              e in
          let paid = supply-apply_block_reward t b.header.miner reward ne (omega (arith, same)) in
          ground (arith, e, same, paid)
    ]

-- A block after genesis with a miner, all of whose transactions are transfers without overflow,
-- leaves the state alone or raises the supply by exactly the block reward, where the supply with
-- the reward fits a uint64.
pub supply-apply_block :
    (c : Primitives) (w : Writes) (b : Block) (bc : Blockchain)
    → 0 < b.header.index
    → b.header.miner ≢ ""
    → AllTransfers b.transactions
    → supply bc.state + bc.block_reward < u64_mod
    → ((apply_block c w b bc).1.state ≡ bc.state)
      ⊎ (supply (apply_block c w b bc).1.state ≡ supply bc.state + bc.block_reward)
unfolding apply_block
supply-apply_block c w b bc above ne all fits = go (apply_block_internal-Ending c w true b bc)
  where
    go :
        {r : Result ApplyError (Unit {0}) × Blockchain}
        → Ending c w true b bc r
        → (r.1.state ≡ bc.state) ⊎ (supply r.1.state ≡ supply bc.state + bc.block_reward)
    go (refused f) = inl refl
    go (known tip found at) = inl refl
    go (applied tip sim found at good) = inr (
        rw (state-persist_block w true b (record bc { state = sim })) (
          supply-simulate c bc.block_reward bc.state b above ne all fits
            (simulate-validate_block c bc tip b good)))

-- The sum of the genesis allocation.
unfoldable pub sum_alloc : Assoc ℕ → ℕ
sum_alloc [] = 0
sum_alloc ((a, n) ∷ alloc) = n + sum_alloc alloc

supply-apply_ignoring_errors :
    (c : Primitives) (s : ChainState) (alloc : Assoc ℕ)
    → supply s + sum_alloc alloc < u64_mod
    → supply (apply_ignoring_errors c s (genesis_txs alloc)) ≡ supply s + sum_alloc alloc
unfolding apply_ignoring_errors genesis_txs sum_alloc apply_transaction
supply-apply_ignoring_errors c s [] h = omega arith
supply-apply_ignoring_errors c s ((a, n) ∷ alloc) h =
    let one = supply-credit s a n (omega arith) in
    omega (arith, one, supply-apply_ignoring_errors c (credit a n s) alloc (omega (arith, one)))

-- A new chain holds exactly the coins that the genesis file allocates, if their sum fits a uint64.
supply-genesis_state :
    (c : Primitives) (g : GenesisConfig)
    → sum_alloc g.alloc < u64_mod
    → supply (genesis_state c g) ≡ sum_alloc g.alloc
unfolding genesis_state new_genesis_block supply sum_by
supply-genesis_state c g h = supply-apply_ignoring_errors c [] g.alloc (omega arith) ∙ omega arith
