-- ===== src/Chain/Apply.antt =====
-- What `applyBlockInternal` of internal/chain/chain.go does on each path.
use shiva_blockchain.Base.{
  String, ◌≡◌, inl, inr, Bool, List, [], ◌∷◌, arith, Result, ok, err, Result-cases,
}
use shiva_blockchain.Types.{Transaction, Block, ChainState}
use shiva_blockchain.Crypto.{Primitives}
use shiva_blockchain.State.{apply_transaction, apply_transactions}
use shiva_blockchain.Storage.{Writes, get_tip}
use shiva_blockchain.Chain.Defs.{
  Blockchain, simulate, validate_block, apply_in_place, persist_block, commit_block, store_error,
  to_apply, already_tip, apply_block_internal, ApplyError, check_index, Position, apply_at_position,
  apply_after,
}

-- The second run of the transactions cannot fail where the first did not, and ends in its state.
pub apply_in_place-apply_transactions :
    (c : Primitives) (s : ChainState) (txs : List Transaction) (miner : String) {s' : ChainState}
    → apply_transactions c s txs miner ≡ ok s'
    → apply_in_place c s txs miner ≡ (ok tt, s')
unfolding apply_transactions apply_in_place
apply_in_place-apply_transactions c s [] miner h = ground arith
apply_in_place-apply_transactions c s (tx ∷ txs) miner {s'} h =
    elim (Result-cases (apply_transaction c s tx miner)) [
      | inl (t, e) ↦ ground (arith, e, apply_in_place-apply_transactions c t txs miner {s' = s'})
      | inr (f, e) ↦ ground (arith, e)
    ]

-- A validated block is committed: the state becomes the simulated one, and the store gets the block.
pub commit_block-validate_block :
    (c : Primitives) (w : Writes) (persist : Bool) (tip b : Block) (bc : Blockchain)
    {sim : ChainState}
    → validate_block c bc tip b ≡ ok sim
    → commit_block c w persist b bc ≡ persist_block w persist b (record bc { state = sim })
unfolding validate_block simulate commit_block
commit_block-validate_block c w persist tip b bc {sim} h =
    elim (Result-cases (apply_transactions c bc.state b.transactions b.header.miner)) [
      | inl (t, e) ↦
          let same = apply_in_place-apply_transactions c bc.state b.transactions b.header.miner e in
          ground (arith, e, same)
      | inr (f, e) ↦ ground (arith, e)
    ]

-- The ways in which a call of `applyBlockInternal` ends.
pub data Ending (c : Primitives) (w : Writes) (persist : Bool) (b : Block) (bc : Blockchain)
    : Result ApplyError (Unit {0}) × Blockchain → Type 0 where
  -- It is refused, and nothing was written.
  refused : (e : ApplyError) → Ending c w persist b bc (err e, bc)
  -- It is the tip already, and nothing was written.
  known :
      (tip : Block)
      → get_tip bc.store ≡ ok tip
      → check_index tip b ≡ ok already_tip
      → Ending c w persist b bc (ok tt, bc)
  -- It passed every test, the state is the simulated one, and it was handed to the store.
  applied :
      (tip : Block) (sim : ChainState)
      → get_tip bc.store ≡ ok tip
      → check_index tip b ≡ ok to_apply
      → validate_block c bc tip b ≡ ok sim
      → Ending c w persist b bc (persist_block w persist b (record bc { state = sim }))

pub apply_block_internal-Ending :
    (c : Primitives) (w : Writes) (persist : Bool) (b : Block) (bc : Blockchain)
    → Ending c w persist b bc (apply_block_internal c w persist b bc)
unfolding apply_block_internal
apply_block_internal-Ending c w persist b bc = elim (Result-cases (get_tip bc.store)) [
  | inr (e, no_tip) ↦ rw (no_tip, apply_block_internal) (refused (store_error e))
  | inl (tip, found) ↦
      rw (found, apply_block_internal)
        (elim (Result-cases (check_index tip b)) [
          | inr (e, bad) ↦ rw (bad, apply_after) (refused e)
          | inl (position, at) ↦ rw (at, apply_after) (at_position tip found position at)
        ])
]
  where
    at_position :
        (tip : Block)
        → get_tip bc.store ≡ ok tip
        → (position : Position) → check_index tip b ≡ ok position
        → Ending c w persist b bc (apply_at_position c w persist tip b bc position)
    at_position tip found already_tip at = known tip found at
    at_position tip found to_apply at = elim (Result-cases (validate_block c bc tip b)) [
      | inr (e, bad) ↦ rw (bad, apply_at_position) (refused e)
      | inl (sim, good) ↦
          rw (good, apply_at_position)
            (rw (commit_block-validate_block c w persist tip b bc good)
              (applied tip sim found at good))
    ]
