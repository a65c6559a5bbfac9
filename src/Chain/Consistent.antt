-- ===== src/Chain/Consistent.antt =====
-- The tip on disk and the state in memory of internal/chain/chain.go, side by side.
use shiva_blockchain.Base.{
  ℕ, ◌+◌, ◌<◌, String, ◌≡◌, refl, sym, ◌⊎◌, inl, inr, true, List, arith, ltb, ◌==◌, if◌then◌else◌,
  u64_mod, add64-eq-add, Result, ok, Result-cases,
}
use shiva_blockchain.Types.{Transaction, Block, ChainState, GenesisConfig, new_genesis_block}
use shiva_blockchain.Crypto.{Primitives}
use shiva_blockchain.Pow.{Mining, mined, exhausted, panicked, mine_block}
use shiva_blockchain.Pow.Search.{mine_block-mined}
use shiva_blockchain.State.{compute_state_root, apply_transactions, apply_block_reward}
use shiva_blockchain.Storage.{
  Store, all_written, get_tip, get_block, put_block, save_meta, read_file, write_file,
}
use shiva_blockchain.Chain.{
  finalize_and_mine_block, mine_after, apply_mined, candidate_block, new_blockchain, start_genesis,
  genesis_block, genesis_state, empty_chain,
}
use shiva_blockchain.Chain.Defs.{
  Blockchain, ApplyError, to_apply, check_index, persist_block, apply_block_internal,
}
use shiva_blockchain.Chain.Apply.{Ending, refused, known, applied, apply_block_internal-Ending}
use shiva_blockchain.Chain.Safety.{root-validate_block}
use shiva_blockchain.Base.Int.{ℤ}

-- The tip lies at the height of the store, and its header names the root of the state.
pub record IsConsistent (c : Primitives) (bc : Blockchain) : Type 0 where
  pub tip_at : (tip : Block) → get_tip bc.store ≡ ok tip → tip.header.index ≡ bc.store.height
  pub root_at :
      (tip : Block)
      → get_tip bc.store ≡ ok tip
      → compute_state_root c bc.state ≡ tip.header.state_root

-- An index that passes the first test lies above the tip, or replaces the genesis block.
index-above :
    (tip b : Block) (h : ℕ)
    → tip.header.index ≡ h
    → h + 1 < u64_mod
    → check_index tip b ≡ ok to_apply
    → (h < b.header.index) ⊎ ((h ≡ 0) × (b.header.index ≡ 0))
unfolding check_index
index-above tip b h at room good = ground (arith, add64-eq-add tip.header.index 1)

abbrev stored : Block → Store → Store
stored b s = (put_block all_written b s).1

height-stored :
    (b : Block) (s : Store)
    → (stored b s).height ≡ (if ltb s.height b.header.index then b.header.index else s.height)
unfolding put_block save_meta
height-stored b s = ground arith

tip-stored :
    (b : Block) (s : Store)
    → (s.height < b.header.index) ⊎ ((s.height ≡ 0) × (b.header.index ≡ 0))
    → get_tip (stored b s) ≡ ok b
unfolding put_block save_meta get_tip get_block read_file write_file
tip-stored b s (inl above) = ground arith
tip-stored b s (inr first) = ground arith

-- A block over a consistent chain, applied and written, is its tip, with the state that it names.
stored-IsConsistent :
    (c : Primitives) (b : Block) (bc : Blockchain) (sim : ChainState)
    → (bc.store.height < b.header.index) ⊎ ((bc.store.height ≡ 0) × (b.header.index ≡ 0))
    → compute_state_root c sim ≡ b.header.state_root
    → IsConsistent c (record bc { state = sim; store = stored b bc.store })
stored-IsConsistent c b bc sim at root = record {
  tip_at = λ tip found. ground (arith, tip-stored b bc.store at, height-stored b bc.store, at);
  root_at = λ tip found. ground (arith, tip-stored b bc.store at, root);
}

persist-stored :
    (b : Block) (bc : Blockchain)
    → (persist_block all_written true b bc).1 ≡ record bc { store = stored b bc.store }
unfolding persist_block
persist-stored b bc = refl

-- While the height leaves room for one more block, the chain is consistent.
pub record IsSound (c : Primitives) (bc : Blockchain) : Type 0 where
  pub below : bc.store.height + 1 < u64_mod → IsConsistent c bc

pub apply_block_internal-IsSound :
    (c : Primitives) (b : Block) (bc : Blockchain)
    → IsSound c bc
    → IsSound c (apply_block_internal c all_written true b bc).1
apply_block_internal-IsSound c b bc sound = go (apply_block_internal-Ending c all_written true b bc)
  where
    go :
        {r : Result ApplyError (Unit {0}) × Blockchain}
        → Ending c all_written true b bc r
        → IsSound c r.1
    go (refused f) = sound
    go (known tip found at) = sound
    go (applied tip sim found at good) = rw (persist-stored b (record bc { state = sim })) (record {
      below = λ room.
          let old : bc.store.height + 1 < u64_mod =
            ground (arith, room, height-stored b bc.store) in
          let top = (sound.below old).tip_at tip found in
          stored-IsConsistent c b bc sim (index-above tip b bc.store.height top old at)
            (root-validate_block c bc tip b good);
    })

apply_mined-IsSound :
    (c : Primitives) (bc : Blockchain) (m : Mining)
    → IsSound c bc
    → IsSound c (apply_mined c all_written bc m).1
unfolding apply_mined
apply_mined-IsSound c bc exhausted h = h
apply_mined-IsSound c bc panicked h = h
apply_mined-IsSound c bc (mined b) h =
    let next = apply_block_internal-IsSound c b bc h in
    elim (Result-cases (apply_block_internal c all_written true b bc).0) [
      | inl (u, e) ↦ rw (e, apply_mined) next
      | inr (f, e) ↦ rw (e, apply_mined) next
    ]

pub finalize_and_mine_block-IsSound :
    (fuel : ℕ) (c : Primitives) (txs : List Transaction) (miner : String) (bc : Blockchain)
    → IsSound c bc
    → IsSound c (finalize_and_mine_block fuel c all_written txs miner bc).1
unfolding finalize_and_mine_block
finalize_and_mine_block-IsSound fuel c txs miner bc h = elim (Result-cases (get_tip bc.store)) [
  | inr (e, no_tip) ↦ rw (no_tip, finalize_and_mine_block) h
  | inl (tip, found) ↦
      rw (found, finalize_and_mine_block)
        (elim (Result-cases (apply_transactions c bc.state txs miner)) [
          | inr (e, bad) ↦ rw (bad, mine_after) h
          | inl (s, good) ↦
              rw (good, mine_after)
                (apply_mined-IsSound c bc
                  (mine_block fuel c (
                    candidate_block c bc tip txs miner
                      (apply_block_reward s miner bc.block_reward)))
                  h)
        ])
]

start_genesis-IsSound :
    (fuel : ℕ) (c : Primitives) (now : ℤ) (store : Store) (g : GenesisConfig) (m : Mining)
    → store.height ≡ 0
    → mine_block fuel c (genesis_block c g now) ≡ m
    → (start_genesis all_written (record (empty_chain store g) { state = genesis_state c g }) m).0
      ≡ ok tt
    → IsSound c
        (start_genesis all_written (record (empty_chain store g) { state = genesis_state c g }) m).1
unfolding start_genesis genesis_block new_genesis_block
start_genesis-IsSound fuel c now store g exhausted empty e good = cc
start_genesis-IsSound fuel c now store g panicked empty e good = cc
start_genesis-IsSound fuel c now store g (mined b) empty e good =
    let like = (mine_block-mined fuel c (genesis_block c g now) e).0 in
    record {
      below = λ room.
          stored-IsConsistent c b (empty_chain store g) (genesis_state c g)
            (inr (empty, like.index)) (sym like.state_root);
    }

-- A chain that `New` has started from the genesis configuration is sound.
pub new_blockchain-IsSound :
    (fuel : ℕ) (c : Primitives) (now : ℤ) (store : Store) (g : GenesisConfig)
    → store.height ≡ 0
    → (new_blockchain fuel c all_written now store g).0 ≡ ok tt
    → IsSound c (new_blockchain fuel c all_written now store g).1
unfolding new_blockchain
new_blockchain-IsSound fuel c now store g empty good =
    let test : (store.height == 0) ≡ true = ground arith in
    let m = mine_block fuel c (genesis_block c g now) in
    rw (test, new_blockchain)
      (start_genesis-IsSound fuel c now store g m empty refl (rw (test, new_blockchain) at good))
