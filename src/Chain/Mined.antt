-- ===== src/Chain/Mined.antt =====
-- `FinalizeAndMineBlock` of internal/chain/chain.go, from the tip to the written block.
use shiva_blockchain.Base.{
  ℕ, ◌+◌, ◌<◌, String, ◌≡◌, ◌∙◌, ◌≢◌, true, some, List, arith, eq_iff, u64_mod, add64-eq-add, ok,
  Bytes,
}
use shiva_blockchain.Types.{Transaction, Block, ChainState}
use shiva_blockchain.Crypto.{hash, Primitives}
use shiva_blockchain.Pow.{mined, mine_block, valid_proof, hash_matches_header}
use shiva_blockchain.Pow.Search.{IsAttempt, mine_block-valid}
use shiva_blockchain.State.{apply_transactions, apply_block_reward, compute_state_root}
use shiva_blockchain.Storage.{
  all_written, get_tip, put_block, save_meta, get_block, read_file, write_file,
}
use shiva_blockchain.Chain.{candidate_block, finalize_and_mine_block}
use shiva_blockchain.Chain.Defs.{
  Blockchain, to_apply, check_index, check_header, check_proof, simulate, reward_block,
  validate_block, persist_block, apply_at_position, apply_after, apply_block_internal,
}
use shiva_blockchain.Chain.Apply.{commit_block-validate_block}
use shiva_blockchain.Chain.Safety.{persist_block-all_written}

module _ (c : Primitives) (bc : Blockchain) (tip : Block) (txs : List Transaction) (miner : String)
    (s : ChainState) (b : Block) (room : tip.header.index + 1 < u64_mod)
    (runs : apply_transactions c bc.state txs miner ≡ ok s)
    (like : IsAttempt c
      (candidate_block c bc tip txs miner (apply_block_reward s miner bc.block_reward))
      b)
    (proof : valid_proof b ≡ some true) (matches : hash_matches_header c b ≡ true) where
  index-mined : b.header.index ≡ tip.header.index + 1
  unfolding candidate_block
  index-mined = like.index ∙ add64-eq-add tip.header.index 1 room

  check_index-mined : check_index tip b ≡ ok to_apply
  unfolding check_index
  check_index-mined = ground (arith, index-mined, add64-eq-add tip.header.index 1 room)

  check_header-mined : check_header c tip b ≡ ok tt
  unfolding check_header check_proof candidate_block
  check_header-mined = ground (
    arith,
    index-mined,
    like.previous_hash,
    proof,
    matches,
    eq_iff b.header.previous_hash tip.hash,
  )

  simulate-mined :
      simulate c bc.block_reward bc.state b ≡ ok (apply_block_reward s miner bc.block_reward)
  unfolding simulate reward_block candidate_block
  simulate-mined =
      let same : apply_transactions c bc.state b.transactions b.header.miner ≡ ok s =
        cc (runs, like.transactions, like.miner) in
      ground (arith, same, index-mined, like.miner)

  validate_block-mined : validate_block c bc tip b ≡ ok (apply_block_reward s miner bc.block_reward)
  unfolding validate_block candidate_block
  validate_block-mined =
      let sim = apply_block_reward s miner bc.block_reward in
      ground (
        arith,
        check_header-mined,
        simulate-mined,
        like.state_root,
        eq_iff b.header.state_root (compute_state_root c sim),
      )

  -- Such a block passes every test of `applyBlockInternal`, and is written.
  apply-mined :
      get_tip bc.store ≡ ok tip
      → apply_block_internal c all_written true b bc
        ≡ persist_block all_written true b
            (record bc { state = apply_block_reward s miner bc.block_reward })
  unfolding apply_block_internal
  apply-mined found =
      rw (found, apply_block_internal)
        (rw (check_index-mined, apply_after)
          (rw (validate_block-mined, apply_at_position)
            (commit_block-validate_block c all_written true tip b bc validate_block-mined)))

  abbrev candidate : Block
  candidate = candidate_block c bc tip txs miner (apply_block_reward s miner bc.block_reward)

  -- The chain that the node has after it has written the block.
  abbrev chain_after : Blockchain
  chain_after =
      (persist_block all_written true b
        (record bc { state = apply_block_reward s miner bc.block_reward })).1

  pub finalize-mined :
      (fuel : ℕ)
      → get_tip bc.store ≡ ok tip
      → mine_block fuel c candidate ≡ mined b
      → finalize_and_mine_block fuel c all_written txs miner bc ≡ (ok b, chain_after)
  unfolding finalize_and_mine_block
  finalize-mined fuel found search_result = ground (
    arith,
    found,
    runs,
    search_result,
    apply-mined found,
    persist_block-all_written true b
        (record bc { state = apply_block_reward s miner bc.block_reward }),
  )

-- What is true of the chain after the node has mined a block over the tip.
pub record IsExtended (bc : Blockchain) (tip : Block) (sim : ChainState) (b : Block)
    (after : Blockchain) : Type 0 where
  pub state : after.state ≡ sim
  pub index : b.header.index ≡ tip.header.index + 1
  pub linked : b.header.previous_hash ≡ tip.hash
  pub tip_is : get_tip after.store ≡ ok b
  pub height : after.store.height ≡ bc.store.height + 1
  pub genesis : after.genesis ≡ bc.genesis

persist_block-IsExtended :
    (bc : Blockchain) (tip b : Block) (sim : ChainState)
    → b.header.index ≡ tip.header.index + 1
    → b.header.previous_hash ≡ tip.hash
    → tip.header.index ≡ bc.store.height
    → IsExtended bc tip sim b (persist_block all_written true b (record bc { state = sim })).1
unfolding persist_block put_block save_meta get_tip get_block read_file write_file
persist_block-IsExtended bc tip b sim next link top = ground arith

-- The node accepts its own blocks: where the tip is at the height of the store, which is below 2 ^
-- 64 - 1, the transactions apply and the search for a proof of work ends, `FinalizeAndMineBlock`
-- returns the mined block, and that block is the new tip, one above the old one and linked to it,
-- with the state that the transactions and the reward made. The disk takes every write and no
-- payload hashes to the empty text.
pub finalize_and_mine_block-IsExtended :
    (fuel : ℕ) (c : Primitives) (bc : Blockchain) (tip : Block) (txs : List Transaction)
    (miner : String) (s : ChainState) (b : Block)
    → ((payload : Bytes) → hash c payload ≢ "")
    → get_tip bc.store ≡ ok tip
    → tip.header.index ≡ bc.store.height
    → tip.header.index + 1 < u64_mod
    → apply_transactions c bc.state txs miner ≡ ok s
    → mine_block fuel c
        (candidate_block c bc tip txs miner (apply_block_reward s miner bc.block_reward))
      ≡ mined b
    → (after : Blockchain) × (finalize_and_mine_block fuel c all_written txs miner bc
        ≡ (ok b, after))
      × IsExtended bc tip (apply_block_reward s miner bc.block_reward) b after
unfolding candidate_block
finalize_and_mine_block-IsExtended fuel c bc tip txs miner s b nonempty found top room runs
      search_result =
    let sim = apply_block_reward s miner bc.block_reward in
    let good =
      mine_block-valid fuel c (candidate_block c bc tip txs miner sim) nonempty search_result in
    let like = good.0 in
    (
      (persist_block all_written true b (record bc { state = sim })).1,
      finalize-mined c bc tip txs miner s b room runs like good.1 good.2 fuel found search_result,
      persist_block-IsExtended bc tip b sim
          (index-mined c bc tip txs miner s b room runs like good.1 good.2) like.previous_hash top,
    )
