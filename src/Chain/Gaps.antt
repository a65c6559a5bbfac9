-- ===== src/Chain/Gaps.antt =====
-- The tests of `applyBlockInternal` in internal/chain/chain.go on the index and on the difficulty.
use shiva_blockchain.Base.{
  ℕ, ◌+◌, ◌<◌, ◌≡◌, ◌≢◌, true, arith, eq_iff, u64_mod, add64, add64-eq-add, ok, has_prefix,
}
use shiva_blockchain.Types.{Block, ChainState}
use shiva_blockchain.Crypto.{Primitives}
use shiva_blockchain.State.{compute_state_root}
use shiva_blockchain.Pow.{header_hash, valid_proof, hash_matches_header, meets_target}
use shiva_blockchain.Storage.{
  all_written, get_tip, get_block, put_block, save_meta, read_file, write_file,
}
use shiva_blockchain.Chain.Defs.{
  Blockchain, to_apply, check_index, check_header, check_proof, validate_block, persist_block,
  apply_after, apply_at_position, apply_block_internal, apply_block, simulate,
}
use shiva_blockchain.Chain.Apply.{commit_block-validate_block}

check_index-gap :
    (tip b : Block)
    → tip.header.index + 1 < b.header.index
    → b.header.index < u64_mod
    → check_index tip b ≡ ok to_apply
unfolding check_index
check_index-gap tip b gap small = ground (arith, add64-eq-add tip.header.index 1)

-- A block may leave out indices: one that lies further above the tip than the next, above the
-- height of the store and below 2 ^ 64, and that passes the other tests, is applied where the disk
-- takes every write. The height of the store becomes its index, and the block files below it stay
-- as they were.
pub index_gap_accepted :
    (c : Primitives) (bc : Blockchain) (tip b : Block) {sim : ChainState} (i : ℕ)
    → get_tip bc.store ≡ ok tip
    → tip.header.index + 1 < b.header.index
    → b.header.index < u64_mod
    → bc.store.height < b.header.index
    → validate_block c bc tip b ≡ ok sim
    → i < b.header.index
    → ((apply_block c all_written b bc).0 ≡ ok tt)
      × ((apply_block c all_written b bc).1.store.height ≡ b.header.index)
      × (get_block i (apply_block c all_written b bc).1.store ≡ get_block i bc.store)
unfolding apply_block apply_block_internal persist_block put_block save_meta get_block read_file
    write_file
index_gap_accepted c bc tip b {sim} i found gap small above good below =
    let run : apply_block_internal c all_written true b bc
        ≡ persist_block all_written true b (record bc { state = sim }) =
      rw (found, apply_block_internal)
        (rw (check_index-gap tip b gap small, apply_after)
          (rw (good, apply_at_position)
            (commit_block-validate_block c all_written true tip b bc good))) in
    (ground (arith, run), ground (arith, run), ground (arith, run))

check_header-free :
    (c : Primitives) (tip b : Block)
    → b.header.difficulty ≡ 0
    → b.header.previous_hash ≡ tip.hash
    → b.hash ≡ header_hash c b.header
    → b.hash ≢ ""
    → check_header c tip b ≡ ok tt
unfolding check_header check_proof valid_proof hash_matches_header meets_target has_prefix
check_header-free c tip b free link hashed nonempty = ground (
  arith,
  eq_iff b.header.previous_hash tip.hash,
  eq_iff b.hash "",
  eq_iff (header_hash c b.header) b.hash,
)

check_index-next :
    (tip b : Block) → b.header.index ≡ add64 tip.header.index 1 → check_index tip b ≡ ok to_apply
unfolding check_index
check_index-next tip b next = ground arith

-- `ApplyBlock` applies a block that names difficulty 0, with any hash of its header that is not
-- empty, whatever difficulty the genesis asks for: a block that follows the tip by index and previous
-- hash, whose transactions and reward run to a state with the root that it names, becomes the tip,
-- and that state the chain's, where the disk takes every write.
pub own_difficulty_accepted :
    (c : Primitives) (bc : Blockchain) (tip b : Block) {sim : ChainState}
    → get_tip bc.store ≡ ok tip
    → b.header.index ≡ add64 tip.header.index 1
    → bc.store.height ≡ tip.header.index
    → b.header.difficulty ≡ 0
    → b.header.previous_hash ≡ tip.hash
    → b.hash ≡ header_hash c b.header
    → b.hash ≢ ""
    → simulate c bc.block_reward bc.state b ≡ ok sim
    → b.header.state_root ≡ compute_state_root c sim
    → tip.header.index + 1 < u64_mod
    → ((apply_block c all_written b bc).0 ≡ ok tt)
      × (get_tip (apply_block c all_written b bc).1.store ≡ ok b)
      × ((apply_block c all_written b bc).1.state ≡ sim)
unfolding apply_block apply_block_internal validate_block persist_block put_block save_meta get_tip
    get_block read_file write_file
own_difficulty_accepted c bc tip b {sim} found next tall free link hashed nonempty runs root small =
    let good : validate_block c bc tip b ≡ ok sim =
      rw (check_header-free c tip b free link hashed nonempty, runs, validate_block)
        (ground (arith, eq_iff b.header.state_root (compute_state_root c sim), root)) in
    let run : apply_block_internal c all_written true b bc
        ≡ persist_block all_written true b (record bc { state = sim }) =
      rw (found, apply_block_internal)
        (rw (check_index-next tip b next, apply_after)
          (rw (good, apply_at_position)
            (commit_block-validate_block c all_written true tip b bc good))) in
    let above : bc.store.height < b.header.index =
      omega (arith, next, tall, add64-eq-add tip.header.index 1) in
    (ground (arith, run), ground (arith, run, above), ground (arith, run))
