-- ===== src/Chain/Restart.antt =====
-- `New` of internal/chain/chain.go over a store that holds a chain: `rebuildState` replays the
-- blocks against the tip of the whole chain.
use shiva_blockchain.Base.{
  ℕ, ◌+◌, ◌<◌, ◌≡◌, refl, ◌≢◌, false, arith, eq_iff, u64_mod, add64-eq-add, ok, err,
}
use shiva_blockchain.Types.{Block, GenesisConfig}
use shiva_blockchain.Crypto.{Primitives}
use shiva_blockchain.Storage.{Store, Writes, all_written, get_tip, get_block}
use shiva_blockchain.Chain.{new_blockchain, rebuild_state, replay_blocks, empty_chain}
use shiva_blockchain.Chain.Defs.{
  Blockchain, not_next, check_index, apply_after, apply_block_internal,
}
use shiva_blockchain.Base.Int.{ℤ}

check_index-genesis :
    (tip first : Block)
    → first.header.index ≡ 0
    → 0 < tip.header.index
    → tip.header.index + 1 < u64_mod
    → first.hash ≢ tip.hash
    → check_index tip first ≡ err not_next
unfolding check_index
check_index-genesis tip first zeroth above room ne =
    ground (arith, add64-eq-add tip.header.index 1 room, eq_iff first.hash tip.hash)

replay-genesis :
    (c : Primitives) (bc : Blockchain) (tip first : Block)
    → get_tip bc.store ≡ ok tip
    → check_index tip first ≡ err not_next
    → apply_block_internal c all_written false first bc ≡ (err not_next, bc)
unfolding apply_block_internal
replay-genesis c bc tip first found bad =
    rw (found, apply_block_internal) (rw (bad, apply_after) refl)

-- A node cannot start again on a chain that it has extended: where the height of the store is not
-- 0, its tip lies above index 0 and below 2 ^ 64 - 1, and block 0 has index 0 and another hash than
-- the tip, `New` returns the error that block 0 is not next after the tip.
pub restart_fails :
    (fuel : ℕ) (c : Primitives) (w : Writes) (now : ℤ) (store : Store) (g : GenesisConfig)
    (first tip : Block)
    → store.height ≢ 0
    → get_block 0 store ≡ ok first
    → get_tip store ≡ ok tip
    → first.header.index ≡ 0
    → 0 < tip.header.index
    → tip.header.index + 1 < u64_mod
    → first.hash ≢ tip.hash
    → (new_blockchain fuel c w now store g).0 ≡ err not_next
unfolding new_blockchain rebuild_state replay_blocks
restart_fails fuel c w now store g first tip nonzero has_first has_tip zeroth above room ne =
    let refused = check_index-genesis tip first zeroth above room ne in
    let replayed = replay-genesis c (empty_chain store g) tip first has_tip refused in
    ground (arith, has_first, replayed)
