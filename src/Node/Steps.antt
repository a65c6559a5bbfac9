-- ===== src/Node/Steps.antt =====
-- Runs of a node: messages, handshakes, ticks of the miner and requests in any order.
use shiva_blockchain.Base.{
  ℕ, ◌+◌, ◌<◌, String, ◌≡◌, inl, inr, not, ◌&&◌, Option, none, some, List, [], ◌∷◌, str_eq,
  Bool-cases, u64_mod, ok, Result-cases,
}
use shiva_blockchain.Types.{Transaction, Block, GenesisConfig}
use shiva_blockchain.Crypto.{Primitives}
use shiva_blockchain.Storage.{Store, all_written, get_tip}
use shiva_blockchain.Mempool.{new_pool, pending}
use shiva_blockchain.Mempool.Order.{
  IsSynced, IsArrangement, add-IsSynced, remove_included-IsSynced, new_pool-IsSynced,
}
use shiva_blockchain.Chain.{new_blockchain, finalize_and_mine_block}
use shiva_blockchain.Chain.Defs.{Blockchain, apply_block, validate_tx}
use shiva_blockchain.Chain.Consistent.{
  IsSound, apply_block_internal-IsSound, finalize_and_mine_block-IsSound, new_blockchain-IsSound,
}
use shiva_blockchain.Node.{
  Node, Message, hello, tx_message, get_blocks, blocks, new_block, undecodable, on_transaction,
  apply_blocks_sequential, handle_message, handshake, mine_round, submit_tx, chain_compatible,
}
use shiva_blockchain.Base.Int.{ℤ, pos}
use shiva_blockchain.State.{compute_state_root}

-- What can happen to a node whose disk takes every write.
pub data Step (c : Primitives) (n : Node) : Node → Type 0 where
  receive : (remote : String) (m : Message) → Step c n (handle_message c all_written remote m n).1
  greet : (addr : String) (m : Message) → Step c n (handshake addr m n).1
  tick :
      (fuel : ℕ) (order : List String → List String) (miner : String)
      → IsArrangement order
      → Step c n (mine_round fuel c all_written order miner n).1
  submit : (tx : Transaction) → Step c n (submit_tx c tx n).1

pub data Reach (c : Primitives) (n : Node) : Node → Type 0 where
  here : Reach c n n
  next : {m k : Node} → Reach c n m → Step c m k → Reach c n k

-- The pool's two views agree, and the chain is sound.
pub record IsHealthy (c : Primitives) (n : Node) : Type 0 where
  pub pool_synced : IsSynced n.pool
  pub chain_sound : IsSound c n.bc

on_transaction-IsHealthy :
    (c : Primitives) (tx : Transaction) (n : Node)
    → IsHealthy c n
    → IsHealthy c (on_transaction c tx n)
unfolding on_transaction
on_transaction-IsHealthy c tx n h = elim (Result-cases (validate_tx c n.bc tx)) [
  | inl (u, e) ↦
      rw (e, on_transaction)
        (record { pool_synced = add-IsSynced tx n.pool h.pool_synced; chain_sound = h.chain_sound })
  | inr (f, e) ↦ rw (e, on_transaction) h
]

apply_blocks_sequential-IsSound :
    (c : Primitives) (bs : List (Option Block)) (bc : Blockchain)
    → IsSound c bc
    → IsSound c (apply_blocks_sequential c all_written bs bc)
unfolding apply_blocks_sequential apply_block
apply_blocks_sequential-IsSound c [] bc h = h
apply_blocks_sequential-IsSound c (none ∷ bs) bc h = apply_blocks_sequential-IsSound c bs bc h
apply_blocks_sequential-IsSound c (some b ∷ bs) bc h =
    let after = apply_block_internal-IsSound c b bc h in
    elim (Result-cases (apply_block c all_written b bc).0) [
      | inl (u, e) ↦
          rw (e, apply_blocks_sequential)
            (apply_blocks_sequential-IsSound c bs (apply_block c all_written b bc).1 after)
      | inr (f, e) ↦ rw (e, apply_blocks_sequential) after
    ]

handle_message-IsHealthy :
    (c : Primitives) (remote : String) (m : Message) (n : Node)
    → IsHealthy c n
    → IsHealthy c (handle_message c all_written remote m n).1
unfolding handle_message
handle_message-IsHealthy c remote (hello p) n h = record {
  pool_synced = h.pool_synced;
  chain_sound = h.chain_sound;
}
handle_message-IsHealthy c remote (tx_message tx) n h = on_transaction-IsHealthy c tx n h
handle_message-IsHealthy c remote (get_blocks from) n h = h
handle_message-IsHealthy c remote (blocks bs) n h = record {
  pool_synced = h.pool_synced;
  chain_sound = apply_blocks_sequential-IsSound c bs n.bc h.chain_sound;
}
handle_message-IsHealthy c remote (new_block b) n h = record {
  pool_synced = h.pool_synced;
  chain_sound = apply_blocks_sequential-IsSound c (some b ∷ []) n.bc h.chain_sound;
}
handle_message-IsHealthy c remote undecodable n h = h

handshake-IsHealthy :
    (c : Primitives) (addr : String) (m : Message) (n : Node)
    → IsHealthy c n
    → IsHealthy c (handshake addr m n).1
unfolding handshake
handshake-IsHealthy c addr (hello p) n h =
    let mismatch =
      not (str_eq p.chain_id n.chain_id) && not (chain_compatible p.chain_id n.chain_id) in
    elim (Bool-cases mismatch) [
      | inl bad ↦ rw (bad, handshake) h
      | inr fine ↦
          rw (fine, handshake) (record { pool_synced = h.pool_synced; chain_sound = h.chain_sound })
    ]
handshake-IsHealthy c addr m n h = h

mine_round-IsHealthy :
    (fuel : ℕ) (c : Primitives) (order : List String → List String) (miner : String) (n : Node)
    → IsArrangement order
    → IsHealthy c n
    → IsHealthy c (mine_round fuel c all_written order miner n).1
unfolding mine_round
mine_round-IsHealthy fuel c order miner n arranged h =
    let txs = pending (pos 100) n.pool in
    let after = finalize_and_mine_block-IsSound fuel c txs miner n.bc h.chain_sound in
    elim (Result-cases (finalize_and_mine_block fuel c all_written txs miner n.bc).0) [
      | inl (b, e) ↦
          rw (e, mine_round)
            (record {
              pool_synced = remove_included-IsSynced order txs n.pool arranged h.pool_synced;
              chain_sound = after;
            })
      | inr (f, e) ↦
          rw (e, mine_round) (record { pool_synced = h.pool_synced; chain_sound = after })
    ]

submit_tx-IsHealthy :
    (c : Primitives) (tx : Transaction) (n : Node)
    → IsHealthy c n
    → IsHealthy c (submit_tx c tx n).1
unfolding submit_tx
submit_tx-IsHealthy c tx n h = elim (Result-cases (validate_tx c n.bc tx)) [
  | inl (u, e) ↦
      rw (e, submit_tx)
        (record { pool_synced = add-IsSynced tx n.pool h.pool_synced; chain_sound = h.chain_sound })
  | inr (f, e) ↦ rw (e, submit_tx) h
]

Step-IsHealthy : (c : Primitives) {n m : Node} → Step c n m → IsHealthy c n → IsHealthy c m
Step-IsHealthy c {n} (receive remote m) h = handle_message-IsHealthy c remote m n h
Step-IsHealthy c {n} (greet addr m) h = handshake-IsHealthy c addr m n h
Step-IsHealthy c {n} (tick fuel order miner arranged) h =
    mine_round-IsHealthy fuel c order miner n arranged h
Step-IsHealthy c {n} (submit tx) h = submit_tx-IsHealthy c tx n h

pub Reach-IsHealthy : (c : Primitives) {n m : Node} → Reach c n m → IsHealthy c n → IsHealthy c m
Reach-IsHealthy c here h = h
Reach-IsHealthy c (next r s) h = Step-IsHealthy c s (Reach-IsHealthy c r h)

-- A node that `New` has started on an empty store.
abbrev pub fresh_node : ℕ → Primitives → ℤ → Store → GenesisConfig → Node
fresh_node fuel c now store g = record {
  bc = (new_blockchain fuel c all_written now store g).1;
  pool = new_pool;
  peers = [];
  chain_id = g.chain_id;
}

fresh_node-IsHealthy :
    (fuel : ℕ) (c : Primitives) (now : ℤ) (store : Store) (g : GenesisConfig)
    → store.height ≡ 0
    → (new_blockchain fuel c all_written now store g).0 ≡ ok tt
    → IsHealthy c (fresh_node fuel c now store g)
fresh_node-IsHealthy fuel c now store g empty started = record {
  pool_synced = new_pool-IsSynced;
  chain_sound = new_blockchain-IsSound fuel c now store g empty started;
}

-- From a fresh start on a store of height 0 that succeeded, whatever messages, handshakes, ticks of
-- the miner and requests follow in any order, while the disk takes every write and the height leaves
-- room for one more block: the pool's list and map agree, and the tip on disk, if it can be read, lies
-- at the height of the store and its header names the root of the state in memory.
pub run_healthy :
    (fuel : ℕ) (c : Primitives) (now : ℤ) (store : Store) (g : GenesisConfig) (n : Node)
    (tip : Block)
    → store.height ≡ 0
    → (new_blockchain fuel c all_written now store g).0 ≡ ok tt
    → Reach c (fresh_node fuel c now store g) n
    → n.bc.store.height + 1 < u64_mod
    → get_tip n.bc.store ≡ ok tip
    → IsSynced n.pool
      × (tip.header.index ≡ n.bc.store.height)
      × (compute_state_root c n.bc.state ≡ tip.header.state_root)
run_healthy fuel c now store g n tip empty started r room found =
    let h = Reach-IsHealthy c r (fresh_node-IsHealthy fuel c now store g empty started) in
    let at = h.chain_sound.below room in (h.pool_synced, at.tip_at tip found, at.root_at tip found)
