-- ===== src/Tests/Nodes.antt =====
-- Runs of a node, its messages and its miner.
use shiva_blockchain.Base.{
  ℕ, zero, suc, ◌+◌, ◌-◌, ◌*◌, ◌/◌, ◌%◌, ◌^◌, ◌≤◌, ◌<◌, String, ◌≡◌, refl, sym, ap, ◌∙◌, ◌≢◌, ◌↔◌,
  ◌⊎◌, inl, inr, Bool, true, false, not, ◌&&◌, ◌||◌, Option, none, some, List, [], ◌∷◌, ◌++◌, map,
  foldl, arith, str_eq, eq_iff, eq_refl, ltb, leb, ◌==◌, if◌then◌else◌, ltb→lt, lt→ltb, leb→le,
  ==_iff, tests, Bool-cases, Option-cases, length, take, length-append, length-take-le, u64_mod,
  add64, sub64, mul64, add64-eq-add, sub64-eq-sub, add64-lt, word_laws, Result, ok, err, ◌>>=◌,
  ◌>>◌, fail_if, or_fail, map_err, Result-cases, Bytes, codes, has_prefix, decimal, decimal_string,
  str_append,
}
use shiva_blockchain.Base.Int.{ℤ, pos}
use shiva_blockchain.Assoc.{lookup}
use shiva_blockchain.Types.{Transaction, Block, hex_encode}
use shiva_blockchain.Crypto.{verify_tx}
use shiva_blockchain.State.{TxError, apply_transactions, compute_state_root, invalid_nonce}
use shiva_blockchain.Storage.{Store, all_written, get_tip}
use shiva_blockchain.Chain.{new_blockchain}
use shiva_blockchain.Mempool
use shiva_blockchain.Mempool.{new_pool, add, pending, pending_bound, remove_included, tx_key}
use shiva_blockchain.Mempool.Order.{IsSynced, IsArrangement}
use shiva_blockchain.Node.{Node, handle_message, tx_message, blocks, mine_round}
use shiva_blockchain.Node.Steps.{Reach, receive, tick, here, next, fresh_node, run_healthy}
use shiva_blockchain.Node.Stall.{mine_rounds, mine_rounds-stalled}
use shiva_blockchain.Tests.Samples.{
  toy, bob, config, first_block, funded, chain_of_one, payment, nothing_stored,
}

abbrev pub in_order : List String → List String
in_order l = l

pub in_order-IsArrangement : IsArrangement in_order
in_order-IsArrangement = record { same = λ k l. refl }

abbrev pub started : Node
started = fresh_node 3 toy (pos 5) nothing_stored config

-- After the payment was received and a block was mined.
abbrev mined_node : Node
mined_node =
    (mine_round 3 toy all_written in_order bob
      (handle_message toy all_written "peer:1" (tx_message payment) started).1).1

starts : (new_blockchain 3 toy all_written (pos 5) nothing_stored config).0 ≡ ok tt
unfolding new_blockchain shiva_blockchain.Pow.mine_block shiva_blockchain.Chain.genesis_block
    shiva_blockchain.Types.new_genesis_block shiva_blockchain.Pow.mine_loop
    shiva_blockchain.Pow.meets_target has_prefix shiva_blockchain.Pow.next_attempt
    shiva_blockchain.Pow.header_hash hex_encode decimal_string shiva_blockchain.Storage.put_block
    shiva_blockchain.Storage.save_meta
starts = refl

two_steps : Reach toy started mined_node
two_steps =
    next (next here (receive "peer:1" (tx_message payment)))
      (tick 3 in_order bob in_order-IsArrangement)

abbrev mined_tip : Block
mined_tip = elim (get_tip mined_node.bc.store) [ ok b ↦ b | err e ↦ first_block ]

mined_tip-found : get_tip mined_node.bc.store ≡ ok mined_tip
unfolding get_tip mine_round shiva_blockchain.Chain.finalize_and_mine_block handle_message
    shiva_blockchain.Node.on_transaction shiva_blockchain.Chain.Defs.validate_tx
    shiva_blockchain.State.apply_transaction shiva_blockchain.State.check_transaction
    shiva_blockchain.Assoc.get_or lookup new_blockchain shiva_blockchain.Pow.mine_block
    shiva_blockchain.Chain.genesis_block shiva_blockchain.Types.new_genesis_block
    shiva_blockchain.Pow.mine_loop shiva_blockchain.Pow.meets_target has_prefix
    shiva_blockchain.Pow.next_attempt shiva_blockchain.Assoc.erase shiva_blockchain.Assoc.insert
    shiva_blockchain.Assoc.keys decimal_string shiva_blockchain.Base.Int.succ_int64 add64 sub64
    shiva_blockchain.Chain.Defs.apply_after shiva_blockchain.Chain.Defs.apply_at_position
    shiva_blockchain.Chain.Defs.apply_block_internal shiva_blockchain.Chain.Defs.apply_in_place
    shiva_blockchain.Chain.Defs.check_header shiva_blockchain.Chain.Defs.check_index
    shiva_blockchain.Chain.Defs.check_proof shiva_blockchain.Chain.Defs.commit_block
    shiva_blockchain.Chain.Defs.persist_block shiva_blockchain.Chain.Defs.reward_block
    shiva_blockchain.Chain.Defs.simulate shiva_blockchain.Chain.Defs.validate_block
    shiva_blockchain.Chain.apply_ignoring_errors shiva_blockchain.Chain.apply_mined
    shiva_blockchain.Chain.candidate_block shiva_blockchain.Chain.genesis_state
    shiva_blockchain.Chain.mine_after shiva_blockchain.Chain.start_genesis verify_tx add
    shiva_blockchain.Mempool.fetch pending pending_bound remove_included
    shiva_blockchain.Mempool.remove_keys tx_key shiva_blockchain.Pow.hash_matches_header
    shiva_blockchain.Pow.header_hash shiva_blockchain.Pow.valid_proof
    shiva_blockchain.State.apply_block_reward apply_transactions compute_state_root
    shiva_blockchain.State.credit shiva_blockchain.State.debit shiva_blockchain.State.pay_fee
    shiva_blockchain.Storage.get_block shiva_blockchain.Storage.put_block
    shiva_blockchain.Storage.read_file shiva_blockchain.Storage.save_meta
    shiva_blockchain.Storage.write_file shiva_blockchain.Types.genesis_txs
    shiva_blockchain.Types.hex_decode hex_encode
mined_tip-found = refl

mined_at : mined_node.bc.store.height ≡ 1
unfolding get_tip mine_round shiva_blockchain.Chain.finalize_and_mine_block handle_message
    shiva_blockchain.Node.on_transaction shiva_blockchain.Chain.Defs.validate_tx
    shiva_blockchain.State.apply_transaction shiva_blockchain.State.check_transaction
    shiva_blockchain.Assoc.get_or lookup new_blockchain shiva_blockchain.Pow.mine_block
    shiva_blockchain.Chain.genesis_block shiva_blockchain.Types.new_genesis_block
    shiva_blockchain.Pow.mine_loop shiva_blockchain.Pow.meets_target has_prefix
    shiva_blockchain.Pow.next_attempt shiva_blockchain.Assoc.erase shiva_blockchain.Assoc.insert
    shiva_blockchain.Assoc.keys decimal_string shiva_blockchain.Base.Int.succ_int64 add64 sub64
    shiva_blockchain.Chain.Defs.apply_after shiva_blockchain.Chain.Defs.apply_at_position
    shiva_blockchain.Chain.Defs.apply_block_internal shiva_blockchain.Chain.Defs.apply_in_place
    shiva_blockchain.Chain.Defs.check_header shiva_blockchain.Chain.Defs.check_index
    shiva_blockchain.Chain.Defs.check_proof shiva_blockchain.Chain.Defs.commit_block
    shiva_blockchain.Chain.Defs.persist_block shiva_blockchain.Chain.Defs.reward_block
    shiva_blockchain.Chain.Defs.simulate shiva_blockchain.Chain.Defs.validate_block
    shiva_blockchain.Chain.apply_ignoring_errors shiva_blockchain.Chain.apply_mined
    shiva_blockchain.Chain.candidate_block shiva_blockchain.Chain.genesis_state
    shiva_blockchain.Chain.mine_after shiva_blockchain.Chain.start_genesis verify_tx add
    shiva_blockchain.Mempool.fetch pending pending_bound remove_included
    shiva_blockchain.Mempool.remove_keys tx_key shiva_blockchain.Pow.hash_matches_header
    shiva_blockchain.Pow.header_hash shiva_blockchain.Pow.valid_proof
    shiva_blockchain.State.apply_block_reward apply_transactions compute_state_root
    shiva_blockchain.State.credit shiva_blockchain.State.debit shiva_blockchain.State.pay_fee
    shiva_blockchain.Storage.get_block shiva_blockchain.Storage.put_block
    shiva_blockchain.Storage.read_file shiva_blockchain.Storage.save_meta
    shiva_blockchain.Storage.write_file shiva_blockchain.Types.genesis_txs
    shiva_blockchain.Types.hex_decode hex_encode
mined_at = refl

mined_height : mined_node.bc.store.height + 1 < u64_mod
mined_height = omega (arith, mined_at)

run_healthy_example :
    IsSynced mined_node.pool
    × (mined_tip.header.index ≡ mined_node.bc.store.height)
    × (compute_state_root toy mined_node.bc.state ≡ mined_tip.header.state_root)
run_healthy_example =
    run_healthy 3 toy (pos 5) nothing_stored config mined_node mined_tip refl starts two_steps
      mined_height mined_tip-found

-- A pool whose transaction has the wrong nonce.
abbrev stalled_node : Node
stalled_node = record {
  bc = chain_of_one;
  pool = add (record payment { nonce = 3 }) new_pool;
  peers = [];
  chain_id = "onex-mainnet-1";
}

tip_is_first : get_tip stalled_node.bc.store ≡ ok first_block
unfolding get_tip shiva_blockchain.Storage.get_block shiva_blockchain.Storage.read_file
tip_is_first = refl

nonce_is_wrong :
    apply_transactions toy funded (pending (pos 100) stalled_node.pool) bob
    ≡ err TxError.invalid_nonce
unfolding apply_transactions pending Mempool.fetch pending_bound add lookup
    shiva_blockchain.State.apply_transaction shiva_blockchain.Assoc.get_or
    shiva_blockchain.Assoc.insert tx_key decimal_string shiva_blockchain.State.check_transaction
    add64
nonce_is_wrong = refl

mine_rounds-stalled_example :
    mine_rounds 7 3 toy all_written in_order bob stalled_node ≡ stalled_node
mine_rounds-stalled_example =
    mine_rounds-stalled 7 3 toy all_written in_order bob stalled_node first_block
      TxError.invalid_nonce tip_is_first nonce_is_wrong
