-- ===== src/Chain.antt =====
-- internal/chain/chain.go: the blockchain object. Every method returns its result and the new object,
-- since what was written before an error stays written.
pub mod Defs
pub mod Apply
pub mod Safety
pub mod Supply
pub mod Consistent
pub mod Mined
pub mod Restart
pub mod Refinement
pub mod Gaps
use shiva_blockchain.Base.{
  ℕ, zero, suc, ◌+◌, ◌-◌, ◌*◌, ◌/◌, ◌%◌, ◌^◌, ◌≤◌, ◌<◌, String, ◌≡◌, refl, sym, ap, ◌∙◌, ◌≢◌, ◌↔◌,
  ◌⊎◌, inl, inr, Bool, true, false, not, ◌&&◌, ◌||◌, Option, none, some, List, [], ◌∷◌, ◌++◌, map,
  foldl, arith, str_eq, eq_iff, eq_refl, ltb, leb, ◌==◌, if◌then◌else◌, ltb→lt, lt→ltb, leb→le,
  ==_iff, tests, Bool-cases, Option-cases, length, take, length-append, length-take-le, u64_mod,
  add64, sub64, mul64, add64-eq-add, sub64-eq-sub, add64-lt, word_laws, Result, ok, err, ◌>>=◌,
  ◌>>◌, fail_if, or_fail, map_err, Result-cases, Bytes, codes, has_prefix, decimal, decimal_string,
  str_append,
}
use shiva_blockchain.Base.Int.{ℤ, pos, succ_int64}
use shiva_blockchain.Types.{
  Transaction, BlockHeader, Block, ChainState, GenesisConfig, new_genesis_block,
}
use shiva_blockchain.Crypto.{Primitives}
use shiva_blockchain.Pow.{Mining, mined, exhausted, panicked, mine_block, header_hash}
use shiva_blockchain.State.{
  apply_transaction, apply_transactions, apply_block_reward, compute_state_root, account,
}
use shiva_blockchain.Storage.{Store, Writes, all_written, get_tip, get_block, put_block}
use shiva_blockchain.Chain.Defs.{
  Blockchain, ApplyError, store_error, tx_error, panic, no_fuel, apply_block_internal,
}

-- `New` on an empty store: the genesis transactions, the state root, the proof of work. The errors
-- of `ApplyTransaction` are dropped, as in the code.
unfoldable pub apply_ignoring_errors : Primitives → ChainState → List Transaction → ChainState
apply_ignoring_errors c s [] = s
apply_ignoring_errors c s (tx ∷ txs) =
    apply_ignoring_errors c (elim (apply_transaction c s tx "") [ ok s' ↦ s' | err e ↦ s ]) txs

unfoldable pub genesis_state : Primitives → GenesisConfig → ChainState
genesis_state c g =
    apply_ignoring_errors c [] (new_genesis_block g.alloc g.difficulty (pos 0)).transactions

unfoldable pub genesis_block : Primitives → GenesisConfig → ℤ → Block
genesis_block c g now =
    let b = new_genesis_block g.alloc g.difficulty now in
    let header = record (b.header) { state_root = compute_state_root c (genesis_state c g) } in
    record b { header = header; hash = header_hash c header }

abbrev pub empty_chain : Store → GenesisConfig → Blockchain
empty_chain store g = record { store = store; state = []; genesis = g; block_reward = g.reward }

unfoldable pub start_genesis :
    Writes → Blockchain → Mining → Result ApplyError (Unit {0}) × Blockchain
start_genesis w bc (mined b) =
    let (r, store) = put_block w b bc.store in (map_err store_error r, record bc { store = store })
start_genesis w bc exhausted = (err no_fuel, bc)
start_genesis w bc panicked = (err panic, bc)

-- The rounds of `Iterate(from, fn)` that are left at index `i`, with `applyBlockInternal(b, false)`
-- for `fn`.
unfoldable pub replay_blocks :
    Primitives → ℕ → ℕ → Blockchain → Result ApplyError (Unit {0}) × Blockchain
replay_blocks c zero i bc = (ok tt, bc)
replay_blocks c (suc rounds) i bc = elim (get_block i bc.store) [
  | err e ↦ (err (store_error e), bc)
  | ok b ↦
      let (r, bc') = apply_block_internal c all_written false b bc in
      elim r [ ok _ ↦ replay_blocks c rounds (i + 1) bc' | err e ↦ (err e, bc') ]
]

-- `rebuildState`
unfoldable pub rebuild_state : Primitives → Blockchain → Result ApplyError (Unit {0}) × Blockchain
rebuild_state c bc = replay_blocks c (bc.store.height + 1) 0 (record bc { state = [] })

-- `New`, at the time `now`, with fuel for the proof of work.
unfoldable pub new_blockchain :
    ℕ → Primitives → Writes → ℤ → Store → GenesisConfig → Result ApplyError (Unit {0}) × Blockchain
unfolding start_genesis
new_blockchain fuel c w now store g =
    if store.height == 0
    then start_genesis w (record (empty_chain store g) { state = genesis_state c g })
        (mine_block fuel c (genesis_block c g now))
    else rebuild_state c (empty_chain store g)

-- `Height`, `GetBlock`, `Balance`, `Nonce`, `NetworkID`.
unfoldable pub height : Blockchain → ℕ
height bc = bc.store.height

unfoldable pub balance : Blockchain → String → ℕ
balance bc a = (account bc.state a).balance

unfoldable pub nonce_of : Blockchain → String → ℕ
nonce_of bc a = (account bc.state a).nonce

unfoldable pub network_id : Blockchain → ℕ
network_id bc = if bc.genesis.network_id == 0 then 9001 else bc.genesis.network_id

-- The block that `FinalizeAndMineBlock` gives to the miner.
unfoldable pub candidate_block :
    Primitives → Blockchain → Block → List Transaction → String → ChainState → Block
candidate_block c bc tip txs miner sim =
    let header : BlockHeader = record {
      index = add64 tip.header.index 1;
      timestamp = succ_int64 tip.header.timestamp;
      previous_hash = tip.hash;
      state_root = compute_state_root c sim;
      difficulty = bc.genesis.difficulty;
      miner = miner;
      nonce = 0;
    } in
    record { header = header; transactions = txs; hash = header_hash c header }

unfoldable pub apply_mined :
    Primitives → Writes → Blockchain → Mining → Result ApplyError Block × Blockchain
apply_mined c w bc exhausted = (err no_fuel, bc)
apply_mined c w bc panicked = (err panic, bc)
apply_mined c w bc (mined b) =
    let (r, bc') = apply_block_internal c w true b bc in
    elim r [ ok _ ↦ (ok b, bc') | err e ↦ (err e, bc') ]

unfoldable pub mine_after :
    ℕ
    → Primitives
    → Writes
    → List Transaction
    → String
    → Blockchain
    → Block
    → Result ApplyError Block × Blockchain
unfolding apply_mined
mine_after fuel c w txs miner bc tip = elim (apply_transactions c bc.state txs miner) [
  | err e ↦ (err (tx_error e), bc)
  | ok s ↦
      let sim = apply_block_reward s miner bc.block_reward in
      apply_mined c w bc (mine_block fuel c (candidate_block c bc tip txs miner sim))
]

-- `FinalizeAndMineBlock`
unfoldable pub finalize_and_mine_block :
    ℕ
    → Primitives
    → Writes
    → List Transaction
    → String
    → Blockchain
    → Result ApplyError Block × Blockchain
unfolding mine_after
finalize_and_mine_block fuel c w txs miner bc = elim (get_tip bc.store) [
  | err e ↦ (err (store_error e), bc)
  | ok tip ↦ mine_after fuel c w txs miner bc tip
]
