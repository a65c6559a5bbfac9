-- ===== src/Chain/Defs.antt =====
-- The object of internal/chain/chain.go and the checks of `applyBlockInternal`.
use shiva_blockchain.Base.{
  ℕ, String, Bool, true, not, ◌&&◌, ◌||◌, List, [], ◌∷◌, str_eq, ltb, leb, ◌==◌, if◌then◌else◌,
  add64, Result, ok, err, ◌>>=◌, ◌>>◌, fail_if, or_fail, map_err,
}
use shiva_blockchain.Types.{Transaction, Block, ChainState, GenesisConfig}
use shiva_blockchain.Crypto.{Primitives}
use shiva_blockchain.Pow.{valid_proof, hash_matches_header}
use shiva_blockchain.State.{
  TxError, apply_transaction, apply_transactions, apply_block_reward, compute_state_root,
}
use shiva_blockchain.Storage.{Store, StoreError, Writes, get_tip, put_block}

pub record Blockchain : Type 0 where
  pub store : Store
  pub state : ChainState
  pub genesis : GenesisConfig
  pub block_reward : ℕ

pub data ApplyError : Type 0 where
  store_error : StoreError → ApplyError
  not_next invalid_previous_hash invalid_proof_of_work state_root_mismatch : ApplyError
  tx_error : TxError → ApplyError
  -- The process panics, or a loop has used up its fuel.
  panic no_fuel : ApplyError

-- Whether a block that passes the first test is to be applied, or is the tip already.
pub data Position : Type 0 where
  to_apply already_tip : Position

-- The test on the index of a block.
unfoldable pub check_index : Block → Block → Result ApplyError Position
check_index tip b =
    if b.header.index == add64 tip.header.index 1
    then ok to_apply
    else if b.header.index == 0 && (tip.header.index == 0 && not (str_eq b.hash tip.hash))
    then ok to_apply
    else if leb b.header.index tip.header.index
    then (if str_eq b.hash tip.hash then ok already_tip else err not_next)
    else ok to_apply

unfoldable pub check_proof : Primitives → Block → Result ApplyError (Unit {0})
check_proof c b = or_fail (valid_proof b) panic >>= λ valid.
    fail_if (not valid || not (hash_matches_header c b)) invalid_proof_of_work

-- The test on the previous hash and on the proof of work.
unfoldable pub check_header : Primitives → Block → Block → Result ApplyError (Unit {0})
check_header c tip b =
    if ltb 0 b.header.index
    then fail_if (not (str_eq b.header.previous_hash tip.hash)) invalid_previous_hash
      >> check_proof c b
    else ok tt

-- `if b.Header.Index > 0 { ApplyBlockReward(...) }`
unfoldable pub reward_block : ℕ → Block → ChainState → ChainState
reward_block reward b s =
    if ltb 0 b.header.index then apply_block_reward s b.header.miner reward else s

-- The transactions and the reward, on a copy of the state.
unfoldable pub simulate : Primitives → ℕ → ChainState → Block → Result ApplyError ChainState
simulate c reward s b =
    map_err tx_error (apply_transactions c s b.transactions b.header.miner) >>= λ sim.
    ok (reward_block reward b sim)

-- Everything that `applyBlockInternal` tests of a block to apply.
unfoldable pub validate_block :
    Primitives → Blockchain → Block → Block → Result ApplyError ChainState
validate_block c bc tip b =
    check_header c tip b
    >> (simulate c bc.block_reward bc.state b >>= λ sim.
        fail_if (not (str_eq b.header.state_root (compute_state_root c sim))) state_root_mismatch
        >> ok sim)

-- The loop over the transactions that writes `bc.state`, and stops where it meets an error.
unfoldable pub apply_in_place :
    Primitives → ChainState → List Transaction → String → Result TxError (Unit {0}) × ChainState
apply_in_place c s [] miner = (ok tt, s)
apply_in_place c s (tx ∷ txs) miner = elim (apply_transaction c s tx miner) [
  | ok s' ↦ apply_in_place c s' txs miner
  | err e ↦ (err e, s)
]

-- `if persist { return bc.store.PutBlock(b) }`
unfoldable pub persist_block :
    Writes → Bool → Block → Blockchain → Result ApplyError (Unit {0}) × Blockchain
persist_block w persist b bc =
    let (r, store) = put_block w b bc.store in
    if persist then (map_err store_error r, record bc { store = store }) else (ok tt, bc)

-- The part of `applyBlockInternal` that writes the state.
unfoldable pub commit_block :
    Primitives → Writes → Bool → Block → Blockchain → Result ApplyError (Unit {0}) × Blockchain
commit_block c w persist b bc =
    let (r, s) = apply_in_place c bc.state b.transactions b.header.miner in
    elim r [
      | ok _ ↦ persist_block w persist b (record bc { state = reward_block bc.block_reward b s })
      | err e ↦ (err (tx_error e), record bc { state = s })
    ]

unfoldable pub apply_at_position :
    Primitives
    → Writes
    → Bool
    → Block
    → Block
    → Blockchain
    → Position
    → Result ApplyError (Unit {0}) × Blockchain
apply_at_position c w persist tip b bc already_tip = (ok tt, bc)
apply_at_position c w persist tip b bc to_apply = elim (validate_block c bc tip b) [
  | ok sim ↦ commit_block c w persist b bc
  | err e ↦ (err e, bc)
]

unfoldable pub apply_after :
    Primitives
    → Writes
    → Bool
    → Block
    → Blockchain
    → Block
    → Result ApplyError (Unit {0}) × Blockchain
unfolding apply_at_position
apply_after c w persist b bc tip = elim (check_index tip b) [
  | ok position ↦ apply_at_position c w persist tip b bc position
  | err e ↦ (err e, bc)
]

-- `applyBlockInternal`
unfoldable pub apply_block_internal :
    Primitives → Writes → Bool → Block → Blockchain → Result ApplyError (Unit {0}) × Blockchain
unfolding apply_after
apply_block_internal c w persist b bc = elim (get_tip bc.store) [
  | ok tip ↦ apply_after c w persist b bc tip
  | err e ↦ (err (store_error e), bc)
]

-- `ApplyBlock`
unfoldable pub apply_block :
    Primitives → Writes → Block → Blockchain → Result ApplyError (Unit {0}) × Blockchain
apply_block c w b bc = apply_block_internal c w true b bc

-- `ValidateTx`
unfoldable pub validate_tx : Primitives → Blockchain → Transaction → Result TxError (Unit {0})
validate_tx c bc tx = apply_transaction c bc.state tx "" >>= λ sim. ok tt
