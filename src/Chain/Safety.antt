-- ===== src/Chain/Safety.antt =====
-- Errors and the state root of `ApplyBlock` in internal/chain/chain.go.
use shiva_blockchain.Base.{◌≡◌, refl, ◌⊎◌, inl, inr, Bool, true, arith, eq_iff, Result, ok, err}
use shiva_blockchain.Types.{Block, ChainState}
use shiva_blockchain.Crypto.{Primitives}
use shiva_blockchain.State.{compute_state_root}
use shiva_blockchain.Storage.{Writes, all_written, put_block, save_meta}
use shiva_blockchain.Chain.Defs.{
  Blockchain, ApplyError, validate_block, simulate, persist_block, apply_block,
}
use shiva_blockchain.Chain.Apply.{Ending, refused, known, applied, apply_block_internal-Ending}

pub persist_block-all_written :
    (persist : Bool) (b : Block) (bc : Blockchain)
    → (persist_block all_written persist b bc).0 ≡ ok tt
unfolding persist_block put_block save_meta
persist_block-all_written persist b bc = ground arith

-- Where the disk takes every write, a call that returns an error has changed nothing.
pub apply_block-atomic :
    (c : Primitives) (b : Block) (bc : Blockchain) {e : ApplyError}
    → (apply_block c all_written b bc).0 ≡ err e
    → (apply_block c all_written b bc).1 ≡ bc
unfolding apply_block
apply_block-atomic c b bc {e} h = go (apply_block_internal-Ending c all_written true b bc) h
  where
    go :
        {r : Result ApplyError (Unit {0}) × Blockchain}
        → Ending c all_written true b bc r
        → r.0 ≡ err e
        → r.1 ≡ bc
    go (refused f) h = refl
    go (known tip found at) h = refl
    go (applied tip sim found at good) h =
        cc (h, persist_block-all_written true b (record bc { state = sim }))

pub state-persist_block :
    (w : Writes) (persist : Bool) (b : Block) (bc : Blockchain)
    → (persist_block w persist b bc).1.state ≡ bc.state
unfolding persist_block
state-persist_block w persist b bc = ground arith

-- The state root of what `validate_block` accepts is the one in the header.
pub root-validate_block :
    (c : Primitives) (bc : Blockchain) (tip b : Block) {sim : ChainState}
    → validate_block c bc tip b ≡ ok sim
    → compute_state_root c sim ≡ b.header.state_root
unfolding validate_block
root-validate_block c bc tip b {sim} h =
    ground (arith, eq_iff b.header.state_root (compute_state_root c sim))

pub simulate-validate_block :
    (c : Primitives) (bc : Blockchain) (tip b : Block) {sim : ChainState}
    → validate_block c bc tip b ≡ ok sim
    → simulate c bc.block_reward bc.state b ≡ ok sim
unfolding validate_block
simulate-validate_block c bc tip b {sim} h = ground arith

-- A call either leaves the state alone, or leaves the state whose root the block's header names,
-- even where writing the block to disk fails.
pub apply_block-state_root :
    (c : Primitives) (w : Writes) (b : Block) (bc : Blockchain)
    → ((apply_block c w b bc).1.state ≡ bc.state)
      ⊎ (compute_state_root c (apply_block c w b bc).1.state ≡ b.header.state_root)
unfolding apply_block
apply_block-state_root c w b bc = go (apply_block_internal-Ending c w true b bc)
  where
    go :
        {r : Result ApplyError (Unit {0}) × Blockchain}
        → Ending c w true b bc r
        → (r.1.state ≡ bc.state) ⊎ (compute_state_root c r.1.state ≡ b.header.state_root)
    go (refused f) = inl refl
    go (known tip found at) = inl refl
    go (applied tip sim found at good) = inr (
        rw (state-persist_block w true b (record bc { state = sim }))
          (root-validate_block c bc tip b good))
