-- ===== src/Tests/Chain.antt =====
-- Blocks over the sample chain.
use shiva_blockchain.Base.{
  ℕ, zero, suc, ◌+◌, ◌^◌, ◌<◌, String, ◌≡◌, refl, ◌≢◌, ◌⊎◌, some, [], ◌∷◌, arith, eq_iff, u64_mod,
  add64, sub64, ok, err, ◌>>=◌, Bytes, has_prefix, decimal_string,
}
use shiva_blockchain.Base.Int.{pos}
use shiva_blockchain.Types.{Transaction, BlockHeader, Block, ChainState}
use shiva_blockchain.Crypto.{hash}
use shiva_blockchain.State.{apply_transactions, apply_block_reward, compute_state_root, account}
use shiva_blockchain.State.Supply.{supply}
use shiva_blockchain.Pow.{
  header_hash, mine_block, mined, next_attempt, valid_proof, hash_matches_header,
}
use shiva_blockchain.Pow.Nonces.{char_of, IsZeroed, with_nonce, nonce_after, mine_block-finds}
use shiva_blockchain.Storage.{Disk, Store, Writes, all_written, get_block, get_tip}
use shiva_blockchain.Chain.{genesis_state, new_blockchain, candidate_block, finalize_and_mine_block}
use shiva_blockchain.Chain.Defs.{
  Blockchain, ApplyError, not_next, check_header, validate_block, apply_block,
  invalid_previous_hash, simulate,
}
use shiva_blockchain.Chain.Safety.{apply_block-atomic, apply_block-state_root}
use shiva_blockchain.Chain.Supply.{supply-apply_block, sum_alloc}
use shiva_blockchain.Chain.Mined.{IsExtended, finalize_and_mine_block-IsExtended}
use shiva_blockchain.Chain.Restart.{restart_fails}
use shiva_blockchain.Chain.Gaps.{index_gap_accepted, own_difficulty_accepted}
use shiva_blockchain.Tests.Samples.{
  toy, alice, bob, config, first_block, funded, one_block, chain_of_one, payment,
}
use shiva_blockchain.State.Ledger.{IsSized}
use shiva_blockchain.Chain.Refinement.{post_block, simulate-post_block}

-- The state after the payment in a block that the second account mined.
abbrev paid_state : ChainState
paid_state =
    (alice, record { balance = 89; nonce = 1 }) ∷ (bob, record { balance = 11; nonce = 0 }) ∷ []

abbrev candidate : Block
candidate =
    candidate_block toy chain_of_one first_block (payment ∷ []) bob
      (apply_block_reward paid_state bob 50)

abbrev second_block : Block
second_block = next_attempt toy candidate

abbrev no_hash : String
no_hash = ""

first-has_hash : first_block.hash ≢ no_hash
first-has_hash h = ground (arith, eq_iff "01" "")

hash-nonempty : (payload : Bytes) → hash toy payload ≢ ""
unfolding shiva_blockchain.Types.hex_encode decimal_string
hash-nonempty payload h = first-has_hash h

payment_runs : apply_transactions toy funded (payment ∷ []) bob ≡ ok paid_state
unfolding apply_transactions shiva_blockchain.State.apply_transaction
    shiva_blockchain.State.check_transaction shiva_blockchain.Assoc.get_or
    shiva_blockchain.Assoc.lookup add64 shiva_blockchain.Crypto.verify_tx
    shiva_blockchain.Types.hex_decode shiva_blockchain.State.pay_fee shiva_blockchain.State.credit
    shiva_blockchain.Assoc.insert shiva_blockchain.State.debit sub64
payment_runs = refl

second_is_mined : mine_block 3 toy candidate ≡ mined second_block
unfolding mine_block candidate_block shiva_blockchain.Pow.mine_loop
    shiva_blockchain.Pow.meets_target has_prefix next_attempt header_hash
    shiva_blockchain.Types.hex_encode decimal_string
second_is_mined = refl

tip_is_first : get_tip one_block ≡ ok first_block
unfolding get_tip get_block shiva_blockchain.Storage.read_file
tip_is_first = refl

finalize_and_mine_block-IsExtended_example :
    (after : Blockchain) × (finalize_and_mine_block 3 toy all_written
        (payment ∷ [])
        bob
        chain_of_one
      ≡ (ok second_block, after))
    × IsExtended chain_of_one first_block (apply_block_reward paid_state bob 50) second_block after
finalize_and_mine_block-IsExtended_example =
    finalize_and_mine_block-IsExtended 3 toy chain_of_one first_block (payment ∷ []) bob paid_state
      second_block hash-nonempty tip_is_first refl (omega arith) payment_runs second_is_mined

-- A block that links to another tip.
abbrev stray : Block
stray = record first_block {
  header = record (first_block.header) { index = 1; previous_hash = "ff"; state_root = "01" };
}

stray_refused :
    (apply_block toy all_written stray chain_of_one).0 ≡ err ApplyError.invalid_previous_hash
unfolding apply_block shiva_blockchain.Chain.Defs.apply_block_internal get_tip get_block
    shiva_blockchain.Storage.read_file shiva_blockchain.Chain.Defs.check_index add64 validate_block
    check_header
stray_refused = refl

apply_block-atomic_example : (apply_block toy all_written stray chain_of_one).1 ≡ chain_of_one
apply_block-atomic_example = apply_block-atomic toy stray chain_of_one stray_refused

apply_block-state_root_example :
    ((apply_block toy all_written second_block chain_of_one).1.state ≡ funded)
    ⊎ (compute_state_root toy (apply_block toy all_written second_block chain_of_one).1.state
        ≡ second_block.header.state_root)
apply_block-state_root_example = apply_block-state_root toy all_written second_block chain_of_one

bob-is_named : bob ≢ ""
bob-is_named h = ground (arith, eq_iff bob "")

alice-is_named : alice ≢ ""
alice-is_named h = ground (arith, eq_iff alice "")

second-index : 0 < second_block.header.index
unfolding next_attempt candidate_block add64
second-index = omega arith

second-miner : second_block.header.miner ≢ ""
unfolding next_attempt candidate_block
second-miner h = bob-is_named h

second-fits : supply funded + 50 < u64_mod
unfolding supply shiva_blockchain.Assoc.Laws.sum_by
second-fits = omega arith

second-transactions : second_block.transactions ≡ payment ∷ []
unfolding next_attempt candidate_block
second-transactions = refl

supply-apply_block_example :
    ((apply_block toy all_written second_block chain_of_one).1.state ≡ funded)
    ⊎ (supply (apply_block toy all_written second_block chain_of_one).1.state ≡ supply funded + 50)
supply-apply_block_example =
    supply-apply_block toy all_written second_block chain_of_one second-index second-miner
      (rw second-transactions
        (record { has_sender = alice-is_named; no_overflow = omega arith }, tt))
      second-fits

alloc_small : sum_alloc config.alloc < u64_mod
unfolding sum_alloc
alloc_small = omega arith

difficulty_small : candidate.header.difficulty < 2 ^ 63
unfolding candidate_block
difficulty_small = omega arith

nonce_small : candidate.header.nonce < u64_mod
unfolding candidate_block
nonce_small = omega arith

seven-IsZeroed : IsZeroed candidate.header.difficulty (with_nonce toy candidate 7).hash
unfolding candidate_block char_of shiva_blockchain.Types.hex_encode decimal_string
seven-IsZeroed zero lt = refl
seven-IsZeroed (suc i) lt = absurd (omega arith)

mine_block-finds_example :
    (k : ℕ) × (k < u64_mod)
    × (mine_block (2 ^ 64) toy candidate
        ≡ mined (with_nonce toy candidate (nonce_after candidate.header.nonce k)))
    × IsZeroed candidate.header.difficulty
        (with_nonce toy candidate (nonce_after candidate.header.nonce k)).hash
    × ((i : ℕ)
        → i < k
        → ¬ IsZeroed candidate.header.difficulty
            (with_nonce toy candidate (nonce_after candidate.header.nonce i)).hash)
mine_block-finds_example =
    mine_block-finds (2 ^ 64) 7 toy candidate difficulty_small nonce_small (omega arith)
      seven-IsZeroed (omega arith)

-- A block over the first with another hash, and a store that holds both.
abbrev later_block : Block
later_block = record {
  header = record (first_block.header) { index = 1; previous_hash = "01" };
  transactions = [];
  hash = "02";
}

abbrev two_blocks : Store
two_blocks = record {
  disk = record { blocks = (1, later_block) ∷ (0, first_block) ∷ []; meta = some 1 };
  height = 1;
}

has_first : get_block 0 two_blocks ≡ ok first_block
unfolding get_block shiva_blockchain.Storage.read_file
has_first = refl

has_later : get_tip two_blocks ≡ ok later_block
unfolding get_tip get_block shiva_blockchain.Storage.read_file
has_later = refl

restart_fails_example :
    (new_blockchain 3 toy all_written (pos 9) two_blocks config).0 ≡ err not_next
restart_fails_example =
    restart_fails 3 toy all_written (pos 9) two_blocks config first_block later_block (omega arith)
      has_first has_later refl (omega arith) (omega arith) (λ h. ground (arith, eq_iff "01" "02"))

-- A block with index 9 right after the first.
abbrev far_block : Block
far_block = record {
  header = record (first_block.header) {
    index = 9;
    previous_hash = "01";
    state_root = "01";
    miner = "";
  };
  transactions = [];
  hash = "01";
}

far-validate : validate_block toy chain_of_one first_block far_block ≡ ok funded
unfolding validate_block check_header shiva_blockchain.Chain.Defs.check_proof valid_proof
    shiva_blockchain.Pow.meets_target has_prefix hash_matches_header header_hash
    shiva_blockchain.Types.hex_encode decimal_string shiva_blockchain.Chain.Defs.simulate
    apply_transactions compute_state_root shiva_blockchain.Chain.Defs.reward_block
    apply_block_reward
far-validate = refl

index_gap_accepted_example :
    ((apply_block toy all_written far_block chain_of_one).0 ≡ ok tt)
    × ((apply_block toy all_written far_block chain_of_one).1.store.height ≡ 9)
    × (get_block 4 (apply_block toy all_written far_block chain_of_one).1.store
        ≡ get_block 4 one_block)
index_gap_accepted_example =
    index_gap_accepted toy chain_of_one first_block far_block 4 tip_is_first (omega arith)
      (omega arith) (omega arith) far-validate (omega arith)

-- The next block, without work.
abbrev free_block : Block
free_block = record far_block { header = record (far_block.header) { index = 1; difficulty = 0 } }

free-hash : free_block.hash ≡ header_hash toy free_block.header
unfolding header_hash shiva_blockchain.Types.hex_encode decimal_string
free-hash = refl

free-runs : simulate toy 50 funded free_block ≡ ok funded
unfolding simulate apply_transactions shiva_blockchain.Chain.Defs.reward_block apply_block_reward
free-runs = refl

free-root : free_block.header.state_root ≡ compute_state_root toy funded
unfolding compute_state_root shiva_blockchain.Types.hex_encode decimal_string
free-root = refl

free-next : free_block.header.index ≡ add64 first_block.header.index 1
unfolding add64
free-next = refl

own_difficulty_accepted_example :
    ((apply_block toy all_written free_block chain_of_one).0 ≡ ok tt)
    × (get_tip (apply_block toy all_written free_block chain_of_one).1.store ≡ ok free_block)
    × ((apply_block toy all_written free_block chain_of_one).1.state ≡ funded)
own_difficulty_accepted_example =
    own_difficulty_accepted toy chain_of_one first_block free_block tip_is_first free-next refl refl
      refl free-hash (λ h. ground (arith, eq_iff "01" "")) free-runs free-root (omega arith)

funded-IsSized : IsSized (account funded)
unfolding shiva_blockchain.Assoc.get_or shiva_blockchain.Assoc.lookup
funded-IsSized a = ground (arith, eq_iff alice a)

simulate-post_block_example :
    (simulate toy 50 funded second_block >>= λ s. ok (account s))
    ≡ post_block toy 50 (account funded) second_block
simulate-post_block_example = simulate-post_block toy 50 funded second_block funded-IsSized
