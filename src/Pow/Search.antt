-- ===== src/Pow/Search.antt =====
-- The nonce search of `MineBlock` in internal/consensus/pow.go.
use shiva_blockchain.Base.{
  ℕ, zero, suc, ◌^◌, ◌<◌, ◌≡◌, ◌≢◌, inl, inr, Bool, true, false, some, arith, eq_iff, Bool-cases,
  Bytes,
}
use shiva_blockchain.Types.{Block}
use shiva_blockchain.Crypto.{hash, Primitives, block_header_payload}
use shiva_blockchain.Pow.{
  header_hash, meets_target, next_attempt, mined, mine_loop, mine_block, repeat_panics, valid_proof,
  hash_matches_header,
}

-- The block after `k + 1` rounds of the loop.
unfoldable pub attempt : ℕ → Primitives → Block → Block
attempt zero c b = next_attempt c b
attempt (suc k) c b = attempt k c (next_attempt c b)

-- An attempt of a block is the block with another nonce and the hash that belongs to it.
pub record IsAttempt (c : Primitives) (b b' : Block) : Type 0 where
  pub transactions : b'.transactions ≡ b.transactions
  pub index : b'.header.index ≡ b.header.index
  pub timestamp : b'.header.timestamp ≡ b.header.timestamp
  pub previous_hash : b'.header.previous_hash ≡ b.header.previous_hash
  pub state_root : b'.header.state_root ≡ b.header.state_root
  pub difficulty : b'.header.difficulty ≡ b.header.difficulty
  pub miner : b'.header.miner ≡ b.header.miner
  pub hashed : b'.hash ≡ header_hash c b'.header

next_attempt-IsAttempt : (c : Primitives) (b : Block) → IsAttempt c b (next_attempt c b)
unfolding next_attempt
next_attempt-IsAttempt c b = ground arith

IsAttempt-trans :
    (c : Primitives) (a b d : Block) → IsAttempt c a b → IsAttempt c b d → IsAttempt c a d
IsAttempt-trans c a b d h k = ground arith

pub attempt-IsAttempt : (k : ℕ) (c : Primitives) (b : Block) → IsAttempt c b (attempt k c b)
unfolding attempt
attempt-IsAttempt zero c b = next_attempt-IsAttempt c b
attempt-IsAttempt (suc k) c b =
    IsAttempt-trans c b (next_attempt c b) (attempt k c (next_attempt c b))
      (next_attempt-IsAttempt c b) (attempt-IsAttempt k c (next_attempt c b))

-- Whether a block meets the difficulty that its header names.
abbrev pub is_found : Block → Bool
is_found b = meets_target b.header.difficulty b.hash

-- The `k`-th attempt is the first that meets the target.
pub record IsFirst (k : ℕ) (c : Primitives) (b : Block) : Type 0 where
  pub found : is_found (attempt k c b) ≡ true
  pub none_before : (i : ℕ) → i < k → is_found (attempt i c b) ≡ false

-- With more fuel than attempts before the first success, the loop ends there and nowhere else.
pub mine_loop-IsFirst :
    (fuel k : ℕ) (c : Primitives) (b : Block)
    → k < fuel
    → IsFirst k c b
    → mine_loop fuel c b ≡ mined (attempt k c b)
unfolding mine_loop attempt
mine_loop-IsFirst zero k c b lt first = absurd (omega arith)
mine_loop-IsFirst (suc fuel) zero c b lt first = ground (arith, first.found)
mine_loop-IsFirst (suc fuel) (suc k) c b lt first =
    let later : IsFirst k c (next_attempt c b) = record {
      found = first.found;
      none_before = λ i h. first.none_before (suc i) (omega arith);
    } in
    ground (
      arith,
      first.none_before 0 (omega arith),
      mine_loop-IsFirst fuel k c (next_attempt c b) (omega arith) later,
    )

-- What the loop returns is an attempt that meets the target.
pub mine_loop-mined :
    (fuel : ℕ) (c : Primitives) (b : Block) {b' : Block}
    → mine_loop fuel c b ≡ mined b'
    → IsAttempt c b b' × (is_found b' ≡ true)
unfolding mine_loop
mine_loop-mined zero c b h = ground arith
mine_loop-mined (suc fuel) c b {b'} h = elim (Bool-cases (is_found (next_attempt c b))) [
  | inl done ↦
      let e : next_attempt c b ≡ b' = ground (arith, done) in
      rw (← e) (next_attempt-IsAttempt c b, done)
  | inr more ↦
      let ih = mine_loop-mined fuel c (next_attempt c b) {b' = b'} (ground (arith, more)) in
      (IsAttempt-trans c b (next_attempt c b) b' (next_attempt-IsAttempt c b) ih.0, ih.1)
]

pub mine_block-mined :
    (fuel : ℕ) (c : Primitives) (b : Block) {b' : Block}
    → mine_block fuel c b ≡ mined b'
    → IsAttempt c b b' × (is_found b' ≡ true)
unfolding mine_block
mine_block-mined fuel c b {b'} h = mine_loop-mined fuel c b {b' = b'} (ground arith)

pub mine_block-IsFirst :
    (fuel k : ℕ) (c : Primitives) (b : Block)
    → k < fuel
    → b.header.difficulty < 2 ^ 63
    → IsFirst k c b
    → mine_block fuel c b ≡ mined (attempt k c b)
unfolding mine_block
mine_block-IsFirst fuel k c b lt small first = ground (arith, mine_loop-IsFirst fuel k c b lt first)

-- A block that `MineBlock` returns passes `ValidProof` and `HashMatchesHeader`, and differs from the
-- block it was given in the nonce and the hash alone. No payload may hash to the empty text.
pub mine_block-valid :
    (fuel : ℕ) (c : Primitives) (b : Block) {b' : Block}
    → ((payload : Bytes) → hash c payload ≢ "")
    → mine_block fuel c b ≡ mined b'
    → IsAttempt c b b' × (valid_proof b' ≡ some true) × (hash_matches_header c b' ≡ true)
unfolding mine_block valid_proof hash_matches_header header_hash
mine_block-valid fuel c b {b'} nonempty h =
    let small : repeat_panics b.header.difficulty ≡ false = ground arith in
    let run : mine_loop fuel c b ≡ mined b' = ground (arith, small) in
    let got = mine_loop-mined fuel c b run in
    let hashed = got.0.hashed in
    (
      got.0,
      ground (
        arith,
        small,
        got.1,
        got.0.difficulty,
        hashed,
        eq_iff b'.hash "",
        nonempty (block_header_payload b'.header),
      ),
      ground (arith, hashed, eq_iff (hash c (block_header_payload b'.header)) b'.hash),
    )
