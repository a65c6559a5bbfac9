-- ===== src/Pow/Nonces.antt =====
-- The nonces that `MineBlock` of internal/consensus/pow.go goes through.
use shiva_blockchain.Base.{
  ℕ, zero, suc, ◌+◌, ◌-◌, ◌%◌, ◌^◌, ◌≤◌, ◌<◌, String, ◌≡◌, refl, sym, ap, ◌∙◌, ◌↔◌, inl, inr, true,
  false, Option, none, some, [], ◌∷◌, arith, Bool-cases, u64_mod, add64, Bytes, codes, has_prefix,
}
use shiva_blockchain.Types.{Block}
use shiva_blockchain.Crypto.{Primitives, hash, block_header_payload}
use shiva_blockchain.Pow.{zeros, header_hash, meets_target, next_attempt, mined, mine_block}
use shiva_blockchain.Pow.Search.{attempt, is_found, IsFirst, mine_block-IsFirst}

-- The character at a position of a text.
unfoldable pub char_of : ℕ → Bytes → Option ℕ
char_of i [] = none
char_of zero (ch ∷ l) = some ch
char_of (suc i) (ch ∷ l) = char_of i l

-- The first `d` characters are the digit zero.
abbrev pub IsZeroed : ℕ → String → Type 0
IsZeroed d h = (i : ℕ) → i < d → char_of i (codes h) ≡ some b'0'

-- The block with the nonce `n`, and the hash of its payload under it.
abbrev pub with_nonce : Primitives → Block → ℕ → Block
with_nonce c b n =
    let header = record b.header { nonce = n } in
    record b { header = header; hash = hash c (block_header_payload header) }

-- The nonce that comes `k + 1` steps after `n`, modulo 2 ^ 64.
abbrev pub nonce_after : ℕ → ℕ → ℕ
nonce_after n k = (n + k + 1) % u64_mod

zeros-ahead :
    (d : ℕ) (l : Bytes) → has_prefix l (zeros d) ≡ true → (i : ℕ) → i < d → char_of i l ≡ some b'0'
unfolding has_prefix char_of
zeros-ahead zero l h i lt = absurd (omega arith)
zeros-ahead (suc d) [] h i lt = ground arith
zeros-ahead (suc d) (ch ∷ l) h zero lt = ground (arith, h)
zeros-ahead (suc d) (ch ∷ l) h (suc i) lt = zeros-ahead d l (ground (arith, h)) i (omega arith)

ahead-zeros :
    (d : ℕ) (l : Bytes)
    → ((i : ℕ) → i < d → char_of i l ≡ some b'0')
    → has_prefix l (zeros d) ≡ true
unfolding has_prefix char_of
ahead-zeros zero l h = refl
ahead-zeros (suc d) [] h = absurd (ground (arith, h 0 (omega arith)))
ahead-zeros (suc d) (ch ∷ l) h =
    ground (arith, h 0 (omega arith), ahead-zeros d l (λ i lt. h (suc i) (omega arith)))

meets_target-IsZeroed : (d : ℕ) (h : String) → (meets_target d h ≡ true) ↔ IsZeroed d h
unfolding meets_target
meets_target-IsZeroed d h = (zeros-ahead d (codes h), ahead-zeros d (codes h))

attempt-with_nonce :
    (k : ℕ) (c : Primitives) (b : Block)
    → b.header.nonce < u64_mod
    → attempt k c b ≡ with_nonce c b (nonce_after b.header.nonce k)
unfolding attempt next_attempt header_hash add64
attempt-with_nonce zero c b small = ap (with_nonce c b) (omega arith)
attempt-with_nonce (suc k) c b small =
    attempt-with_nonce k c (next_attempt c b) (omega arith) ∙ ap (with_nonce c b) (omega arith)

-- The first success up to one that is known.
attempt-least :
    (m : ℕ) (c : Primitives) (b : Block)
    → is_found (attempt m c b) ≡ true
    → (k : ℕ) × (k ≤ m) × IsFirst k c b
unfolding attempt
attempt-least zero c b h =
    (0, omega arith, record { found = h; none_before = λ i lt. absurd (omega arith) })
attempt-least (suc m) c b h = elim (Bool-cases (is_found (next_attempt c b))) [
  | inl now ↦ (0, omega arith, record { found = now; none_before = λ i lt. absurd (omega arith) })
  | inr later ↦
      let (k, le, first) = attempt-least m c (next_attempt c b) h in
      (
        suc k,
        omega arith,
        record {
          found = first.found;
          none_before = λ i lt.
              elim i as (λ j. j < suc k → is_found (attempt j c b) ≡ false) [
                | zero ↦ λ _. later
                | suc j ↦ λ below. first.none_before j (omega arith)
              ]
                lt;
        },
      )
]

-- If some nonce gives the block a hash with as many zeros in front as its difficulty, which is below
-- 2 ^ 63, `MineBlock` returns within 2 ^ 64 rounds: it goes through the nonces in their order, from
-- the one after the block's own and from 0 again after 2 ^ 64 - 1, and returns the block with the
-- first of them whose hash has these zeros, with that hash, and with nothing else changed.
pub mine_block-finds :
    (fuel n : ℕ) (c : Primitives) (b : Block)
    → b.header.difficulty < 2 ^ 63
    → b.header.nonce < u64_mod
    → n < u64_mod
    → IsZeroed b.header.difficulty (with_nonce c b n).hash
    → u64_mod ≤ fuel
    → (k : ℕ) × (k < u64_mod)
      × (mine_block fuel c b ≡ mined (with_nonce c b (nonce_after b.header.nonce k)))
      × IsZeroed b.header.difficulty (with_nonce c b (nonce_after b.header.nonce k)).hash
      × ((i : ℕ)
          → i < k
          → ¬ IsZeroed b.header.difficulty (with_nonce c b (nonce_after b.header.nonce i)).hash)
mine_block-finds fuel n c b low small fits zeroed enough =
    let m = (n + u64_mod - (b.header.nonce + 1)) % u64_mod in
    let reached : nonce_after b.header.nonce m ≡ n = omega arith in
    let bound : m < u64_mod = omega arith in
    let target = meets_target-IsZeroed b.header.difficulty in
    let hits : is_found (attempt m c b) ≡ true =
      rw (attempt-with_nonce m c b small, reached) ((target _).1 zeroed) in
    let (k, le, first) = attempt-least m c b hits in
    let there = attempt-with_nonce k c b small in
    (
      k,
      omega arith,
      mine_block-IsFirst fuel k c b (omega arith) low first ∙ ap mined there,
      (target _).0 (sym (ap is_found there) ∙ first.found),
      λ i lt again. ground (
        arith,
        (target _).1 again,
        ap is_found (attempt-with_nonce i c b small),
        first.none_before i lt,
      ),
    )
