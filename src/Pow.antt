-- ===== src/Pow.antt =====
-- internal/consensus/pow.go: the search for a proof of work and its check.
pub mod Search
pub mod Nonces
use shiva_blockchain.Base.{
  ℕ, zero, suc, ◌+◌, ◌-◌, ◌*◌, ◌/◌, ◌%◌, ◌^◌, ◌≤◌, ◌<◌, String, ◌≡◌, refl, sym, ap, ◌∙◌, ◌≢◌, ◌↔◌,
  ◌⊎◌, inl, inr, Bool, true, false, not, ◌&&◌, ◌||◌, Option, none, some, List, [], ◌∷◌, ◌++◌, map,
  foldl, arith, str_eq, eq_iff, eq_refl, ltb, leb, ◌==◌, if◌then◌else◌, ltb→lt, lt→ltb, leb→le,
  ==_iff, tests, Bool-cases, Option-cases, length, take, length-append, length-take-le, u64_mod,
  add64, sub64, mul64, add64-eq-add, sub64-eq-sub, add64-lt, word_laws, Result, ok, err, ◌>>=◌,
  ◌>>◌, fail_if, or_fail, map_err, Result-cases, Bytes, codes, has_prefix, decimal, decimal_string,
  str_append,
}
use shiva_blockchain.Types.{Block, BlockHeader}
use shiva_blockchain.Crypto.{Primitives, hash, block_header_payload}

abbrev pub zeros : ℕ → Bytes
zeros zero = []
zeros (suc n) = b'0' ∷ zeros n

-- The hash that the header of a block has.
unfoldable pub header_hash : Primitives → BlockHeader → String
header_hash c h = hash c (block_header_payload h)

-- `strings.HasPrefix(b.Hash, strings.Repeat("0", int(difficulty)))`
unfoldable pub meets_target : ℕ → String → Bool
meets_target difficulty h = has_prefix (codes h) (zeros difficulty)

-- One round of `MineBlock`: the next nonce, which wraps, and the hash under it.
unfoldable pub next_attempt : Primitives → Block → Block
next_attempt c b =
    let header = record b.header { nonce = add64 b.header.nonce 1 } in
    record b { header = header; hash = header_hash c header }

-- `int(difficulty)` is negative from 2 ^ 63 on, and `strings.Repeat` panics on a negative count.
abbrev pub repeat_panics : ℕ → Bool
repeat_panics difficulty = leb (2 ^ 63) difficulty

-- How `MineBlock` ends: `exhausted` means that the fuel ran out.
pub data Mining : Type 0 where
  mined : Block → Mining
  exhausted panicked : Mining

-- The loop of `MineBlock`.
unfoldable pub mine_loop : ℕ → Primitives → Block → Mining
mine_loop zero c b = exhausted
mine_loop (suc fuel) c b =
    let b' = next_attempt c b in
    let rest = mine_loop fuel c b' in
    if meets_target b'.header.difficulty b'.hash then mined b' else rest

-- `MineBlock`
unfoldable pub mine_block : ℕ → Primitives → Block → Mining
mine_block fuel c b =
    let search_result = mine_loop fuel c b in
    if repeat_panics b.header.difficulty then panicked else search_result

-- `ValidProof`; `none` is the panic.
unfoldable pub valid_proof : Block → Option Bool
valid_proof b =
    if str_eq b.hash ""
    then some false
    else if repeat_panics b.header.difficulty
    then none
    else some (meets_target b.header.difficulty b.hash)

-- `HashMatchesHeader`
unfoldable pub hash_matches_header : Primitives → Block → Bool
hash_matches_header c b = str_eq (header_hash c b.header) b.hash
