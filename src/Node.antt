-- ===== src/Node.antt =====
-- internal/node/node.go, the handlers of internal/network/network.go and `submitTx` of
-- internal/rpc/rpc.go: what a node does on each message, on each tick of the miner, on each request.
-- A message is given decoded: a hello with what could be decoded of it, and a body of another kind that
-- does not decode as a message of its own.
pub mod Steps
pub mod Stall
use shiva_blockchain.Base.{
  ℕ, zero, suc, ◌+◌, ◌-◌, ◌*◌, ◌/◌, ◌%◌, ◌^◌, ◌≤◌, ◌<◌, String, ◌≡◌, refl, sym, ap, ◌∙◌, ◌≢◌, ◌↔◌,
  ◌⊎◌, inl, inr, Bool, true, false, not, ◌&&◌, ◌||◌, Option, none, some, List, [], ◌∷◌, ◌++◌, map,
  foldl, arith, str_eq, eq_iff, eq_refl, ltb, leb, ◌==◌, if◌then◌else◌, ltb→lt, lt→ltb, leb→le,
  ==_iff, tests, Bool-cases, Option-cases, length, take, length-append, length-take-le, u64_mod,
  add64, sub64, mul64, add64-eq-add, sub64-eq-sub, add64-lt, word_laws, Result, ok, err, ◌>>=◌,
  ◌>>◌, fail_if, or_fail, map_err, Result-cases, Bytes, codes, has_prefix, decimal, decimal_string,
  str_append,
}
use shiva_blockchain.Base.Int.{ℤ, pos, negsuc}
use shiva_blockchain.Assoc.{Assoc, lookup, insert, values}
use shiva_blockchain.Types.{Transaction, Block}
use shiva_blockchain.Crypto.{Primitives, hash, tx_payload}
use shiva_blockchain.Legacy.{normalize_chain_id}
use shiva_blockchain.State.{TxError}
use shiva_blockchain.Storage.{Store, Writes, get_block}
use shiva_blockchain.Mempool.{Pool, add, pending, remove_included}
use shiva_blockchain.Chain.{finalize_and_mine_block, height}
use shiva_blockchain.Chain.Defs.{Blockchain, ApplyError, apply_block, validate_tx}

pub record Peer : Type 0 where
  pub id : String
  pub addr : String
  pub height : ℕ

pub record HelloPayload : Type 0 where
  pub version : ℕ
  pub height : ℕ
  pub chain_id : String
  pub peer_id : String

pub data Message : Type 0 where
  hello : HelloPayload → Message
  tx_message : Transaction → Message
  get_blocks : ℕ → Message
  blocks : List (Option Block) → Message
  new_block : Block → Message
  undecodable : Message

pub record Node : Type 0 where
  pub bc : Blockchain
  pub pool : Pool
  pub peers : Assoc Peer
  pub chain_id : String

-- The callback of `OnTransaction`.
unfoldable pub on_transaction : Primitives → Transaction → Node → Node
on_transaction c tx n = elim (validate_tx c n.bc tx) [
  | ok _ ↦ record n { pool = add tx n.pool }
  | err e ↦ n
]

-- `applyBlocksSequential`: a missing block is skipped, the first error ends the loop.
unfoldable pub apply_blocks_sequential :
    Primitives → Writes → List (Option Block) → Blockchain → Blockchain
apply_blocks_sequential c w [] bc = bc
apply_blocks_sequential c w (none ∷ rest) bc = apply_blocks_sequential c w rest bc
apply_blocks_sequential c w (some b ∷ rest) bc =
    let (r, bc') = apply_block c w b bc in
    elim r [ ok _ ↦ apply_blocks_sequential c w rest bc' | err e ↦ bc' ]

-- The loop of `MsgGetBlocks` with the rounds that are left at index `i`.
collect_blocks : ℕ → ℕ → Store → List (Option Block)
collect_blocks zero i store = []
collect_blocks (suc rounds) i store = elim (get_block i store) [
  | ok b ↦ some b ∷ collect_blocks rounds (i + 1) store
  | err e ↦ []
]

unfoldable pub blocks_from : ℕ → Store → List (Option Block)
unfolding collect_blocks
blocks_from from store = collect_blocks (store.height + 1 - from) from store

-- One message in `handleConn`, from the address `remote`: the reply, if any, and the node.
unfoldable pub handle_message :
    Primitives → Writes → String → Message → Node → Option Message × Node
handle_message c w remote (hello h) n = (
  none,
  record n {
    peers = insert h.peer_id (record { id = h.peer_id; addr = remote; height = h.height }) n.peers;
  },
)
handle_message c w remote (tx_message tx) n = (none, on_transaction c tx n)
handle_message c w remote (get_blocks from) n = (some (blocks (blocks_from from n.bc.store)), n)
handle_message c w remote (blocks bs) n =
    (none, record n { bc = apply_blocks_sequential c w bs n.bc })
handle_message c w remote (new_block b) n =
    (none, record n { bc = apply_blocks_sequential c w (some b ∷ []) n.bc })
handle_message c w remote undecodable n = (none, n)

-- `chainCompatible`
unfoldable pub chain_compatible : String → String → Bool
chain_compatible a b = str_eq (normalize_chain_id a) (normalize_chain_id b)

pub data HandshakeError : Type 0 where
  expected_hello chain_id_mismatch : HandshakeError

-- `handshake` over a connection to `addr`, once the answer has been read.
unfoldable pub handshake : String → Message → Node → Result HandshakeError (Unit {0}) × Node
handshake addr (hello remote) n =
    if not (str_eq remote.chain_id n.chain_id) && not (chain_compatible remote.chain_id n.chain_id)
    then (err chain_id_mismatch, n)
    else (
      ok tt,
      record n {
        peers =
            insert remote.peer_id
              (record { id = remote.peer_id; addr = addr; height = remote.height }) n.peers;
      },
    )
handshake addr m n = (err expected_hello, n)

-- `syncFromPeers`: whom the node asks for blocks, and from which index.
ask_peers : ℕ → List Peer → List (Peer × Message)
ask_peers h [] = []
ask_peers h (p ∷ ps) =
    let rest = ask_peers h ps in if ltb h p.height then (p, get_blocks (add64 h 1)) ∷ rest else rest

unfoldable pub sync_from_peers : Node → List (Peer × Message)
unfolding ask_peers
sync_from_peers n = ask_peers (height n.bc) (values n.peers)

-- One tick of `mineLoop`.
unfoldable pub mine_round :
    ℕ → Primitives → Writes → (List String → List String) → String → Node → Option Block × Node
mine_round fuel c w order miner n =
    let txs = pending (pos 100) n.pool in
    let (r, bc') = finalize_and_mine_block fuel c w txs miner n.bc in
    elim r [
      | ok b ↦ (some b, record n { bc = bc'; pool = remove_included order txs n.pool })
      | err e ↦ (none, record n { bc = bc' })
    ]

-- `submitTx`: the hash of the payload, for a transaction that the state accepts.
unfoldable pub submit_tx : Primitives → Transaction → Node → Result TxError String × Node
submit_tx c tx n = elim (validate_tx c n.bc tx) [
  | err e ↦ (err e, n)
  | ok _ ↦ (ok (hash c (tx_payload tx)), record n { pool = add tx n.pool })
]
