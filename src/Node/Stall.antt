-- ===== src/Node/Stall.antt =====
-- The miner of internal/node/node.go takes the same transactions on every tick until they are mined.
use shiva_blockchain.Base.{ℕ, zero, suc, String, ◌≡◌, refl, none, List, arith, ok, err}
use shiva_blockchain.Base.Int.{pos}
use shiva_blockchain.Types.{Block}
use shiva_blockchain.Crypto.{Primitives}
use shiva_blockchain.State.{TxError, apply_transactions}
use shiva_blockchain.Storage.{Writes, get_tip}
use shiva_blockchain.Mempool.{pending}
use shiva_blockchain.Chain.{finalize_and_mine_block, mine_after}
use shiva_blockchain.Node.{Node, mine_round}

-- The node after so many ticks.
unfoldable pub mine_rounds :
    ℕ → ℕ → Primitives → Writes → (List String → List String) → String → Node → Node
mine_rounds zero fuel c w order miner n = n
mine_rounds (suc k) fuel c w order miner n =
    mine_rounds k fuel c w order miner (mine_round fuel c w order miner n).1

mine_round-stalled :
    (fuel : ℕ) (c : Primitives) (w : Writes) (order : List String → List String) (miner : String)
    (n : Node) (tip : Block) (e : TxError)
    → get_tip n.bc.store ≡ ok tip
    → apply_transactions c n.bc.state (pending (pos 100) n.pool) miner ≡ err e
    → mine_round fuel c w order miner n ≡ (none, n)
unfolding mine_round finalize_and_mine_block mine_after
mine_round-stalled fuel c w order miner n tip e found bad = ground (arith, found, bad)

-- If the tip can be read and one of the first hundred transactions of the pool does not apply after
-- those before it, no tick mines a block or drops a transaction: the node is as it was after any
-- number of ticks.
pub mine_rounds-stalled :
    (k fuel : ℕ) (c : Primitives) (w : Writes) (order : List String → List String) (miner : String)
    (n : Node) (tip : Block) (e : TxError)
    → get_tip n.bc.store ≡ ok tip
    → apply_transactions c n.bc.state (pending (pos 100) n.pool) miner ≡ err e
    → mine_rounds k fuel c w order miner n ≡ n
unfolding mine_rounds
mine_rounds-stalled zero fuel c w order miner n tip e found bad = refl
mine_rounds-stalled (suc k) fuel c w order miner n tip e found bad =
    rw (mine_round-stalled fuel c w order miner n tip e found bad)
      (mine_rounds-stalled k fuel c w order miner n tip e found bad)
