-- ===== src/Rpc/Call/Effects.antt =====
-- The effects of the JSON-RPC methods of internal/rpc/rpc.go on the node.
use shiva_blockchain.Base.{String, ◌≡◌, inl, inr, arith, Result, ok, err, Result-cases}
use shiva_blockchain.Types.{Transaction}
use shiva_blockchain.Crypto.{Primitives, hash, tx_payload}
use shiva_blockchain.State.{TxError}
use shiva_blockchain.Mempool.{add}
use shiva_blockchain.Chain.Defs.{validate_tx}
use shiva_blockchain.Legacy.{normalize_rpc_method}
use shiva_blockchain.Node.{Node, submit_tx}
use shiva_blockchain.Rpc.Call.{
  Params, CallError, Answer, accepted, Action, reply, send, action, perform, call,
}

-- What a call leaves: the node as it was, or with one valid transaction added to the pool, whose hash
-- was the answer.
pub data Effect (c : Primitives) (n : Node) : Result CallError Answer × Node → Type 0 where
  unchanged : (r : Result CallError Answer) → Effect c n (r, n)
  pooled :
      (tx : Transaction)
      → validate_tx c n.bc tx ≡ ok tt
      → Effect c n (ok (accepted (hash c (tx_payload tx))), record n { pool = add tx n.pool })

submit_tx-valid :
    (c : Primitives) (tx : Transaction) (n : Node)
    → validate_tx c n.bc tx ≡ ok tt
    → submit_tx c tx n ≡ (ok (hash c (tx_payload tx)), record n { pool = add tx n.pool })
unfolding submit_tx
submit_tx-valid c tx n e = ground (arith, e)

submit_tx-refused :
    (c : Primitives) (tx : Transaction) (n : Node) (f : TxError)
    → validate_tx c n.bc tx ≡ err f
    → submit_tx c tx n ≡ (err f, n)
unfolding submit_tx
submit_tx-refused c tx n f e = ground (arith, e)

perform-valid :
    (c : Primitives) (tx : Transaction) (n : Node)
    → validate_tx c n.bc tx ≡ ok tt
    → perform c (send tx) n
      ≡ (ok (accepted (hash c (tx_payload tx))), record n { pool = add tx n.pool })
unfolding perform
perform-valid c tx n e = ground (arith, submit_tx-valid c tx n e)

perform-refused :
    (c : Primitives) (tx : Transaction) (n : Node) (f : TxError)
    → validate_tx c n.bc tx ≡ err f
    → perform c (send tx) n ≡ (err (CallError.tx_refused f), n)
unfolding perform
perform-refused c tx n f e = ground (arith, submit_tx-refused c tx n f e)

perform-Effect : (c : Primitives) (a : Action) (n : Node) → Effect c n (perform c a n)
perform-Effect c (reply r) n = unfold perform in unchanged r
perform-Effect c (send tx) n = elim (Result-cases (validate_tx c n.bc tx)) [
  | inl (u, e) ↦ rw (perform-valid c tx n e) (pooled tx e)
  | inr (f, e) ↦ rw (perform-refused c tx n f e) (unchanged (err (CallError.tx_refused f)))
]

-- A call of any method with any parameters leaves the node as it was, or adds one transaction that
-- `ValidateTx` accepts to the pool and answers with its hash: no call changes the chain.
pub call-Effect :
    (c : Primitives) (method : String) (p : Params) (n : Node) → Effect c n (call c method p n)
unfolding call
call-Effect c method p n = perform-Effect c (action (normalize_rpc_method method) p n.bc) n
