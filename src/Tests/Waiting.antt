-- ===== src/Tests/Waiting.antt =====
-- A pool of waiting transactions, and a request that fills it.
use shiva_blockchain.Base.{none, some, [], ◌∷◌}
use shiva_blockchain.Mempool
use shiva_blockchain.Mempool.{new_pool, add, pending, pending_bound, remove_included, tx_key}
use shiva_blockchain.Mempool.Order.{
  IsSynced, new_pool-IsSynced, add-IsSynced, remove_included-IsSynced,
}
use shiva_blockchain.Tests.Samples.{toy, payment}
use shiva_blockchain.Tests.Nodes.{in_order, in_order-IsArrangement, started}
use shiva_blockchain.Rpc.Call.{Params, call}
use shiva_blockchain.Rpc.Call.Effects.{Effect, call-Effect}

abbrev one_waiting : Mempool.Pool
one_waiting = add payment new_pool

one_waiting-IsSynced : IsSynced one_waiting
one_waiting-IsSynced = add-IsSynced payment new_pool new_pool-IsSynced

remove_included-IsSynced_example : IsSynced (remove_included in_order (payment ∷ []) one_waiting)
remove_included-IsSynced_example =
    remove_included-IsSynced in_order (payment ∷ []) one_waiting in_order-IsArrangement
      one_waiting-IsSynced

abbrev request : Params
request = record { args = none; tx = some payment; wrapped = none; raw = λ s. none }

call-Effect_example : Effect toy started (call toy "eth_sendTransaction" request started)
call-Effect_example = call-Effect toy "eth_sendTransaction" request started
