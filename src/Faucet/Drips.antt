-- ===== src/Faucet/Drips.antt =====
-- One drip after another from internal/faucet/faucet.go.
use shiva_blockchain.Base.{
  ℕ, ◌+◌, ◌<◌, String, ◌≡◌, inl, inr, some, arith, eq_iff, ok, err, Result-cases,
}
use shiva_blockchain.Assoc.{lookup, insert}
use shiva_blockchain.Assoc.Laws.{lookup-insert}
use shiva_blockchain.Types.{Transaction}
use shiva_blockchain.Crypto.{Primitives, sign_tx}
use shiva_blockchain.Wallet.{Wallet, build_transfer, sign_transaction, private_key}
use shiva_blockchain.Mempool.{Pool, tx_key}
use shiva_blockchain.Mempool.Order.{add_keeps_first}
use shiva_blockchain.Chain.{nonce_of}
use shiva_blockchain.Chain.Defs.{Blockchain}
use shiva_blockchain.Faucet.{Service, cooldown_active, is_cooling, drip}

-- After a drip that succeeded, another to the same address is refused until the cooldown has
-- passed.
drip_cools :
    (c : Primitives) (now later : ℕ) (to : String) (bc bc' : Blockchain) (f : Service) (p : Pool)
    → (drip c now to bc f p).0 ≡ ok tt
    → later < now + f.cooldown
    → (drip c later to bc' (drip c now to bc f p).1 (drip c now to bc f p).2).0
      ≡ err cooldown_active
unfolding drip is_cooling
drip_cools c now later to bc bc' f p done soon =
    ground (arith, lookup-insert to to now f.last, eq_iff to to)

build_transfer-key :
    (c : Primitives) (w : Wallet) (to : String) (amount fee nonce : ℕ) {tx : Transaction}
    → build_transfer c w to amount fee nonce ≡ ok tx
    → (tx.from ≡ w.address) × (tx.nonce ≡ nonce)
unfolding build_transfer sign_transaction private_key sign_tx
build_transfer-key c w to amount fee nonce h = ground arith

build_transfer-same_key :
    (c : Primitives) (w : Wallet) (to to' : String) (amount fee nonce : ℕ) {tx tx' : Transaction}
    → build_transfer c w to amount fee nonce ≡ ok tx
    → build_transfer c w to' amount fee nonce ≡ ok tx'
    → tx_key tx' ≡ tx_key tx
unfolding tx_key
build_transfer-same_key c w to to' amount fee nonce h h' =
    let k = build_transfer-key c w to amount fee nonce h in
    let k' = build_transfer-key c w to' amount fee nonce h' in cc (k.0, k.1, k'.0, k'.1)

-- Of two drips that succeed over the same chain, the second starts the cooldown of its receiver,
-- and the pool does not take its transaction, which has the nonce of the first.
pub second_drip_lost :
    (c : Primitives) (now later : ℕ) (to to' : String) (bc : Blockchain) (f : Service) (p : Pool)
    → (drip c now to bc f p).0 ≡ ok tt
    → (drip c later to' bc (drip c now to bc f p).1 (drip c now to bc f p).2).0 ≡ ok tt
    → ((drip c later to' bc (drip c now to bc f p).1 (drip c now to bc f p).2).2
        ≡ (drip c now to bc f p).2)
      × (lookup to' (drip c later to' bc (drip c now to bc f p).1 (drip c now to bc f p).2).1.last
          ≡ some later)
unfolding drip
second_drip_lost c now later to to' bc f p done again =
    let nonce = nonce_of bc f.wallet.address in
    elim (Result-cases (build_transfer c f.wallet to f.amount 0 nonce)) [
      | inr (e, bad) ↦ ground (arith, bad)
      | inl (tx, built) ↦ elim (Result-cases (build_transfer c f.wallet to' f.amount 0 nonce)) [
        | inr (e, bad) ↦ ground (arith, built, bad)
        | inl (tx', built') ↦
            let same = build_transfer-same_key c f.wallet to to' f.amount 0 nonce built built' in
            ground (
              arith,
              built,
              built',
              add_keeps_first tx tx' p same,
              lookup-insert to' to' later (insert to now f.last),
              eq_iff to' to',
            )
      ]
    ]
