-- ===== src/Wallet/Signing.antt =====
-- The signatures of internal/wallet/wallet.go, as internal/chain checks them.
use shiva_blockchain.Base.{ℕ, String, ◌≡◌, refl, true, some, arith, length, ok, Bytes}
use shiva_blockchain.Types.{Transaction, hex_encode}
use shiva_blockchain.Types.Hex.{AllBytes, hex_decode-hex_encode}
use shiva_blockchain.Crypto.{
  Primitives, tx_payload, verify_tx, sign_tx, pub_from_private, generate_key_pair,
}
use shiva_blockchain.Wallet.{
  Wallet, private_key, sign_transaction, build_transfer, import_private, create,
}

-- The documented behaviour of crypto/ed25519: keys and signatures are bytes, the private key of a seed
-- has 64 of them and its public key 32, and a signature under the private key of a seed verifies under
-- the public key of that private key.
pub record IsSignatureScheme (c : Primitives) : Type 0 where
  pub public_bytes :
      (priv : Bytes) → AllBytes priv → length priv ≡ 64 → AllBytes (c.ed25519_public priv)
  pub private_bytes :
      (seed : Bytes) → AllBytes seed → length seed ≡ 32 → AllBytes (c.ed25519_from_seed seed)
  pub private_size : (seed : Bytes) → length seed ≡ 32 → length (c.ed25519_from_seed seed) ≡ 64
  pub public_size : (priv : Bytes) → length priv ≡ 64 → length (c.ed25519_public priv) ≡ 32
  pub signature_bytes :
      (priv m : Bytes) → AllBytes priv → length priv ≡ 64 → AllBytes (c.ed25519_sign priv m)
  pub verifies :
      (seed m : Bytes)
      → length seed ≡ 32
      → c.ed25519_verify
          (c.ed25519_public (c.ed25519_from_seed seed))
          m
          (c.ed25519_sign (c.ed25519_from_seed seed) m)
        ≡ true

-- The payload does not look at the signature.
tx_payload-signature :
    (tx : Transaction) (sig : String) → tx_payload (record tx { signature = sig }) ≡ tx_payload tx
unfolding tx_payload
tx_payload-signature tx sig = refl

verify_tx-sign :
    (c : Primitives) (seed m : Bytes)
    → IsSignatureScheme c
    → AllBytes seed
    → length seed ≡ 32
    → (let priv = c.ed25519_from_seed seed in
        verify_tx c (hex_encode (c.ed25519_public priv)) m (hex_encode (c.ed25519_sign priv m)))
      ≡ true
unfolding verify_tx
verify_tx-sign c seed m scheme bytes size =
    let priv = c.ed25519_from_seed seed in
    let clean = scheme.private_bytes seed bytes size in
    let long = scheme.private_size seed size in
    ground (
      arith,
      hex_decode-hex_encode (c.ed25519_sign priv m) (scheme.signature_bytes priv m clean long),
      hex_decode-hex_encode (c.ed25519_public priv) (scheme.public_bytes priv clean long),
      scheme.public_size priv long,
      scheme.verifies seed m size,
    )

-- A wallet that `Create` makes from a seed of 32 bytes and saves can be imported from its private text
-- alone, as the same wallet; and it builds every transfer that is asked for: the transaction has
-- exactly the receiver, amount, fee and nonce, the wallet's address as sender, and a signature that
-- `VerifyTx` accepts for that sender and payload.
pub verify_tx-build_transfer :
    (c : Primitives) (seed : Bytes) (w : Wallet) (to : String) (amount fee nonce : ℕ)
    → IsSignatureScheme c
    → AllBytes seed
    → length seed ≡ 32
    → create c (some seed) true ≡ ok w
    → (import_private c w.private ≡ ok w)
      × (tx : Transaction) × (build_transfer c w to amount fee nonce ≡ ok tx)
      × (verify_tx c tx.from (tx_payload tx) tx.signature ≡ true)
      × (tx.from ≡ w.address)
      × (tx.to ≡ to)
      × (tx.amount ≡ amount)
      × (tx.fee ≡ fee)
      × (tx.nonce ≡ nonce)
unfolding create generate_key_pair build_transfer sign_transaction private_key import_private
    sign_tx pub_from_private
verify_tx-build_transfer c seed w to amount fee nonce scheme bytes size made =
    let priv = c.ed25519_from_seed seed in
    let owner : w
        ≡ record { address = hex_encode (c.ed25519_public priv); private = hex_encode priv } =
      ground (arith, made) in
    let sent : Transaction = record {
      from = w.address;
      to = to;
      amount = amount;
      fee = fee;
      nonce = nonce;
      signature = "";
    } in
    let sig = hex_encode (c.ed25519_sign priv (tx_payload sent)) in
    let read = hex_decode-hex_encode priv (scheme.private_bytes seed bytes size) in
    let long = scheme.private_size seed size in
    let good = verify_tx-sign c seed (tx_payload sent) scheme bytes size in
    (
      ground (arith, owner, read, long),
      record sent { signature = sig },
      ground (arith, owner, read, long),
      rw (tx_payload-signature sent sig) (cc (good, owner)),
      refl,
      refl,
      refl,
      refl,
      refl,
    )
