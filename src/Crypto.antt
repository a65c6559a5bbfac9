-- ===== src/Crypto.antt =====
-- internal/crypto/crypto.go: what is hashed and signed, and the check of a signature.
use shiva_blockchain.Base.{
  String, Bool, false, Option, none, some, List, [], ◌∷◌, ◌++◌, ◌==◌, if◌then◌else◌, length, Result,
  ok, err, Bytes, codes, decimal,
}
use shiva_blockchain.Base.Int.{decimal_int}
use shiva_blockchain.Types.{Transaction, BlockHeader, hex_decode, hex_encode}

-- The primitives of Go's crypto packages: SHA-256, and ed25519's check of a public key, a message and
-- a signature, its signature of a message under a private key, the public key of a private one, and
-- the private key of a seed of 32 bytes (`NewKeyFromSeed`).
pub record Primitives : Type 0 where
  pub sha256 : Bytes → Bytes
  pub ed25519_verify : Bytes → Bytes → Bytes → Bool
  pub ed25519_sign : Bytes → Bytes → Bytes
  pub ed25519_public : Bytes → Bytes
  pub ed25519_from_seed : Bytes → Bytes

-- `Hash`
abbrev pub hash : Primitives → Bytes → String
hash c payload = hex_encode (c.sha256 payload)

-- `HashConcat`
join_parts : List Bytes → Bytes
join_parts [] = []
join_parts (p ∷ ps) = p ++ join_parts ps

unfoldable pub hash_concat : Primitives → List Bytes → String
unfolding join_parts
hash_concat c parts = hex_encode (c.sha256 (join_parts parts))

pub data KeyError : Type 0 where
  bad_hex invalid_private_key no_randomness not_saved : KeyError

-- `GenerateKeyPair`, from the seed that `ed25519.GenerateKey` draws, if it draws one: the key is that
-- of the seed.
unfoldable pub generate_key_pair : Primitives → Option Bytes → Result KeyError (String × Bytes)
generate_key_pair c none = err no_randomness
generate_key_pair c (some seed) =
    let priv = c.ed25519_from_seed seed in ok (hex_encode (c.ed25519_public priv), priv)

-- `PubFromPrivate`
unfoldable pub pub_from_private : Primitives → Bytes → Result KeyError String
pub_from_private c priv =
    if length priv == 64 then ok (hex_encode (c.ed25519_public priv)) else err invalid_private_key

-- `SignTx`
unfoldable pub sign_tx : Primitives → Bytes → Bytes → Result KeyError String
sign_tx c priv payload =
    if length priv == 64
    then ok (hex_encode (c.ed25519_sign priv payload))
    else err invalid_private_key

-- `TxPayload`: "%s:%s:%d:%d:%d"
unfoldable pub tx_payload : Transaction → Bytes
tx_payload tx =
    codes tx.from
    ++ (b':'
        ∷ (codes tx.to
            ++ (b':'
                ∷ (decimal tx.amount ++ (b':' ∷ (decimal tx.fee ++ (b':' ∷ decimal tx.nonce)))))))

-- `BlockHeaderPayload`: "%d:%d:%s:%s:%d:%s:%d"
unfoldable pub block_header_payload : BlockHeader → Bytes
block_header_payload h =
    decimal h.index
    ++ (b':'
        ∷ (decimal_int h.timestamp
            ++ (b':'
                ∷ (codes h.previous_hash
                    ++ (b':'
                        ∷ (codes h.state_root
                            ++ (b':'
                                ∷ (decimal h.difficulty
                                    ++ (b':' ∷ (codes h.miner ++ (b':' ∷ decimal h.nonce)))))))))))

-- `VerifyTx`
unfoldable pub verify_tx : Primitives → String → Bytes → String → Bool
verify_tx c pub_key payload sig_hex = elim (hex_decode (codes sig_hex)) [
  | none ↦ false
  | some sig ↦ elim (hex_decode (codes pub_key)) [
    | none ↦ false
    | some pk ↦ if length pk == 32 then c.ed25519_verify pk payload sig else false
  ]
]
