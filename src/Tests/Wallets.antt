-- ===== src/Tests/Wallets.antt =====
-- Transfers of a wallet and drips of a faucet.
use shiva_blockchain.Base.{
  String, ◌≡◌, refl, true, some, [], ◌∷◌, ◌++◌, arith, length-append, ok, Bytes, str_append,
}
use shiva_blockchain.Assoc.{lookup}
use shiva_blockchain.Types.{Transaction, Block, hex_encode}
use shiva_blockchain.Crypto.{tx_payload, verify_tx}
use shiva_blockchain.Mempool.{new_pool}
use shiva_blockchain.Wallet.{Wallet, import_private, build_transfer, create}
use shiva_blockchain.Wallet.Signing.{IsSignatureScheme, verify_tx-build_transfer}
use shiva_blockchain.Faucet
use shiva_blockchain.Faucet.{Service, cooldown_active, drip}
use shiva_blockchain.Faucet.Drips.{second_drip_lost}
use shiva_blockchain.Tests.Samples.{toy, some_key, alice, bob, chain_of_one}
use shiva_blockchain.Types.Hex.{AllBytes}

all_bytes : AllBytes some_key
all_bytes = ground arith

AllBytes-append : (seed : Bytes) → AllBytes seed → AllBytes (seed ++ some_key)
AllBytes-append [] bytes = all_bytes
AllBytes-append (b ∷ seed) (small, bytes) = (small, AllBytes-append seed bytes)

toy-IsSignatureScheme : IsSignatureScheme toy
toy-IsSignatureScheme = record {
  public_bytes = λ priv bytes h. all_bytes;
  private_bytes = λ seed bytes h. AllBytes-append seed bytes;
  private_size = λ seed h. omega (arith, length-append seed some_key);
  public_size = λ priv h. refl;
  signature_bytes = λ priv m bytes h. (omega arith, tt);
  verifies = λ seed m h. refl;
}

-- 64 bytes of a private key, in hexadecimal.
abbrev key_text : String
key_text = str_append alice bob

abbrev faucet_wallet : Wallet
faucet_wallet = record { address = hex_encode some_key; private = key_text }

-- The wallet of a seed of 32 bytes.
abbrev new_wallet : Wallet
new_wallet = record { address = hex_encode some_key; private = hex_encode (some_key ++ some_key) }

wallet_made : create toy (some some_key) true ≡ ok new_wallet
unfolding create shiva_blockchain.Crypto.generate_key_pair
wallet_made = refl

verify_tx-build_transfer_example :
    (import_private toy new_wallet.private ≡ ok new_wallet)
    × (tx : Transaction) × (build_transfer toy new_wallet bob 3 0 0 ≡ ok tx)
    × (verify_tx toy tx.from (tx_payload tx) tx.signature ≡ true)
    × (tx.from ≡ new_wallet.address)
    × (tx.to ≡ bob)
    × (tx.amount ≡ 3)
    × (tx.fee ≡ 0)
    × (tx.nonce ≡ 0)
verify_tx-build_transfer_example =
    verify_tx-build_transfer toy some_key new_wallet bob 3 0 0 toy-IsSignatureScheme all_bytes refl
      wallet_made

abbrev service : Service
service = record { wallet = faucet_wallet; amount = 3; cooldown = 60; last = [] }

drip_works : (drip toy 100 bob chain_of_one service new_pool).0 ≡ ok tt
unfolding drip Faucet.is_cooling lookup build_transfer shiva_blockchain.Wallet.sign_transaction
    shiva_blockchain.Wallet.private_key shiva_blockchain.Types.hex_decode
    shiva_blockchain.Crypto.sign_tx
drip_works = refl

second_works :
    (drip toy 120 alice chain_of_one
      (drip toy 100 bob chain_of_one service new_pool).1
      (drip toy 100 bob chain_of_one service new_pool).2).0
    ≡ ok tt
unfolding drip Faucet.is_cooling lookup build_transfer shiva_blockchain.Wallet.sign_transaction
    shiva_blockchain.Wallet.private_key shiva_blockchain.Types.hex_decode
    shiva_blockchain.Crypto.sign_tx shiva_blockchain.Assoc.insert
second_works = refl

second_drip_lost_example :
    ((drip toy 120 alice chain_of_one
        (drip toy 100 bob chain_of_one service new_pool).1
        (drip toy 100 bob chain_of_one service new_pool).2).2
      ≡ (drip toy 100 bob chain_of_one service new_pool).2)
    × (lookup alice
          (drip toy 120 alice chain_of_one
            (drip toy 100 bob chain_of_one service new_pool).1
            (drip toy 100 bob chain_of_one service new_pool).2).1.last
        ≡ some 120)
second_drip_lost_example =
    second_drip_lost toy 100 120 bob alice chain_of_one service new_pool drip_works second_works
