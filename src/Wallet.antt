-- ===== src/Wallet.antt =====
-- internal/wallet/wallet.go: keys and the signing of transactions. The files are left out.
pub mod Signing
use shiva_blockchain.Base.{
  ℕ, zero, suc, ◌+◌, ◌-◌, ◌*◌, ◌/◌, ◌%◌, ◌^◌, ◌≤◌, ◌<◌, String, ◌≡◌, refl, sym, ap, ◌∙◌, ◌≢◌, ◌↔◌,
  ◌⊎◌, inl, inr, Bool, true, false, not, ◌&&◌, ◌||◌, Option, none, some, List, [], ◌∷◌, ◌++◌, map,
  foldl, arith, str_eq, eq_iff, eq_refl, ltb, leb, ◌==◌, if◌then◌else◌, ltb→lt, lt→ltb, leb→le,
  ==_iff, tests, Bool-cases, Option-cases, length, take, length-append, length-take-le, u64_mod,
  add64, sub64, mul64, add64-eq-add, sub64-eq-sub, add64-lt, word_laws, Result, ok, err, ◌>>=◌,
  ◌>>◌, fail_if, or_fail, map_err, Result-cases, Bytes, codes, has_prefix, decimal, decimal_string,
  str_append,
}
use shiva_blockchain.Types.{Transaction, hex_decode, hex_encode}
use shiva_blockchain.Crypto.{
  Primitives, KeyError, bad_hex, tx_payload, sign_tx, pub_from_private, not_saved,
  generate_key_pair,
}

pub record Wallet : Type 0 where
  pub address : String
  pub private : String

-- `Create`; `saved` is whether the wallet is written to its file, or has none.
unfoldable pub create : Primitives → Option Bytes → Bool → Result KeyError Wallet
create c seed saved = do
  (address, priv) ← generate_key_pair c seed
  let w : Wallet = record { address = address; private = hex_encode priv }
  if saved then ok w else err not_saved

-- `PrivateKey`
unfoldable pub private_key : Wallet → Result KeyError Bytes
private_key w = or_fail (hex_decode (codes w.private)) bad_hex

-- `SignTransaction`: the transaction with the sender and the signature.
unfoldable pub sign_transaction : Primitives → Wallet → Transaction → Result KeyError Transaction
sign_transaction c w tx = private_key w >>= λ priv.
    (let sent : Transaction = record tx { from = w.address } in
      sign_tx c priv (tx_payload sent) >>= λ sig. ok (record sent { signature = sig }))

-- `BuildTransfer`
unfoldable pub build_transfer :
    Primitives → Wallet → String → ℕ → ℕ → ℕ → Result KeyError Transaction
build_transfer c w to amount fee nonce =
    sign_transaction c w
      (record { from = ""; to = to; amount = amount; fee = fee; nonce = nonce; signature = "" })

-- `ImportPrivate`
unfoldable pub import_private : Primitives → String → Result KeyError Wallet
import_private c hex_key = or_fail (hex_decode (codes hex_key)) bad_hex >>= λ priv.
    (pub_from_private c priv >>= λ address. ok (record { address = address; private = hex_key }))

-- The zeros that `%08d` puts in front of `n`.
pad_zeros : ℕ → String → String
pad_zeros zero s = s
pad_zeros (suc n) s = str_append "0" (pad_zeros n s)

-- `FormatBalance`: "%d.%08d ONEX"
unfoldable pub format_balance : ℕ → String
unfolding pad_zeros
format_balance atomic =
    let frac = decimal_string (atomic % 100000000) in
    str_append (decimal_string (atomic / 100000000))
      (str_append "." (str_append (pad_zeros (8 - length (codes frac)) frac) " ONEX"))
