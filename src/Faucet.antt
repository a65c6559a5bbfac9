-- ===== src/Faucet.antt =====
-- internal/faucet/faucet.go, with the callbacks that internal/node/node.go gives it: the pool's `Add`
-- and the chain's `Nonce`.
pub mod Drips
use shiva_blockchain.Base.{
  ℕ, zero, suc, ◌+◌, ◌-◌, ◌*◌, ◌/◌, ◌%◌, ◌^◌, ◌≤◌, ◌<◌, String, ◌≡◌, refl, sym, ap, ◌∙◌, ◌≢◌, ◌↔◌,
  ◌⊎◌, inl, inr, Bool, true, false, not, ◌&&◌, ◌||◌, Option, none, some, List, [], ◌∷◌, ◌++◌, map,
  foldl, arith, str_eq, eq_iff, eq_refl, ltb, leb, ◌==◌, if◌then◌else◌, ltb→lt, lt→ltb, leb→le,
  ==_iff, tests, Bool-cases, Option-cases, length, take, length-append, length-take-le, u64_mod,
  add64, sub64, mul64, add64-eq-add, sub64-eq-sub, add64-lt, word_laws, Result, ok, err, ◌>>=◌,
  ◌>>◌, fail_if, or_fail, map_err, Result-cases, Bytes, codes, has_prefix, decimal, decimal_string,
  str_append,
}
use shiva_blockchain.Assoc.{Assoc, lookup, insert}
use shiva_blockchain.Types.{Transaction}
use shiva_blockchain.Crypto.{Primitives, KeyError}
use shiva_blockchain.Wallet.{Wallet, build_transfer}
use shiva_blockchain.Mempool.{Pool, add}
use shiva_blockchain.Chain.{nonce_of}
use shiva_blockchain.Chain.Defs.{Blockchain}

-- Times are nanoseconds; `last` has the time of the last drip to an address.
pub record Service : Type 0 where
  pub wallet : Wallet
  pub amount : ℕ
  pub cooldown : ℕ
  pub last : Assoc ℕ

pub data DripError : Type 0 where
  cooldown_active : DripError
  key_error : KeyError → DripError

-- `t, ok := f.last[to]; ok && time.Since(t) < f.cooldown`
unfoldable pub is_cooling : ℕ → String → Service → Bool
is_cooling now to f = elim (lookup to f.last) [ none ↦ false | some t ↦ ltb now (t + f.cooldown) ]

-- `Drip` at the time `now`; `sendFn` never fails here.
unfoldable pub drip :
    Primitives
    → ℕ
    → String
    → Blockchain
    → Service
    → Pool
    → Result DripError (Unit {0}) × Service × Pool
drip c now to bc f p =
    let built = build_transfer c f.wallet to f.amount 0 (nonce_of bc f.wallet.address) in
    if is_cooling now to f then (err cooldown_active, f, p) else elim built [
      | err e ↦ (err (key_error e), f, p)
      | ok tx ↦ (ok tt, record f { last = insert to now f.last }, add tx p)
    ]
