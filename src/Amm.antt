-- ===== src/Amm.antt =====
-- internal/bridge/amm: constant-product pools and their store.
pub mod Sqrt
pub mod Pool
pub mod Store
use shiva_blockchain.Base.{
  ℕ, zero, suc, ◌+◌, ◌-◌, ◌*◌, ◌/◌, ◌%◌, ◌^◌, ◌≤◌, ◌<◌, String, ◌≡◌, refl, sym, ap, ◌∙◌, ◌≢◌, ◌↔◌,
  ◌⊎◌, inl, inr, Bool, true, false, not, ◌&&◌, ◌||◌, Option, none, some, List, [], ◌∷◌, ◌++◌, map,
  foldl, arith, str_eq, eq_iff, eq_refl, ltb, leb, ◌==◌, if◌then◌else◌, ltb→lt, lt→ltb, leb→le,
  ==_iff, tests, Bool-cases, Option-cases, length, take, length-append, length-take-le, u64_mod,
  add64, sub64, mul64, add64-eq-add, sub64-eq-sub, add64-lt, word_laws, Result, ok, err, ◌>>=◌,
  ◌>>◌, fail_if, or_fail, map_err, Result-cases, Bytes, codes, has_prefix, decimal, decimal_string,
  str_append,
}
