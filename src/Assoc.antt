-- ===== src/Assoc.antt =====
-- A Go map with string keys, as an association list without an order that the program relies on.
pub mod Laws
pub mod Keys
use shiva_blockchain.Base.{
  ℕ, zero, suc, ◌+◌, ◌-◌, ◌*◌, ◌/◌, ◌%◌, ◌^◌, ◌≤◌, ◌<◌, String, ◌≡◌, refl, sym, ap, ◌∙◌, ◌≢◌, ◌↔◌,
  ◌⊎◌, inl, inr, Bool, true, false, not, ◌&&◌, ◌||◌, Option, none, some, List, [], ◌∷◌, ◌++◌, map,
  foldl, arith, str_eq, eq_iff, eq_refl, ltb, leb, ◌==◌, if◌then◌else◌, ltb→lt, lt→ltb, leb→le,
  ==_iff, tests, Bool-cases, Option-cases, length, take, length-append, length-take-le, u64_mod,
  add64, sub64, mul64, add64-eq-add, sub64-eq-sub, add64-lt, word_laws, Result, ok, err, ◌>>=◌,
  ◌>>◌, fail_if, or_fail, map_err, Result-cases, Bytes, codes, has_prefix, decimal, decimal_string,
  str_append,
}

abbrev pub Assoc : Type 0 → Type 0
Assoc V = List (String × V)

module _ {V : Type 0} where
  -- `v, ok := m[k]`
  unfoldable pub lookup : String → Assoc V → Option V
  lookup k [] = none
  lookup k ((j, v) ∷ m) = if str_eq j k then some v else lookup k m

  -- `m[k] = v`
  unfoldable pub insert : String → V → Assoc V → Assoc V
  insert k v [] = (k, v) ∷ []
  insert k v ((j, w) ∷ m) = if str_eq j k then (k, v) ∷ m else (j, w) ∷ insert k v m

  -- `delete(m, k)`
  unfoldable pub erase : String → Assoc V → Assoc V
  erase k [] = []
  erase k ((j, w) ∷ m) = let rest = erase k m in if str_eq j k then rest else (j, w) ∷ rest

  -- `m[k]`, which is the zero value where the key is missing.
  unfoldable pub get_or : V → String → Assoc V → V
  get_or z k m = elim (lookup k m) [ none ↦ z | some v ↦ v ]

  -- `for k := range m`
  unfoldable pub keys : Assoc V → List String
  keys [] = []
  keys ((j, w) ∷ m) = j ∷ keys m

  -- `for _, v := range m`
  unfoldable pub values : Assoc V → List V
  values [] = []
  values ((j, w) ∷ m) = w ∷ values m
