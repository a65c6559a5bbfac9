-- ===== src/Assoc/Keys.antt =====
-- A Go map has each key once: how often a key stands in the list of keys.
use shiva_blockchain.Base.{
  ℕ, suc, ◌+◌, ◌-◌, String, ◌≡◌, refl, Option, none, some, List, [], ◌∷◌, ◌++◌, arith, str_eq,
  eq_iff, if◌then◌else◌,
}
use shiva_blockchain.Assoc.{Assoc, lookup, insert, erase, keys}
use shiva_blockchain.Assoc.Laws.{lookup-insert, lookup-erase}

unfoldable pub count : String → List String → ℕ
count k [] = 0
count k (j ∷ l) = if str_eq j k then suc (count k l) else count k l

pub count-append : (k : String) (l m : List String) → count k (l ++ m) ≡ count k l + count k m
unfolding count
count-append k [] m = omega arith
count-append k (j ∷ l) m = ground (arith, count-append k l m)

-- 1 where a lookup finds something.
abbrev pub presence : {V : Type 0} → Option V → ℕ
presence none = 0
presence (some v) = 1

-- Each key that is found stands once among the keys, and no other does.
pub record IsMap {V : Type 0} (m : Assoc V) : Type 0 where
  pub once : (k : String) → count k (keys m) ≡ presence (lookup k m)

module _ {V : Type 0} where
  count-keys-erase :
      (k j : String) (m : Assoc V)
      → count j (keys (erase k m)) ≡ (if str_eq k j then 0 else count j (keys m))
  unfolding count keys erase
  count-keys-erase k j [] = ground arith
  count-keys-erase k j ((i, w) ∷ m) =
      ground (arith, eq_iff k j, eq_iff i k, eq_iff i j, count-keys-erase k j m)

  count-keys-insert :
      (k j : String) (v : V) (m : Assoc V)
      → count j (keys (insert k v m))
        ≡ (if str_eq k j then count j (keys m) + (1 - presence (lookup k m)) else count j (keys m))
  unfolding count keys insert lookup
  count-keys-insert k j v [] = ground arith
  count-keys-insert k j v ((key, old) ∷ m) =
      let rest = count-keys-insert k j v m in
      ground (arith, rest, eq_iff key j, eq_iff key k, eq_iff k j)

  pub erase-IsMap : (k : String) (m : Assoc V) → IsMap m → IsMap (erase k m)
  erase-IsMap k m h = record {
    once = λ j. ground (arith, count-keys-erase k j m, lookup-erase k j m, h.once j);
  }

  pub insert-IsMap : (k : String) (v : V) (m : Assoc V) → IsMap m → IsMap (insert k v m)
  insert-IsMap k v m h = record {
    once = λ j.
        ground
          (arith, eq_iff k j, count-keys-insert k j v m, lookup-insert k j v m, h.once j, h.once k);
  }

pub nil-IsMap : {V : Type 0} → IsMap {V = V} []
unfolding count keys lookup
nil-IsMap = record { once = λ j. refl }
