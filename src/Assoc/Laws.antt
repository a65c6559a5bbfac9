-- ===== src/Assoc/Laws.antt =====
-- The laws of maps, in the form that rewrites without side conditions.
use shiva_blockchain.Base.{
  ℕ, ◌+◌, ◌≤◌, String, ◌≡◌, ◌≢◌, false, none, some, [], ◌∷◌, arith, str_eq, eq_iff, if◌then◌else◌,
}
use shiva_blockchain.Assoc.{Assoc, lookup, insert, erase, get_or}

pub str_eq_comm : (a b : String) → str_eq a b ≡ str_eq b a
str_eq_comm a b = ground (arith, eq_iff a b, eq_iff b a)

pub str_eq_ne : (a b : String) → a ≢ b → str_eq a b ≡ false
str_eq_ne a b h = ground (arith, eq_iff a b)

module _ {V : Type 0} where
  -- Reading a key after a write of another one, or of the same one.
  pub lookup-insert :
      (written read : String) (x : V) (entries : Assoc V)
      → lookup read (insert written x entries)
        ≡ (if str_eq written read then some x else lookup read entries)
  unfolding lookup insert
  lookup-insert written read x [] = ground arith
  lookup-insert written read x ((key, old) ∷ entries) =
      let rest = lookup-insert written read x entries in
      ground (arith, rest, eq_iff key read, eq_iff key written, eq_iff written read)

  pub lookup-erase :
      (dropped read : String) (entries : Assoc V)
      → lookup read (erase dropped entries)
        ≡ (if str_eq dropped read then none else lookup read entries)
  unfolding lookup erase
  lookup-erase dropped read [] = ground arith
  lookup-erase dropped read ((key, old) ∷ entries) =
      let rest = lookup-erase dropped read entries in
      ground (arith, rest, eq_iff key read, eq_iff key dropped, eq_iff dropped read)

  pub get_or-insert :
      (z : V) (k j : String) (v : V) (m : Assoc V)
      → get_or z j (insert k v m) ≡ (if str_eq k j then v else get_or z j m)
  unfolding get_or
  get_or-insert z k j v m = ground (arith, lookup-insert k j v m)

  -- The sum of a measure over the values.
  unfoldable pub sum_by : (V → ℕ) → Assoc V → ℕ
  sum_by f [] = 0
  sum_by f ((j, w) ∷ m) = f w + sum_by f m

  -- A write replaces the measure of what was there, or of the zero value, by that of the new value.
  pub sum_by-insert :
      (f : V → ℕ) (z : V) (k : String) (v : V) (m : Assoc V)
      → f z ≡ 0
      → sum_by f (insert k v m) + f (get_or z k m) ≡ sum_by f m + f v
  unfolding sum_by get_or lookup insert
  sum_by-insert f z k v [] h = omega arith
  sum_by-insert f z k v ((i, w) ∷ m) h = ground (arith, eq_iff i k, sum_by-insert f z k v m h)

  pub get_or-le-sum_by :
      (f : V → ℕ) (z : V) (k : String) (m : Assoc V) → f z ≡ 0 → f (get_or z k m) ≤ sum_by f m
  unfolding sum_by get_or lookup
  get_or-le-sum_by f z k [] h = omega arith
  get_or-le-sum_by f z k ((i, w) ∷ m) h = ground (arith, eq_iff i k, get_or-le-sum_by f z k m h)
