-- ===== src/Mempool/Order.antt =====
-- The two views that a pool of internal/mempool/mempool.go keeps, and what they say together.
use shiva_blockchain.Base.{
  ℕ, zero, suc, ◌≤◌, String, ◌≡◌, refl, ◌∙◌, inl, inr, none, some, List, [], ◌∷◌, arith, eq_iff,
  Option-cases, length,
}
use shiva_blockchain.Base.Int.{ℤ, pos, negsuc}
use shiva_blockchain.Assoc.{Assoc, lookup, erase, keys, get_or}
use shiva_blockchain.Assoc.Laws.{lookup-insert, lookup-erase}
use shiva_blockchain.Assoc.Keys.{
  count, count-append, presence, IsMap, insert-IsMap, erase-IsMap, nil-IsMap,
}
use shiva_blockchain.Types.{Transaction}
use shiva_blockchain.Mempool.{
  Pool, new_pool, tx_key, add, fetch, pending_bound, pending, remove_keys, remove_included,
}

-- The list of keys holds each key of the map once, and each transaction stands under its own key.
pub record IsSynced (p : Pool) : Type 0 where
  pub is_map : IsMap p.txs
  pub listed : (k : String) → count k p.keys ≡ presence (lookup k p.txs)
  pub keyed : (k : String) (tx : Transaction) → lookup k p.txs ≡ some tx → tx_key tx ≡ k

pub new_pool-IsSynced : IsSynced new_pool
unfolding count lookup
new_pool-IsSynced = record {
  is_map = nil-IsMap;
  listed = λ k. refl;
  keyed = λ k tx h. ground arith;
}

-- An added transaction keeps both views in step.
pub add-IsSynced : (tx : Transaction) (p : Pool) → IsSynced p → IsSynced (add tx p)
unfolding add
add-IsSynced tx p h = elim (Option-cases (lookup (tx_key tx) p.txs)) [
  | inr (old, e) ↦ rw (e, add) h
  | inl e ↦
      rw (e, add)
        (record {
          is_map = insert-IsMap (tx_key tx) tx p.txs h.is_map;
          listed = λ k.
              unfold count in
              ground (
                arith,
                e,
                count-append k p.keys (tx_key tx ∷ []),
                h.listed k,
                lookup-insert (tx_key tx) k tx p.txs,
                eq_iff (tx_key tx) k,
              );
          keyed = λ k t found.
              ground
                (arith, lookup-insert (tx_key tx) k tx p.txs, eq_iff (tx_key tx) k, h.keyed k t);
        })
]

-- Right after a transaction was added, adding another one of the same key changes nothing.
pub add_keeps_first :
    (tx tx' : Transaction) (p : Pool) → tx_key tx' ≡ tx_key tx → add tx' (add tx p) ≡ add tx p
unfolding add
add_keeps_first tx tx' p same = elim (Option-cases (lookup (tx_key tx) p.txs)) [
  | inr (old, e) ↦ ground (arith, e, same)
  | inl e ↦ ground (
    arith,
    e,
    same,
    lookup-insert (tx_key tx) (tx_key tx) tx p.txs,
    eq_iff (tx_key tx) (tx_key tx),
  )
]

lookup-remove_keys_le :
    (txs : List Transaction) (m : Assoc Transaction) (k : String) (tx : Transaction)
    → lookup k (remove_keys txs m) ≡ some tx
    → lookup k m ≡ some tx
unfolding remove_keys
lookup-remove_keys_le [] m k tx h = h
lookup-remove_keys_le (t ∷ txs) m k tx h =
    let ih = lookup-remove_keys_le txs (erase (tx_key t) m) k tx h in
    ground (arith, ih, lookup-erase (tx_key t) k m)

remove_keys-IsMap :
    (txs : List Transaction) (m : Assoc Transaction) → IsMap m → IsMap (remove_keys txs m)
unfolding remove_keys
remove_keys-IsMap [] m h = h
remove_keys-IsMap (t ∷ txs) m h =
    remove_keys-IsMap txs (erase (tx_key t) m) (erase-IsMap (tx_key t) m h)

-- What Go's iteration over a map is: every key as often as the map has it, in some order.
pub record IsArrangement (order : List String → List String) : Type 0 where
  pub same : (k : String) (l : List String) → count k (order l) ≡ count k l

-- Removal of the included transactions keeps both views of a pool in step, in whatever order Go
-- visits the map.
pub remove_included-IsSynced :
    (order : List String → List String) (txs : List Transaction) (p : Pool)
    → IsArrangement order
    → IsSynced p
    → IsSynced (remove_included order txs p)
unfolding remove_included
remove_included-IsSynced order txs p arranged h =
    let rest = remove_keys-IsMap txs p.txs h.is_map in
    record {
      is_map = rest;
      listed = λ k. arranged.same k (keys (remove_keys txs p.txs)) ∙ rest.once k;
      keyed = λ k tx found. h.keyed k tx (lookup-remove_keys_le txs p.txs k tx found);
    }

lookup-remove_keys_kept :
    (txs : List Transaction) (m : Assoc Transaction) (k : String)
    → lookup k m ≡ none
    → lookup k (remove_keys txs m) ≡ none
unfolding remove_keys
lookup-remove_keys_kept [] m k h = h
lookup-remove_keys_kept (t ∷ txs) m k h =
    lookup-remove_keys_kept txs (erase (tx_key t) m) k
      (ground (arith, h, lookup-erase (tx_key t) k m))

abbrev pub AllGone : Assoc Transaction → List Transaction → Type 0
AllGone m [] = Unit
AllGone m (tx ∷ txs) = (lookup (tx_key tx) m ≡ none) × AllGone m txs

remove_keys-AllGone :
    (txs : List Transaction) (m : Assoc Transaction) → AllGone (remove_keys txs m) txs
unfolding remove_keys
remove_keys-AllGone [] m = tt
remove_keys-AllGone (t ∷ txs) m = (
  lookup-remove_keys_kept txs (erase (tx_key t) m) (tx_key t)
      (ground (arith, lookup-erase (tx_key t) (tx_key t) m, eq_iff (tx_key t) (tx_key t))),
  remove_keys-AllGone txs (erase (tx_key t) m),
)

-- Every transaction handed to `Pending` is one that the pool holds under its key.
abbrev pub AllHeld : Pool → List Transaction → Type 0
AllHeld p [] = Unit
AllHeld p (tx ∷ txs) = (lookup (tx_key tx) p.txs ≡ some tx) × AllHeld p txs

abbrev AllPresent : Pool → List String → Type 0
AllPresent p [] = Unit
AllPresent p (k ∷ l) = (presence (lookup k p.txs) ≡ 1) × AllPresent p l

fetch-AllHeld :
    (p : Pool) (n : ℕ) (l : List String)
    → ((k : String) (tx : Transaction) → lookup k p.txs ≡ some tx → tx_key tx ≡ k)
    → AllPresent p l
    → AllHeld p (fetch p.txs n l)
unfolding fetch get_or
fetch-AllHeld p zero l keyed here = tt
fetch-AllHeld p (suc n) [] keyed here = tt
fetch-AllHeld p (suc n) (k ∷ l) keyed here = elim (Option-cases (lookup k p.txs)) [
  | inl e ↦ ground (arith, e)
  | inr (tx, e) ↦ ground (arith, e, keyed k tx e, fetch-AllHeld p n l keyed here.1)
]

present_of_count :
    (p : Pool) (l : List String)
    → ((k : String) → count k l ≤ presence (lookup k p.txs))
    → AllPresent p l
unfolding count
present_of_count p [] h = tt
present_of_count p (k ∷ l) h =
    (ground (arith, h k, eq_iff k k), present_of_count p l (λ j. ground (arith, h j)))

length-fetch :
    (txs : Assoc Transaction) (n : ℕ) (l : List String) → n ≤ length l → length (fetch txs n l) ≡ n
unfolding fetch
length-fetch txs zero l h = refl
length-fetch txs (suc n) [] h = absurd (omega arith)
length-fetch txs (suc n) (k ∷ l) h = omega (arith, length-fetch txs n l (omega arith))

pending_bound-le : (max : ℤ) (n : ℕ) → pending_bound max n ≤ n
unfolding pending_bound
pending_bound-le (pos m) n = ground arith
pending_bound-le (negsuc m) n = omega arith

-- Of a pool whose views are in step, `Pending` hands out as many transactions as asked for, all of
-- them if the bound is not positive or too large, and each is one that the pool holds under its own
-- key.
pending-AllHeld :
    (max : ℤ) (p : Pool)
    → IsSynced p
    → (length (pending max p) ≡ pending_bound max (length p.keys)) × AllHeld p (pending max p)
unfolding pending
pending-AllHeld max p h =
    let bound = pending_bound max (length p.keys) in
    (
      length-fetch p.txs bound p.keys (pending_bound-le max (length p.keys)),
      fetch-AllHeld p bound p.keys h.keyed
          (present_of_count p p.keys (λ k. omega (arith, h.listed k))),
    )

-- After `RemoveIncluded` no transaction of the block is left under its key.
remove_included-AllGone :
    (order : List String → List String) (txs : List Transaction) (p : Pool)
    → AllGone (remove_included order txs p).txs txs
unfolding remove_included
remove_included-AllGone order txs p = remove_keys-AllGone txs p.txs
