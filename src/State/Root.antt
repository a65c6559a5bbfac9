-- ===== src/State/Root.antt =====
-- The state root of internal/chain/state.go is a function of the map, not of its order.
use shiva_blockchain.Base.{◌<◌, String, ◌≡◌, refl, ap, true, List, [], ◌∷◌, arith, eq_iff}
use shiva_blockchain.State.{compute_state_root, str_le, root_parts, account, sort_strings}
use shiva_blockchain.Assoc.Keys.{count, IsMap}
use shiva_blockchain.Types.{ChainState}
use shiva_blockchain.State.Order.{
  AllAbove, IsSorted, str_le_total, str_le_antisymm, sort_strings-IsSorted, count-sort_strings,
}
use shiva_blockchain.Crypto.{Primitives, hash}
use shiva_blockchain.Assoc.{lookup, get_or, keys}

AllAbove-le : (a k : String) (l : List String) → AllAbove a l → 0 < count k l → str_le a k ≡ true
unfolding count
AllAbove-le a k [] all h = elim h [ ]
AllAbove-le a k (b ∷ l) (le, all) h = ground (arith, eq_iff b k, AllAbove-le a k l)

-- The first of a sorted list is at most each that it holds.
head-le : (a k : String) (l : List String) → AllAbove a l → 0 < count k (a ∷ l) → str_le a k ≡ true
unfolding count
head-le a k l all h = ground (arith, eq_iff a k, str_le_total a k, AllAbove-le a k l)

pub sorted_unique :
    (l m : List String) → IsSorted l → IsSorted m → ((k : String) → count k l ≡ count k m) → l ≡ m
unfolding count
sorted_unique [] [] s t same = refl
sorted_unique [] (b ∷ m) s t same = ground (arith, same b, eq_iff b b)
sorted_unique (a ∷ l) [] s t same = ground (arith, same a, eq_iff a a)
sorted_unique (a ∷ l) (b ∷ m) s t same =
    let below : str_le b a ≡ true = head-le b a m t.0 (ground (arith, same a, eq_iff a a)) in
    let above : str_le a b ≡ true = head-le a b l s.0 (ground (arith, same b, eq_iff b b)) in
    let heads : a ≡ b = str_le_antisymm a b above below in
    let tails : l ≡ m = sorted_unique l m s.1 t.1 (λ k. ground (arith, heads, same k)) in cc

module _ (s t : ChainState) (agree : (a : String) → lookup a s ≡ lookup a t) where
  account_agree : (a : String) → account s a ≡ account t a
  unfolding get_or
  account_agree a = ground (arith, agree a)

  root_parts_agree : (l : List String) → root_parts s l ≡ root_parts t l
  unfolding root_parts
  root_parts_agree [] = refl
  root_parts_agree (a ∷ l) = rw (account_agree a, root_parts_agree l)

  module _ (left : IsMap s) (right : IsMap t) where
    keys_agree : (a : String) → count a (keys s) ≡ count a (keys t)
    keys_agree a = ground (arith, left.once a, right.once a, agree a)

    sorted_agree : sort_strings (keys s) ≡ sort_strings (keys t)
    sorted_agree =
        sorted_unique (sort_strings (keys s)) (sort_strings (keys t))
          (sort_strings-IsSorted (keys s)) (sort_strings-IsSorted (keys t))
          (λ a.
            omega
              (arith, count-sort_strings a (keys s), count-sort_strings a (keys t), keys_agree a))

-- Two states with the same content have the same root, in whatever order they hold it.
pub compute_state_root_content :
    (c : Primitives) (s t : ChainState)
    → IsMap s
    → IsMap t
    → ((a : String) → lookup a s ≡ lookup a t)
    → compute_state_root c s ≡ compute_state_root c t
unfolding compute_state_root lookup
compute_state_root_content c [] [] left right agree = refl
compute_state_root_content c [] ((a, v) ∷ t) left right agree = ground (arith, agree a, eq_iff a a)
compute_state_root_content c ((a, v) ∷ s) [] left right agree = ground (arith, agree a, eq_iff a a)
compute_state_root_content c (e ∷ s) (f ∷ t) left right agree =
    rw (sorted_agree (e ∷ s) (f ∷ t) agree left right)
      (ap (hash c) (root_parts_agree (e ∷ s) (f ∷ t) agree (sort_strings (keys (f ∷ t)))))
