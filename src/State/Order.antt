-- ===== src/State/Order.antt =====
-- The order in which internal/chain/state.go sorts addresses, and that a sorted list is determined
-- by what stands in it.
use shiva_blockchain.Base.{
  suc, String, ◌≡◌, refl, ap, ◌∙◌, ◌⊎◌, inl, inr, Bool, true, false, List, [], ◌∷◌, arith, str_eq,
  ltb, ◌==◌, if◌then◌else◌, Bool-cases,
}
use Prim.Native.Nat.{Ordering}
use Prim.Native.Char.{Char, code}
use Prim.Native.String.compare
use text.Mathlib.TextEquality.{codes_equal}
use text.Mathlib.TextPositions.{compare_self}
use shiva_blockchain.Assoc.Keys.{count}
use shiva_blockchain.State.{str_le, insert_sorted, sort_strings}

abbrev not_gt : Ordering → Bool
not_gt o = elim o [ Ordering.gt ↦ false | _ ↦ true ]

str_le-nil : (b : String) → str_le String.[] b ≡ true
str_le-nil String.[] = ap not_gt compare.nil-nil
str_le-nil (String.◌∷◌ d t) = ap not_gt (compare.nil-cons d t)

str_le-cons-nil : (c : Char) (s : String) → str_le (String.◌∷◌ c s) String.[] ≡ false
str_le-cons-nil c s = ap not_gt (compare.cons-nil c s)

str_le-cons :
    (c d : Char) (s t : String)
    → str_le (String.◌∷◌ c s) (String.◌∷◌ d t)
      ≡ (if ltb (code c) (code d) then true else if code c == code d then str_le s t else false)
str_le-cons c d s t = ap not_gt (compare.cons-cons c d s t) ∙ ground arith

-- Two letters with one code are one letter.
code_injective : (c d : Char) → code c ≡ code d → c ≡ d
code_injective c d e = codes_equal c d (rw e (compare_self (code d)))

pub str_le_total : (a b : String) → (str_le a b ≡ true) ⊎ (str_le b a ≡ true)
str_le_total String.[] b = inl (str_le-nil b)
str_le_total (String.◌∷◌ c s) String.[] = inr (str_le-nil (String.◌∷◌ c s))
str_le_total (String.◌∷◌ c s) (String.◌∷◌ d t) =
    ground (arith, str_le-cons c d s t, str_le-cons d c t s, str_le_total s t)

pub str_le_antisymm : (a b : String) → str_le a b ≡ true → str_le b a ≡ true → a ≡ b
str_le_antisymm String.[] String.[] h k = refl
str_le_antisymm String.[] (String.◌∷◌ d t) h k = ground (arith, str_le-cons-nil d t)
str_le_antisymm (String.◌∷◌ c s) String.[] h k = ground (arith, str_le-cons-nil c s)
str_le_antisymm (String.◌∷◌ c s) (String.◌∷◌ d t) h k =
    ground
      (arith, str_le-cons c d s t, str_le-cons d c t s, str_le_antisymm s t, code_injective c d)

pub str_le_trans : (a b c : String) → str_le a b ≡ true → str_le b c ≡ true → str_le a c ≡ true
str_le_trans String.[] b c h k = str_le-nil c
str_le_trans (String.◌∷◌ x a) String.[] c h k = ground (arith, str_le-cons-nil x a)
str_le_trans (String.◌∷◌ x a) (String.◌∷◌ y b) String.[] h k = ground (arith, str_le-cons-nil y b)
str_le_trans (String.◌∷◌ x a) (String.◌∷◌ y b) (String.◌∷◌ z c) h k =
    ground
      (arith, str_le-cons x y a b, str_le-cons y z b c, str_le-cons x z a c, str_le_trans a b c)

-- Each string is at most all that follow it.
abbrev pub AllAbove : String → List String → Type 0
AllAbove a [] = Unit
AllAbove a (b ∷ l) = (str_le a b ≡ true) × AllAbove a l

abbrev pub IsSorted : List String → Type 0
IsSorted [] = Unit
IsSorted (a ∷ l) = AllAbove a l × IsSorted l

AllAbove-below : (a b : String) (l : List String) → str_le a b ≡ true → AllAbove b l → AllAbove a l
AllAbove-below a b [] h all = tt
AllAbove-below a b (x ∷ l) h (k, all) = (str_le_trans a b x h k, AllAbove-below a b l h all)

AllAbove-insert_sorted :
    (a b : String) (l : List String)
    → str_le a b ≡ true
    → AllAbove a l
    → AllAbove a (insert_sorted b l)
unfolding insert_sorted
AllAbove-insert_sorted a b [] h all = (h, tt)
AllAbove-insert_sorted a b (x ∷ l) h (k, all) = elim (Bool-cases (str_le b x)) [
  | inl le ↦ rw le (h, (k, all))
  | inr gt ↦ rw gt (k, AllAbove-insert_sorted a b l h all)
]

insert_sorted-IsSorted : (a : String) (l : List String) → IsSorted l → IsSorted (insert_sorted a l)
unfolding insert_sorted
insert_sorted-IsSorted a [] s = (tt, tt)
insert_sorted-IsSorted a (b ∷ l) (above, s) = elim (Bool-cases (str_le a b)) [
  | inl le ↦ rw le ((le, AllAbove-below a b l le above), (above, s))
  | inr gt ↦
      let le : str_le b a ≡ true = ground (arith, str_le_total a b) in
      rw gt (AllAbove-insert_sorted b a l le above, insert_sorted-IsSorted a l s)
]

pub sort_strings-IsSorted : (l : List String) → IsSorted (sort_strings l)
unfolding sort_strings
sort_strings-IsSorted [] = tt
sort_strings-IsSorted (a ∷ l) = insert_sorted-IsSorted a (sort_strings l) (sort_strings-IsSorted l)

count-insert_sorted :
    (k a : String) (l : List String)
    → count k (insert_sorted a l) ≡ (if str_eq a k then suc (count k l) else count k l)
unfolding insert_sorted count
count-insert_sorted k a [] = refl
count-insert_sorted k a (b ∷ l) = ground (arith, count-insert_sorted k a l)

pub count-sort_strings : (k : String) (l : List String) → count k (sort_strings l) ≡ count k l
unfolding sort_strings count
count-sort_strings k [] = refl
count-sort_strings k (a ∷ l) =
    ground (arith, count-insert_sorted k a (sort_strings l), count-sort_strings k l)
