-- ===== src/Base/Decimal/Reading.antt =====
-- Reading decimal digits, as `strconv.ParseUint(s, 10, 64)` does, and what was printed read back.
use Prim.Native.Nat.{ℕ, zero, suc, ◌+◌, ◌-◌, ◌*◌, ◌/◌, ◌%◌, ◌≤◌, ◌^◌}
use mathlib.Core.Path.{◌≡◌, refl, ◌∙◌}
use mathlib.Core.Logic.{inl, inr}
use mathlib.Core.Bool.{◌&&◌}
use mathlib.Core.Option.{Option, none, some}
use mathlib.Core.List.{[], ◌∷◌}
use native.Mathlib.Omega.{arith}
use shiva_blockchain.Base.Tests.{ltb, leb, if◌then◌else◌, Bool-cases}
use shiva_blockchain.Base.Text.{Bytes}
use shiva_blockchain.Base.Decimal.{digits_from, decimal}

-- The number that the digits `l` make after the number `acc`; `none` at a character of another kind.
unfoldable pub read_digits : ℕ → Bytes → Option ℕ
read_digits acc [] = some acc
read_digits acc (ch ∷ l) =
    let rest = read_digits (acc * 10 + (ch - b'0')) l in
    if leb b'0' ch && leb ch b'9' then rest else none

-- `strconv.ParseUint(s, 10, 64)`: `none` is its error, of syntax or of range.
unfoldable pub parse_uint : Bytes → Option ℕ
parse_uint [] = none
parse_uint (ch ∷ l) = elim (read_digits 0 (ch ∷ l)) [
  | none ↦ none
  | some n ↦ if ltb n (2 ^ 64) then some n else none
]

pub read_digits-digits_from :
    (fuel n : ℕ) (l : Bytes) → n ≤ fuel → read_digits 0 (digits_from fuel n l) ≡ read_digits n l
unfolding read_digits digits_from
read_digits-digits_from zero n l h = ground arith
read_digits-digits_from (suc fuel) n l h = elim (Bool-cases (ltb n 10)) [
  | inl one ↦ ground (arith, one)
  | inr more ↦
      rw more
        (read_digits-digits_from fuel (n / 10) ((n % 10 + b'0') ∷ l) (omega arith) ∙ ground arith)
]

-- Reading the decimal digits of a number gives the number.
pub read_digits-decimal : (n : ℕ) → read_digits 0 (decimal n) ≡ some n
unfolding decimal read_digits
read_digits-decimal n = read_digits-digits_from n n [] (omega arith)

digits_from-cons :
    (fuel n : ℕ) (l : Bytes) → (ch : ℕ) × (r : Bytes) × (digits_from fuel n l ≡ ch ∷ r)
unfolding digits_from
digits_from-cons zero n l = (n + b'0', l, refl)
digits_from-cons (suc fuel) n l = elim (Bool-cases (ltb n 10)) [
  | inl one ↦ (n + b'0', l, rw one refl)
  | inr more ↦ rw more (digits_from-cons fuel (n / 10) ((n % 10 + b'0') ∷ l))
]

read_digits-nil : (n : ℕ) → read_digits n [] ≡ some n
unfolding read_digits
read_digits-nil n = refl

-- A number has at least one digit.
pub decimal-cons : (n : ℕ) → (ch : ℕ) × (r : Bytes) × (decimal n ≡ ch ∷ r)
unfolding decimal
decimal-cons n = digits_from-cons n n []

-- `ParseUint` reads back every uint64 that `%d` prints, and refuses what does not fit.
pub parse_uint-decimal :
    (n : ℕ) → parse_uint (decimal n) ≡ (if ltb n (2 ^ 64) then some n else none)
unfolding parse_uint decimal
parse_uint-decimal n =
    let shape = digits_from-cons n n [] in
    let read = read_digits-digits_from n n [] (omega arith) in
    ground (arith, shape.2, read, read_digits-nil n)
