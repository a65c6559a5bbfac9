-- ===== src/Rpc/Amount/Printed.antt =====
-- `ParseAmount` of the digits that `%d` prints, as `BridgeExecute` and `BridgeRoute` of
-- internal/bridge/onexswap.go pass them on.
use shiva_blockchain.Base.{
  ℕ, zero, suc, ◌+◌, ◌/◌, ◌%◌, ◌≤◌, ◌<◌, String, ◌≡◌, refl, inl, inr, Bool, true, false, ◌&&◌, none,
  [], ◌∷◌, arith, ltb, leb, ◌==◌, Bool-cases, length, u64_mod, add64, mul64, ok, Bytes, codes,
  decimal, decimal_string, str_append,
}
use shiva_blockchain.Base.Decimal.{digits_from}
use shiva_blockchain.Base.Decimal.Reading.{parse_uint-decimal, decimal-cons}
use shiva_blockchain.Base.Decimal.{digit, string_from}
use shiva_blockchain.Types.Hex.{codes-append, at_below, AllBelow}
use shiva_blockchain.Rpc.Amount.{
  parse_amount, trim_left, trim_right, trim_space, is_space, split_dot, parse_fraction, parse_bytes,
  unit_size,
}

-- Every byte is a decimal digit.
all_digits : Bytes → Bool
all_digits [] = true
all_digits (ch ∷ s) = leb b'0' ch && leb ch b'9' && all_digits s

all_digits-digits_from :
    (fuel n : ℕ) (l : Bytes)
    → n ≤ fuel
    → all_digits l ≡ true
    → all_digits (digits_from fuel n l) ≡ true
unfolding all_digits digits_from
all_digits-digits_from zero n l h k = ground (arith, k)
all_digits-digits_from (suc fuel) n l h k = elim (Bool-cases (ltb n 10)) [
  | inl one ↦ ground (arith, one, k)
  | inr more ↦
      let ih =
        all_digits-digits_from fuel (n / 10) ((n % 10 + b'0') ∷ l) (omega arith)
          (ground (arith, k)) in
      ground (arith, more, ih)
]

decimal-all_digits : (n : ℕ) → all_digits (decimal n) ≡ true
unfolding decimal all_digits
decimal-all_digits n = all_digits-digits_from n n [] (omega arith) refl

trim_right-all_digits : (s : Bytes) → all_digits s ≡ true → trim_right s ≡ s
unfolding all_digits trim_right is_space
trim_right-all_digits [] h = refl
trim_right-all_digits (ch ∷ []) h = ground arith
trim_right-all_digits (ch ∷ d ∷ s) h =
    let ih = trim_right-all_digits (d ∷ s) (ground arith) in ground (arith, ih)

trim_space-all_digits : (s : Bytes) → all_digits s ≡ true → trim_space s ≡ s
unfolding all_digits trim_space trim_left is_space
trim_space-all_digits [] h = trim_right-all_digits [] h
trim_space-all_digits (ch ∷ s) h = let ih = trim_right-all_digits (ch ∷ s) h in ground (arith, ih)

split_dot-all_digits : (s : Bytes) → all_digits s ≡ true → split_dot s ≡ (s, none)
unfolding all_digits split_dot
split_dot-all_digits [] h = refl
split_dot-all_digits (ch ∷ s) h =
    let ih = split_dot-all_digits s (ground arith) in ground (arith, ih)

decimal-filled : (n : ℕ) → (length (decimal n) == 0) ≡ false
decimal-filled n = let shape = decimal-cons n in ground (arith, shape.2)

-- The same on the bytes of the text.
parse_bytes-decimal : (n : ℕ) → n < u64_mod → parse_bytes (decimal n) ≡ ok (mul64 n unit_size)
unfolding parse_bytes parse_fraction mul64 add64
parse_bytes-decimal n small =
    let digits = decimal-all_digits n in
    let trimmed = trim_space-all_digits (decimal n) digits in
    let split = split_dot-all_digits (decimal n) digits in
    let read = parse_uint-decimal n in ground (arith, trimmed, split, read, decimal-filled n)

abbrev IsPrinted : ℕ → Type 0
IsPrinted n = codes (digit n) ≡ (n + b'0') ∷ []

printed : AllBelow IsPrinted 10
unfolding digit
printed = (refl, (refl, (refl, (refl, (refl, (refl, (refl, (refl, (refl, (refl, tt))))))))))

codes-string_from :
    (fuel n : ℕ) (acc : String)
    → n ≤ fuel
    → codes (string_from fuel n acc) ≡ digits_from fuel n (codes acc)
unfolding string_from digits_from
codes-string_from zero n acc h =
    let d = at_below IsPrinted 10 n printed (omega arith) in
    let split = codes-append (digit n) acc in ground (arith, d, split)
codes-string_from (suc fuel) n acc h = elim (Bool-cases (ltb n 10)) [
  | inl one ↦
      let d = at_below IsPrinted 10 n printed (ground (arith, one)) in
      ground (arith, one, d, codes-append (digit n) acc)
  | inr more ↦
      let d = at_below IsPrinted 10 (n % 10) printed (omega arith) in
      let ih = codes-string_from fuel (n / 10) (str_append (digit (n % 10)) acc) (omega arith) in
      ground (arith, more, d, ih, codes-append (digit (n % 10)) acc)
]

codes-decimal_string : (n : ℕ) → codes (decimal_string n) ≡ decimal n
unfolding decimal_string decimal
codes-decimal_string n = codes-string_from n n "" (omega arith)

-- What `%d` prints of a uint64 of atomic units, `ParseAmount` reads as that many whole ONEX: 10 ^ 8
-- times as much, wrapped around at 2 ^ 64.
pub parse_amount-decimal_string :
    (n : ℕ) → n < u64_mod → parse_amount (decimal_string n) ≡ ok (mul64 n unit_size)
unfolding parse_amount
parse_amount-decimal_string n small = rw (codes-decimal_string n) (parse_bytes-decimal n small)
