-- ===== src/Base/Decimal.antt =====
-- `%d` of a `uint64` and of a `big.Int` that is not negative: its decimal digits.
pub mod Reading
use Prim.Native.Nat.{ℕ, zero, suc, ◌+◌, ◌/◌, ◌%◌}
use mathlib.Core.List.{[], ◌∷◌}
use Prim.Native.String.{String, ◌++◌ as str_append}
use shiva_blockchain.Base.Tests.{◌==◌, ltb, if◌then◌else◌}
use shiva_blockchain.Base.Text.{Bytes}

-- The digits of `n`, before the digits `acc`. Fuel `n` is more than the number of digits.
unfoldable pub digits_from : ℕ → ℕ → Bytes → Bytes
digits_from zero n acc = (n + b'0') ∷ acc
digits_from (suc fuel) n acc =
    let more = digits_from fuel (n / 10) ((n % 10 + b'0') ∷ acc) in
    if ltb n 10 then (n + b'0') ∷ acc else more

unfoldable pub decimal : ℕ → Bytes
unfolding digits_from
decimal n = digits_from n n []

-- One decimal digit as a string.
unfoldable pub digit : ℕ → String
digit n =
    if n == 0
    then "0"
    else if n == 1
    then "1"
    else if n == 2
    then "2"
    else if n == 3
    then "3"
    else if n == 4
    then "4"
    else if n == 5
    then "5"
    else if n == 6
    then "6"
    else if n == 7
    then "7"
    else if n == 8
    then "8"
    else "9"

unfoldable pub string_from : ℕ → ℕ → String → String
string_from zero n acc = str_append (digit n) acc
string_from (suc fuel) n acc =
    let more = string_from fuel (n / 10) (str_append (digit (n % 10)) acc) in
    if ltb n 10 then str_append (digit n) acc else more

-- `%d` inside a string that is only compared.
unfoldable pub decimal_string : ℕ → String
unfolding string_from digit
decimal_string n = string_from n n ""
