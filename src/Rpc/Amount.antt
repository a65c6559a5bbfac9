-- ===== src/Rpc/Amount.antt =====
-- `ParseAmount` of internal/rpc/rpc.go: a decimal number of ONEX as atomic units of 10 ^ -8.
pub mod Printed
use shiva_blockchain.Base.{
  ℕ, zero, suc, ◌+◌, ◌-◌, ◌*◌, ◌/◌, ◌%◌, ◌^◌, ◌≤◌, ◌<◌, String, ◌≡◌, refl, sym, ap, ◌∙◌, ◌≢◌, ◌↔◌,
  ◌⊎◌, inl, inr, Bool, true, false, not, ◌&&◌, ◌||◌, Option, none, some, List, [], ◌∷◌, ◌++◌, map,
  foldl, arith, str_eq, eq_iff, eq_refl, ltb, leb, ◌==◌, if◌then◌else◌, ltb→lt, lt→ltb, leb→le,
  ==_iff, tests, Bool-cases, Option-cases, length, take, length-append, length-take-le, u64_mod,
  add64, sub64, mul64, add64-eq-add, sub64-eq-sub, add64-lt, word_laws, Result, ok, err, ◌>>=◌,
  ◌>>◌, fail_if, or_fail, map_err, Result-cases, Bytes, codes, has_prefix, decimal, decimal_string,
  str_append,
}
use shiva_blockchain.Base.Decimal.Reading.{parse_uint, parse_uint-decimal}

pub data AmountError : Type 0 where
  empty_amount bad_number too_many_decimals : AmountError

-- ASCII white space of `strings.TrimSpace`.
unfoldable pub is_space : ℕ → Bool
is_space ch = ch == 32 || leb 9 ch && leb ch 13

trim_left : Bytes → Bytes
trim_left [] = []
trim_left (ch ∷ s) = if is_space ch then trim_left s else ch ∷ s

trim_right : Bytes → Bytes
trim_right [] = []
trim_right (ch ∷ s) = elim (trim_right s) [
  | [] ↦ if is_space ch then [] else ch ∷ []
  | d ∷ r ↦ ch ∷ d ∷ r
]

-- `strings.TrimSpace`
unfoldable pub trim_space : Bytes → Bytes
unfolding is_space trim_left trim_right
trim_space s = trim_right (trim_left s)

-- `strings.SplitN(s, ".", 2)`: the part before the first '.', and the part after it, if there is one.
unfoldable pub split_dot : Bytes → Bytes × Option Bytes
split_dot [] = ([], none)
split_dot (ch ∷ s) =
    let (before, after) = split_dot s in if ch == b'.' then ([], some s) else (ch ∷ before, after)

-- `for len(fracStr) < 8 { fracStr += "0" }`
unfoldable pub pad_right : ℕ → Bytes → Bytes
pad_right zero s = s
pad_right (suc n) s = pad_right n (s ++ (b'0' ∷ []))

-- The digits behind the point.
unfoldable pub parse_fraction : Option Bytes → Result AmountError ℕ
parse_fraction none = ok 0
parse_fraction (some digits) =
    if ltb 8 (length digits)
    then err too_many_decimals
    else or_fail (parse_uint (pad_right (8 - length digits) digits)) bad_number

abbrev pub unit_size : ℕ
unit_size = 100000000

-- `ParseAmount` of the bytes of a text.
unfoldable pub parse_bytes : Bytes → Result AmountError ℕ
parse_bytes s =
    let text = trim_space s in
    let (before, after) = split_dot text in
    if length text == 0
    then err empty_amount
    else or_fail (parse_uint before) bad_number >>= λ whole.
        (parse_fraction after >>= λ frac. ok (add64 (mul64 whole unit_size) frac))

-- `ParseAmount`
unfoldable pub parse_amount : String → Result AmountError ℕ
parse_amount s = parse_bytes (codes s)
