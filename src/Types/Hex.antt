-- ===== src/Types/Hex.antt =====
-- The codes of Go's encoding/hex as the addresses and signatures use it.
use shiva_blockchain.Base.{
  ℕ, zero, suc, ◌+◌, ◌/◌, ◌%◌, ◌<◌, String, ◌≡◌, refl, ap, ◌∙◌, some, [], ◌∷◌, ◌++◌, arith, ltb,
  if◌then◌else◌, Bytes, codes, decimal_string, str_append,
}
use Prim.Native.Char.{code}
use mathlib.Core.Path.{subst}
use native.Mathlib.Decide.{ℕ_discrete}
use text.Mathlib.TextLemmas.{nil-append, cons-append}
use shiva_blockchain.Types.{hex_decode, hex_encode, hex_digit, hex_value, join_hex}

pub codes-append : (s t : String) → codes (str_append s t) ≡ codes s ++ codes t
codes-append String.[] t = ap codes (nil-append t)
codes-append (String.◌∷◌ c s) t =
    ap codes (cons-append c s t) ∙ ap (λ l. code c ∷ l) (codes-append s t)

-- A table of a predicate below a bound.
abbrev pub AllBelow : (ℕ → Type 0) → ℕ → Type 0
AllBelow P zero = Unit
AllBelow P (suc n) = P n × AllBelow P n

pub at_below : (P : ℕ → Type 0) (n x : ℕ) → AllBelow P n → x < n → P x
at_below P zero x t h = absurd (omega arith)
at_below P (suc n) x t h = elim (ℕ_discrete n x) [
  | yes e ↦ subst P e t.0
  | no ne ↦ at_below P n x t.1 (omega arith)
]

-- The character code of a digit.
abbrev hex_code : ℕ → ℕ
hex_code n = if ltb n 10 then n + 48 else n + 87

abbrev IsDigit : ℕ → Type 0
IsDigit n = (codes (hex_digit n) ≡ hex_code n ∷ []) × (hex_value (hex_code n) ≡ some n)

digits : AllBelow IsDigit 16
unfolding hex_digit hex_value decimal_string
digits = (
  (refl, refl),
  (
    (refl, refl),
    (
      (refl, refl),
      (
        (refl, refl),
        (
          (refl, refl),
          (
            (refl, refl),
            (
              (refl, refl),
              (
                (refl, refl),
                (
                  (refl, refl),
                  (
                    (refl, refl),
                    (
                      (refl, refl),
                      (
                        (refl, refl),
                        ((refl, refl), ((refl, refl), ((refl, refl), ((refl, refl), tt)))),
                      ),
                    ),
                  ),
                ),
              ),
            ),
          ),
        ),
      ),
    ),
  ),
)

abbrev pub AllBytes : Bytes → Type 0
AllBytes [] = Unit
AllBytes (b ∷ bs) = (b < 256) × AllBytes bs

codes-hex_encode :
    (b : ℕ) (bs : Bytes)
    → b < 256
    → codes (hex_encode (b ∷ bs)) ≡ hex_code (b / 16) ∷ hex_code (b % 16) ∷ codes (hex_encode bs)
unfolding hex_encode
codes-hex_encode b bs h =
    let hi = (at_below IsDigit 16 (b / 16) digits (omega arith)).0 in
    let lo = (at_below IsDigit 16 (b % 16) digits (omega arith)).0 in simp (codes-append, hi, lo)

-- Decoding what `hex.EncodeToString` prints of bytes gives the bytes back.
pub hex_decode-hex_encode :
    (bs : Bytes) → AllBytes bs → hex_decode (codes (hex_encode bs)) ≡ some bs
unfolding hex_decode join_hex
hex_decode-hex_encode [] h = unfold hex_encode in refl
hex_decode-hex_encode (b ∷ bs) h =
    let hi = (at_below IsDigit 16 (b / 16) digits (omega arith)).1 in
    let lo = (at_below IsDigit 16 (b % 16) digits (omega arith)).1 in
    rw (codes-hex_encode b bs h.0) (ground (arith, hi, lo, hex_decode-hex_encode bs h.1))
