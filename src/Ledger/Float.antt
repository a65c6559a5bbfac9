-- ===== src/Ledger/Float.antt =====
-- Go's float64 as internal/ledger uses it: a type with its operations, which are given.
use shiva_blockchain.Base.{ℕ, String, ◌≡◌, Bool, true, false}

pub record Float64 (F : Type 0) : Type 0 where
  -- `strconv.ParseFloat(s, 64)`: the value, and whether there is no error.
  pub parse_float : String → F × Bool
  -- `fmt.Sprintf("%.12f", v)`
  pub fixed : F → String
  -- `math.IsNaN(v) || math.IsInf(v, 0)`
  pub is_special : F → Bool
  -- `float64(n)` of a uint64
  pub of_uint : ℕ → F
  -- The constant n / 10 ^ k.
  pub constant : ℕ → ℕ → F
  pub plus : F → F → F
  pub minus : F → F → F
  pub times : F → F → F
  pub over : F → F → F
  pub less : F → F → Bool
  pub at_most : F → F → Bool

-- What IEEE 754 says of `<` and `<=`. A value is a number where it is at most itself; NaN is not.
pub record IsOrdered {F : Type 0} (d : Float64 F) : Type 0 where
  pub nought_number : d.at_most (d.constant 0 0) (d.constant 0 0) ≡ true
  pub less_irrefl : (x : F) → d.less x x ≡ false
  pub number_of_less : (x y : F) → d.less x y ≡ true → d.at_most y y ≡ true
  pub less_trans : (x y z : F) → d.less x y ≡ true → d.less y z ≡ true → d.less x z ≡ true
  pub less_cotrans :
      (x y z : F)
      → d.at_most y y ≡ true
      → d.less x y ≡ false
      → d.less x z ≡ true
      → d.less y z ≡ true

-- A value that is like NaN: every comparison with it is false, sums and differences with it are not
-- finite numbers either.
pub record IsNan {F : Type 0} (d : Float64 F) (x : F) : Type 0 where
  pub not_at_most : (y : F) → d.at_most x y ≡ false
  pub never_above : (y : F) → d.less y x ≡ false
  pub plus_special : (y : F) → d.is_special (d.plus y x) ≡ true
  pub minus_special : (y : F) → d.is_special (d.minus y x) ≡ true
