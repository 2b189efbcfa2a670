-- ===== src/Base/Floats.antt =====
-- float64. The model has no floats of its own: the carrier and the operations are an instance
-- argument, with the laws of IEEE 754 that the program's reasoning rests on. NaN is allowed for:
-- `le` and `lt` are two tests, and neither is the negation of the other.
use Prim.Native.Nat.{ℕ, ◌<◌, ◌≤◌, ◌*◌, ◌^◌}
use mathlib.Core.Path.{◌≡◌}
use mathlib.Core.Bool.{Bool, true, false}
use mathlib.Core.List.{List}
use pgfathom.Base.Ints.{ℤ, pos, ◌≤ℤ◌}

pub record Float : Type 1 where
  pub F64 : Type 0
  -- the float64 nearest to an integer, `float64(n)`
  pub of_int : ℤ → F64
  -- a literal: `lit n k` is n / 10^k
  pub lit : ℤ → ℕ → F64
  pub add : F64 → F64 → F64
  pub sub : F64 → F64 → F64
  pub mul : F64 → F64 → F64
  pub div : F64 → F64 → F64
  pub neg : F64 → F64
  pub eq : F64 → F64 → Bool
  pub lt : F64 → F64 → Bool
  pub le : F64 → F64 → Bool
  -- math.Round followed by int64(·)
  pub round : F64 → ℤ
  -- strconv.FormatFloat(x, 'f', k, 64), which is also what %.kf prints
  pub format : F64 → ℕ → List ℕ
  -- Comparison: `lt` is irreflexive also at NaN, and the tests agree on what they order.
  pub lt_irrefl : (x : F64) → lt x x ≡ false
  pub not_lt_of_le : (x y : F64) → le x y ≡ true → lt y x ≡ false
  pub lt_of_le_lt : (x y z : F64) → le x y ≡ true → lt y z ≡ true → lt x z ≡ true
  pub lt_asymm : (x y : F64) → lt x y ≡ true → lt y x ≡ false
  pub eq_comm : (x y : F64) → eq x y ≡ eq y x
  pub le_trans : (x y z : F64) → le x y ≡ true → le y z ≡ true → le x z ≡ true
  -- An integer is the literal with no decimals, and a literal is rounded monotonically.
  pub of_int-lit : (n : ℤ) → of_int n ≡ lit n 0
  pub le-lit : (a b j k : ℕ) → a * 10 ^ k ≤ b * 10 ^ j → le (lit (pos a) j) (lit (pos b) k) ≡ true
  -- Doubling is exact.
  pub mul_two : (n : ℕ) → mul (of_int (pos 2)) (of_int (pos n)) ≡ of_int (pos (2 * n))
  pub div_self : (n : ℕ) → 0 < n → div (of_int (pos n)) (of_int (pos n)) ≡ of_int (pos 1)
  -- Conversion and division round, and rounding is monotone.
  pub le-of_int : (a b : ℤ) → a ≤ℤ b → le (of_int a) (of_int b) ≡ true
  pub le-div :
      (a b : ℤ) (n : ℕ)
      → a ≤ℤ b
      → 0 < n
      → le (div (of_int a) (of_int (pos n))) (div (of_int b) (of_int (pos n))) ≡ true
