-- ===== src/Base/Decimals.antt =====
-- strconv.Itoa and strconv.FormatInt in base 10.
use Prim.Native.Nat.{ℕ, zero, suc, ◌+◌, ◌-◌, ◌*◌, ◌/◌, ◌%◌, ◌<◌}
use mathlib.Core.Path.{◌≡◌, refl}
use mathlib.Core.List.{[], ◌∷◌, ◌++◌}
use native.Mathlib.Omega.{arith}
use mathlib.Core.Bool.{false}
use mathlib.Core.Logic.{inl, inr}
use pgfathom.Base.Tests.{ltb, ◌==◌, if◌then◌else◌, Bool-cases}
use pgfathom.Base.Lists.{any, All}
use pgfathom.Base.Ints.{ℤ, pos, negsuc}
use pgfathom.Base.Text.{Str, codes}

-- The digits of `n` before those that are there, on fuel.
digits : ℕ → ℕ → Str → Str
digits zero n out = out
digits (suc f) n out =
    let rest = digits f (n / 10) ((48 + n % 10) ∷ out) in if ltb n 10 then (48 + n) ∷ out else rest

unfoldable pub itoa : ℕ → Str
unfolding digits
itoa n = digits (suc n) n []

unfoldable pub format_int : ℤ → Str
format_int (pos n) = itoa n
format_int (negsuc n) = codes "-" ++ itoa (suc n)

-- The number that digits spell behind `n`.
abbrev pub decimal_value : ℕ → Str → ℕ
decimal_value n [] = n
decimal_value n (c ∷ s) = decimal_value (n * 10 + (c - 48)) s

digits_value :
    (f n : ℕ) (out : Str) → n < f → decimal_value 0 (digits f n out) ≡ decimal_value n out
unfolding digits
digits_value zero n out h = absurd (omega arith)
digits_value (suc f) n out h = ground (arith, digits_value f (n / 10) ((48 + n % 10) ∷ out))

-- The fuel is enough: what is printed spells the number.
pub itoa_value : (n : ℕ) → decimal_value 0 (itoa n) ≡ n
unfolding itoa
itoa_value n = digits_value (suc n) n [] (omega arith)

digit_no_break : (n : ℕ) → ((48 + n) == b'\n') ≡ false
digit_no_break n = ground arith

digits-any :
    (f n : ℕ) (out : Str)
    → any (λ c. c == b'\n') out ≡ false
    → any (λ c. c == b'\n') (digits f n out) ≡ false
unfolding digits
digits-any zero n out h = h
digits-any (suc f) n out h = elim (Bool-cases (ltb n 10)) [
  | inl e ↦ rw (e, digit_no_break n, h) refl
  | inr e ↦
      rw e (digits-any f (n / 10) ((48 + n % 10) ∷ out) (rw (digit_no_break (n % 10), h) refl))
]

-- A number is printed on one line.
pub itoa-any : (n : ℕ) → any (λ c. c == b'\n') (itoa n) ≡ false
unfolding itoa
itoa-any n = digits-any (suc n) n [] refl

module _ (P : ℕ → Type 0) (digit : (k : ℕ) → k < 10 → P (48 + k)) where
  digits-All : (f n : ℕ) (out : Str) → All P out → All P (digits f n out)
  unfolding digits
  digits-All zero n out h = h
  digits-All (suc f) n out h = elim (Bool-cases (ltb n 10)) [
    | inl e ↦ rw e (digit n (ground arith), h)
    | inr e ↦ rw e (digits-All f (n / 10) ((48 + n % 10) ∷ out) (digit (n % 10) (omega arith), h))
  ]

  -- What holds of ten digits holds of each byte of a printed number.
  pub itoa-All : (n : ℕ) → All P (itoa n)
  unfolding itoa
  itoa-All n = digits-All (suc n) n [] tt
