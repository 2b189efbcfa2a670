-- ===== src/Witnesses/Fixed.antt =====
-- A concrete instance of each parameter, for the runs at concrete inputs: numbers with four decimal
-- places in place of float64, and text that is all ASCII.

use native.Mathlib.Nat.{
  one-le-pow, le_of_mul-le-mul_right, mul-div_right, le-div_iff_mul-le, div-mul-le_self,
  mul-le-mul_right,
}
use pgfathom.Base.{
  ℕ, zero, suc, ◌+◌, ◌*◌, ◌/◌, ◌%◌, ◌^◌, ◌≤◌, ◌<◌, ◌≡◌, refl, ap, true, ◌&&◌, ◌∷◌, ◌++◌, arith,
  itoa, text_eq, Float, ℤ, pos_part, neg_part, ◌+ℤ◌, ◌≤ℤ◌, leb_ℤ, ltb_ℤ, ◌-ℤ◌, drop, Unicode, Str,
  str_eq, pos, negsuc,
}

abbrev pub unit_scale : ℕ
unit_scale = 10000

abbrev neg_of : ℕ → ℤ
neg_of zero = pos 0
neg_of (suc n) = negsuc n

abbrev negate : ℤ → ℤ
negate (pos n) = neg_of n
negate (negsuc n) = pos (suc n)

-- x * m / d, rounded toward zero
abbrev scaled : ℤ → ℕ → ℕ → ℤ
scaled (pos a) m d = pos (a * m / d)
scaled (negsuc a) m d = neg_of (suc a * m / d)

abbrev times : ℤ → ℤ → ℤ
times x (pos m) = scaled x m unit_scale
times x (negsuc m) = negate (scaled x (suc m) unit_scale)

abbrev over : ℤ → ℤ → ℤ
over x (pos m) = scaled x unit_scale m
over x (negsuc m) = negate (scaled x unit_scale (suc m))

abbrev fixed_lit : ℤ → ℕ → ℤ
fixed_lit a k = scaled a unit_scale (10 ^ k)

abbrev rounded : ℤ → ℤ
rounded (pos n) = pos ((n + 5000) / 10000)
rounded (negsuc n) = neg_of ((suc n + 5000) / 10000)

abbrev pub decimals : ℕ → ℕ → Str
decimals q zero = itoa q
decimals q (suc k) = let d = 10 ^ suc k in itoa (q / d) ++ (b'.' ∷ drop 1 (itoa (d + q % d)))

abbrev pub printed : ℤ → ℕ → Str
printed (pos n) k = decimals ((n * 10 ^ k + 5000) / 10000) k
printed (negsuc n) k = b'-' ∷ decimals ((suc n * 10 ^ k + 5000) / 10000) k

abbrev div_mono : (a b d : ℕ) → 0 < d → a ≤ b → a / d ≤ b / d
div_mono a b d h e = (le-div_iff_mul-le h).1 (omega (arith, div-mul-le_self a d))

abbrev neg_of_parts : (n : ℕ) → (pos_part (neg_of n) ≡ 0) × (neg_part (neg_of n) ≡ n)
neg_of_parts zero = (refl, refl)
neg_of_parts (suc n) = (refl, refl)

abbrev scaled_mono : (a b : ℤ) (m d : ℕ) → 0 < d → a ≤ℤ b → scaled a m d ≤ℤ scaled b m d
scaled_mono (pos a) (pos b) m d h e =
    let q = div_mono (a * m) (b * m) d h (mul-le-mul_right m (omega arith)) in omega arith
scaled_mono (pos a) (negsuc b) m d h e = absurd (omega arith)
scaled_mono (negsuc a) (pos b) m d h e =
    let q = neg_of_parts (suc a * m / d) in omega (arith, q.0, q.1)
scaled_mono (negsuc a) (negsuc b) m d h e =
    let p = neg_of_parts (suc a * m / d) in
    let q = neg_of_parts (suc b * m / d) in
    let r = div_mono (suc b * m) (suc a * m) d h (mul-le-mul_right m (omega arith)) in
    omega (arith, p.0, p.1, q.0, q.1, r)

abbrev lit_mono :
    (a b j k : ℕ) → a * 10 ^ k ≤ b * 10 ^ j → fixed_lit (pos a) j ≤ℤ fixed_lit (pos b) k
lit_mono a b j k h =
    let p = 10 ^ j in
    let r = 10 ^ k in
    let q = a * unit_scale / p in
    let below = mul-le-mul_right r (div-mul-le_self (a * unit_scale) p) in
    let across = mul-le-mul_right unit_scale h in
    let le : q * r ≤ b * unit_scale =
      le_of_mul-le-mul_right (omega (arith, below, across)) (one-le-pow j 10 (omega arith)) in
    let least = (le-div_iff_mul-le (one-le-pow k 10 (omega arith))).1 le in omega (arith, least)

abbrev leb_ℤ_intro : (x y : ℤ) → x ≤ℤ y → leb_ℤ x y ≡ true
leb_ℤ_intro x y h = ground arith

abbrev over_mono :
    (a b : ℤ) (n : ℕ)
    → a ≤ℤ b
    → 0 < n
    → over (fixed_lit a 0) (fixed_lit (pos n) 0) ≤ℤ over (fixed_lit b 0) (fixed_lit (pos n) 0)
over_mono a b n h l =
    scaled_mono (fixed_lit a 0) (fixed_lit b 0) unit_scale (n * unit_scale / 1) (omega arith)
      (scaled_mono a b unit_scale 1 (omega arith) h)

instance abbrev pub fixed : Float
fixed = record {
  F64 = ℤ;
  of_int = λ n. fixed_lit n 0;
  lit = fixed_lit;
  add = ◌+ℤ◌;
  sub = ◌-ℤ◌;
  mul = times;
  div = over;
  neg = negate;
  eq = λ x y. leb_ℤ x y && leb_ℤ y x;
  lt = ltb_ℤ;
  le = leb_ℤ;
  round = rounded;
  format = printed;
  lt_irrefl = λ x. ground arith;
  not_lt_of_le = λ x y h. ground arith;
  lt_of_le_lt = λ x y z h l. ground arith;
  lt_asymm = λ x y h. ground arith;
  eq_comm = λ x y. ground arith;
  le_trans = λ x y z h l. ground arith;
  of_int-lit = λ n. refl;
  le-lit =
      λ a b j k h. leb_ℤ_intro (fixed_lit (pos a) j) (fixed_lit (pos b) k) (lit_mono a b j k h);
  mul_two = λ n. ap pos (omega arith);
  div_self = λ n h. ap pos (mul-div_right unit_scale (omega arith));
  le-of_int = λ a b h.
      leb_ℤ_intro (fixed_lit a 0) (fixed_lit b 0) (scaled_mono a b unit_scale 1 (omega arith) h);
  le-div = λ a b n h l.
      leb_ℤ_intro (over (fixed_lit a 0) (fixed_lit (pos n) 0))
        (over (fixed_lit b 0) (fixed_lit (pos n) 0)) (over_mono a b n h l);
}

instance abbrev pub ascii : Unicode
ascii = record { lower_wide = λ s. s; fold_wide = str_eq; trim_wide = λ s. s }
