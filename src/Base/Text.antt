-- ===== src/Base/Text.antt =====
-- Go's strings: sequences of bytes, compared byte by byte. `strings.ToLower`, `strings.EqualFold`
-- and `strings.TrimSpace` are written out for text whose bytes are all below 0x80; what the
-- standard library does with other text rests on Unicode tables, and enters as an instance.
use Prim.Native.Nat.{ℕ, ◌+◌, ◌-◌}
use Prim.Native.Char.{code}
use Prim.Native.String.{String}
use mathlib.Core.Path.{◌≡◌, refl}
use mathlib.Core.Bool.{Bool, true, false, ◌&&◌, ◌||◌}
use mathlib.Core.List.{List, [], ◌∷◌, ◌++◌, map, reverse}
use mathlib.Core.Logic.{◌↔◌}
use native.Mathlib.Omega.{arith}
use pgfathom.Base.Tests.{ltb, leb, ◌==◌, if◌then◌else◌}
use pgfathom.Base.Lists.{length, drop, all}

abbrev pub Str : Type 0
Str = List ℕ

-- The code points of a literal: its bytes, since the program's literals used here are ASCII.
abbrev pub codes : String → Str
codes String.[] = []
codes (String.◌∷◌ c s) = code c ∷ codes s

-- the bytes of an em dash
abbrev pub em_dash : Str
em_dash = 0xe2 ∷ 0x80 ∷ 0x94 ∷ []

abbrev pub str_eq : Str → Str → Bool
str_eq [] [] = true
str_eq [] (d ∷ t) = false
str_eq (c ∷ s) [] = false
str_eq (c ∷ s) (d ∷ t) = c == d && str_eq s t

pub str_eq_sound : (s t : Str) → str_eq s t ≡ true → s ≡ t
str_eq_sound [] [] h = refl
str_eq_sound [] (d ∷ t) h = cc
str_eq_sound (c ∷ s) [] h = cc
str_eq_sound (c ∷ s) (d ∷ t) h = ground (arith, str_eq_sound s t)

pub str_eq_refl : (s : Str) → str_eq s s ≡ true
str_eq_refl [] = refl
str_eq_refl (c ∷ s) = ground (arith, str_eq_refl s)

pub str_eq_iff : (s t : Str) → (str_eq s t ≡ true) ↔ (s ≡ t)
str_eq_iff s t = (str_eq_sound s t, λ e. rw e (str_eq_refl t))

-- s < t, byte by byte
abbrev pub str_lt : Str → Str → Bool
str_lt s [] = false
str_lt [] (d ∷ t) = true
str_lt (c ∷ s) (d ∷ t) = ltb c d || (c == d && str_lt s t)

pub str_lt_asymm : (s t : Str) → str_lt s t ≡ true → str_lt t s ≡ false
str_lt_asymm s [] h = cc
str_lt_asymm [] (d ∷ t) h = refl
str_lt_asymm (c ∷ s) (d ∷ t) h = ground (arith, str_lt_asymm s t)

-- strings.HasPrefix, strings.HasSuffix
abbrev pub has_prefix : Str → Str → Bool
has_prefix s [] = true
has_prefix [] (d ∷ p) = false
has_prefix (c ∷ s) (d ∷ p) = c == d && has_prefix s p

abbrev pub has_suffix : Str → Str → Bool
has_suffix s p = leb (length p) (length s) && str_eq (drop (length s - length p) s) p

pub has_prefix_sound : (s p : Str) → has_prefix s p ≡ true → s ≡ p ++ drop (length p) s
has_prefix_sound s [] h = refl
has_prefix_sound [] (d ∷ p) h = cc
has_prefix_sound (c ∷ s) (d ∷ p) h = ground (arith, has_prefix_sound s p)

-- A byte that stands for a character by itself.
abbrev pub is_ascii : ℕ → Bool
is_ascii c = ltb c 0x80

abbrev pub lower_byte : ℕ → ℕ
lower_byte c = if leb b'A' c && leb c b'Z' then c + 32 else c

-- What the standard library does with text that is not all ASCII.
pub record Unicode : Type 0 where
  pub lower_wide : Str → Str
  pub fold_wide : Str → Str → Bool
  pub trim_wide : Str → Str

abbrev pub is_space_byte : ℕ → Bool
is_space_byte c = c == 32 || (leb 9 c && leb c 13)

abbrev pub trim_left : (ℕ → Bool) → Str → Str
trim_left p [] = []
trim_left p (c ∷ s) = if p c then trim_left p s else c ∷ s

abbrev pub trim : (ℕ → Bool) → Str → Str
trim p s = reverse (trim_left p (reverse (trim_left p s)))

module _ ⦃u : Unicode⦄ where
  -- strings.ToLower
  abbrev pub to_lower : Str → Str
  to_lower s = if all is_ascii s then map lower_byte s else u.lower_wide s

  -- strings.EqualFold
  abbrev pub equal_fold : Str → Str → Bool
  equal_fold s t =
      if all is_ascii s && all is_ascii t
      then str_eq (map lower_byte s) (map lower_byte t)
      else u.fold_wide s t

  -- strings.TrimSpace
  abbrev pub trim_space : Str → Str
  trim_space s = if all is_ascii s then trim is_space_byte s else u.trim_wide s
