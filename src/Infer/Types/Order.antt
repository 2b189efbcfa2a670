-- ===== src/Infer/Types/Order.antt =====
-- internal/infer/types.go, CompareTypes: fitting as a relation between types.
use pgfathom.Base.{
  ℕ, ◌≤◌, ◌<◌, ◌≡◌, refl, ap, ◌∙◌, ◌≢◌, ◌↔◌, ◌⊎◌, inl, inr, true, false, Option, none, some, [],
  ◌∷◌, arith, text_eq, Bool-cases, Option-cases, Str, codes, str_eq, str_eq_sound, str_eq_iff,
}
use pgfathom.Infer.Types.{integer_width, is_textual, compare_families, compare_types, is_compatible}

abbrev pub Fits : Str → Str → Type 0
Fits child parent = is_compatible (compare_types child parent) ≡ true

-- An integer type of some width.
abbrev pub HasWidth : Str → ℕ → Type 0
HasWidth t w = integer_width t ≡ some w

-- The two types are of one family, and the parent's values include the child's.
abbrev pub Widens : Str → Str → Type 0
Widens child parent =
    ((cw : ℕ) × (pw : ℕ) × HasWidth child cw × HasWidth parent pw × (cw ≤ pw))
    ⊎ ((is_textual child ≡ true) × (is_textual parent ≡ true))

-- No integer type is textual.
textual-width : (t : Str) → is_textual t ≡ true → integer_width t ≡ none
unfolding is_textual integer_width
textual-width t h = ground (
  arith,
  str_eq_iff t (codes "text"),
  str_eq_iff t (codes "varchar"),
  str_eq_iff t (codes "bpchar"),
)

families_sound :
    (o : Option ℕ) (child parent : Str)
    → integer_width child ≡ o
    → is_compatible (compare_families o child parent) ≡ true
    → Widens child parent
unfolding compare_families is_compatible
families_sound none child parent e h = inr (ground arith, ground arith)
families_sound (some cw) child parent e h = elim (Option-cases (integer_width parent)) [
  | inl f ↦ cc (f)
  | inr (pw, f) ↦ inl (cw, pw, e, f, ground arith)
]

families_complete :
    (child parent : Str)
    → Widens child parent
    → is_compatible (compare_families (integer_width child) child parent) ≡ true
unfolding compare_families is_compatible
families_complete child parent (inl (cw, pw, e, f, le)) = rw (e, f) (ground arith)
families_complete child parent (inr (a, b)) = rw (textual-width child a, a, b)

is_empty_iff : (s : Str) → (str_eq s [] ≡ false) ↔ (s ≢ [])
is_empty_iff [] = (λ e. cc, λ h. absurd (h refl))
is_empty_iff (c ∷ s) = (λ e. cc, λ h. refl)

-- A child's type fits a key's type exactly when both are known and they are the same type, or both
-- are integers and the key's is at least as wide, or both are text.
pub Fits-iff :
    (child parent : Str)
    → Fits child parent ↔ ((child ≢ []) × (parent ≢ []) × ((child ≡ parent) ⊎ Widens child parent))
unfolding compare_types is_compatible
Fits-iff child parent = (sound, complete)
  where
    sound :
        Fits child parent → (child ≢ []) × (parent ≢ []) × ((child ≡ parent) ⊎ Widens child parent)
    sound h = elim (Bool-cases (str_eq child parent)) [
      | inl e ↦ (
        (is_empty_iff child).0 (ground arith),
        (is_empty_iff parent).0 (ground arith),
        inl (str_eq_sound child parent e),
      )
      | inr e ↦ (
        (is_empty_iff child).0 (ground arith),
        (is_empty_iff parent).0 (ground arith),
        inr (families_sound (integer_width child) child parent refl (ground arith)),
      )
    ]

    complete :
        (child ≢ []) × (parent ≢ []) × ((child ≡ parent) ⊎ Widens child parent) → Fits child parent
    complete (a, b, inl e) =
        rw ((is_empty_iff child).1 a, (is_empty_iff parent).1 b, (str_eq_iff child parent).1 e)
    complete (a, b, inr w) = ground (
      arith,
      (is_empty_iff child).1 a,
      (is_empty_iff parent).1 b,
      families_complete child parent w,
    )

Widens-trans : (a b c : Str) → Widens a b → Widens b c → Widens a c
Widens-trans a b c (inl (i, j, ei, ej, ij)) (inl (k, l, ek, el, kl)) =
    inl (i, l, ei, el, ground arith)
Widens-trans a b c (inl (i, j, ei, ej, ij)) (inr (tb, tc)) = cc (textual-width b tb)
Widens-trans a b c (inr (ta, tb)) (inl (k, l, ek, el, kl)) = cc (textual-width b tb)
Widens-trans a b c (inr (ta, tb)) (inr (tb', tc)) = inr (ta, tc)

-- Fitting is transitive: a column that fits a key fits whatever that key's type fits.
pub Fits-trans : (a b c : Str) → Fits a b → Fits b c → Fits a c
Fits-trans a b c h k = (Fits-iff a c).1 (go ((Fits-iff a b).0 h) ((Fits-iff b c).0 k))
  where
    go :
        (a ≢ []) × (b ≢ []) × ((a ≡ b) ⊎ Widens a b)
        → (b ≢ []) × (c ≢ []) × ((b ≡ c) ⊎ Widens b c)
        → (a ≢ []) × (c ≢ []) × ((a ≡ c) ⊎ Widens a c)
    go (na, nb, inl e) (nb', nc, inl f) = (na, nc, inl (e ∙ f))
    go (na, nb, inl e) (nb', nc, inr w) = (na, nc, inr (rw e w))
    go (na, nb, inr w) (nb', nc, inl f) = (na, nc, inr (rw (← f) w))
    go (na, nb, inr v) (nb', nc, inr w) = (na, nc, inr (Widens-trans a b c v w))

-- An integer column never fits a narrower integer key.
pub Fits-narrow :
    (child parent : Str) (cw pw : ℕ)
    → HasWidth child cw
    → HasWidth parent pw
    → pw < cw
    → ¬ Fits child parent
Fits-narrow child parent cw pw hc hp lt h = refute ((Fits-iff child parent).0 h)
  where
    refute : (child ≢ []) × (parent ≢ []) × ((child ≡ parent) ⊎ Widens child parent) → ⊥
    refute (_, _, inl e) = ground (arith, ap integer_width e)
    refute (_, _, inr (inl (i, j, ei, ej, ij))) = ground arith
    refute (_, _, inr (inr (tc, tp))) = cc (textual-width child tc)
