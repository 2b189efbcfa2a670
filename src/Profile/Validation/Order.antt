-- ===== src/Profile/Validation/Order.antt =====
-- internal/profile/profile.go, Validate: the order of the affixes that a profile lists.
use pgfathom.Base.{
  ℕ, zero, suc, ◌+◌, ◌-◌, ◌≤◌, ◌<◌, ◌≡◌, refl, sym, ap, ◌∙◌, ◌⊎◌, inl, inr, Bool, true, false, none,
  List, [], ◌∷◌, arith, text_eq, length, drop, All, Bool-cases, Unicode, Str, codes, str_eq_sound,
  str_eq_refl, has_prefix, has_suffix,
}
use pgfathom.Profile.{Profile}
use pgfathom.Profile.Validation.{check_shadowed, check_order, check_lists, validate}

-- Of two affixes of one name, the longer has the shorter.
abbrev Nests : (Str → Str → Bool) → Type 0
Nests has =
    (name p q : Str) → has name p ≡ true → has name q ≡ true → length p < length q → has q p ≡ true

has_prefix-Nests : Nests has_prefix
has_prefix-Nests name [] q hp hq l = refl
has_prefix-Nests name (d ∷ p) [] hp hq l = absurd (omega arith)
has_prefix-Nests [] (d ∷ p) (e ∷ q) hp hq l = cc
has_prefix-Nests (c ∷ name) (d ∷ p) (e ∷ q) hp hq l = ground (arith, has_prefix-Nests name p q)

drop-nil : (n : ℕ) → drop {A = ℕ} n [] ≡ []
drop-nil zero = refl
drop-nil (suc n) = refl

drop-drop : (a b : ℕ) (s : Str) → drop a (drop b s) ≡ drop (b + a) s
drop-drop a zero s = ap (λ n. drop n s) (omega arith)
drop-drop a (suc b) [] = drop-nil a ∙ sym (drop-nil (suc b + a))
drop-drop a (suc b) (c ∷ s) = drop-drop a b s ∙ ap (λ n. drop n (c ∷ s)) step
  where
    step : suc (b + a) ≡ suc b + a
    step = omega arith

has_suffix_sound :
    (s p : Str) → has_suffix s p ≡ true → (length p ≤ length s) × (drop (length s - length p) s ≡ p)
has_suffix_sound s p h =
    (ground arith, str_eq_sound (drop (length s - length p) s) p (ground arith))

has_suffix-Nests : Nests has_suffix
has_suffix-Nests name p q hp hq l = rw (rest, str_eq_refl p) (ground arith)
  where
    rest : drop (length q - length p) q ≡ p
    rest =
        ap (drop (length q - length p)) (sym (has_suffix_sound name q hq).1)
        ∙ drop-drop (length q - length p) (length name - length q) name
        ∙ ap (λ n. drop n name) (lengths (has_suffix_sound name q hq).0)
        ∙ (has_suffix_sound name p hp).1
      where
        lengths :
            length q ≤ length name
            → length name - length q + (length q - length p) ≡ length name - length p
        lengths k = omega arith

-- No affix of the name is longer than one in front of it that the name has too.
abbrev pub IsLongestFirst : (Str → Str → Bool) → Str → List Str → Type 0
IsLongestFirst has name [] = Unit
IsLongestFirst has name (p ∷ after) =
    ((has name p ≡ false) ⊎ All (λ q. (has name q ≡ false) ⊎ (length q ≤ length p)) after)
    × IsLongestFirst has name after

check_shadowed-none :
    (has : Str → Str → Bool) (field name p : Str) (after : List Str)
    → Nests has
    → has name p ≡ true
    → check_shadowed has field p after ≡ none
    → All (λ q. (has name q ≡ false) ⊎ (length q ≤ length p)) after
unfolding check_shadowed
check_shadowed-none has field name p [] nests h c = tt
check_shadowed-none has field name p (q ∷ after) nests h c =
    (here, check_shadowed-none has field name p after nests h (ground arith))
  where
    here : (has name q ≡ false) ⊎ (length q ≤ length p)
    here = elim (Bool-cases (has name q)) [
      | inl e ↦ inr (ground (arith, nests name p q h e))
      | inr e ↦ inl e
    ]

check_order-IsLongestFirst :
    (has : Str → Str → Bool) (field name : Str) (items : List Str)
    → Nests has
    → check_order has field items ≡ none
    → IsLongestFirst has name items
unfolding check_order
check_order-IsLongestFirst has field name [] nests c = tt
check_order-IsLongestFirst has field name (p ∷ after) nests c =
    (here, check_order-IsLongestFirst has field name after nests (ground arith))
  where
    here : (has name p ≡ false) ⊎ All (λ q. (has name q ≡ false) ⊎ (length q ≤ length p)) after
    here = elim (Bool-cases (has name p)) [
      | inl e ↦ inr (check_shadowed-none has field name p after nests e (ground arith))
      | inr e ↦ inl e
    ]

module _ ⦃u : Unicode⦄ where
  -- In a profile that Validate accepts, of the affixes of one list that a name carries, the first is
  -- the longest: for column suffixes, column prefixes and table prefixes, and for every name.
  pub validate-IsLongestFirst :
      (p : Profile) (name : Str)
      → validate p ≡ none
      → IsLongestFirst has_suffix name p.column_suffixes
        × IsLongestFirst has_prefix name p.column_prefixes
        × IsLongestFirst has_prefix name p.table_prefixes
  unfolding validate check_lists
  validate-IsLongestFirst p name ok = (
    check_order-IsLongestFirst has_suffix (codes "column_suffixes") name p.column_suffixes
        has_suffix-Nests (ground arith),
    check_order-IsLongestFirst has_prefix (codes "column_prefixes") name p.column_prefixes
        has_prefix-Nests (ground arith),
    check_order-IsLongestFirst has_prefix (codes "table_prefixes") name p.table_prefixes
        has_prefix-Nests (ground arith),
  )
