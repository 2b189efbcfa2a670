-- ===== src/Profile/Normalize/Entity.antt =====
-- internal/profile/normalize.go, EntityName: what is left of a name.
use pgfathom.Base.{
  ◌-◌, ◌≡◌, refl, sym, ap, ◌∙◌, ◌≢◌, ◌⊎◌, inl, inr, false, Option, none, some, List, [], ◌∷◌, arith,
  text_eq, length, take, drop, Bool-cases, Option-cases, Unicode, Str, str_eq, str_eq_sound,
  str_eq_iff,
}
use pgfathom.Profile.{Profile}
use pgfathom.Profile.Normalize.{
  unless_empty, trim_underscores, trim_suffix, trim_prefix, first_trimmed, or_name, folded,
  entity_name,
}

-- Something is left of the name when the underscores around it are removed.
abbrev pub IsNamed : Str → Type 0
IsNamed name = trim_underscores name ≢ []

-- A way to strip one affix leaves a name.
abbrev LeavesName : (Str → Str → Option Str) → Type 0
LeavesName try = (name affix : Str) (t : Str) → try name affix ≡ some t → IsNamed t

unless_empty-IsNamed : (s t : Str) → unless_empty s ≡ some t → IsNamed t
unless_empty-IsNamed s t h = elim (Bool-cases (str_eq (trim_underscores s) [])) [
  | inl e ↦ absurd (none_some (rw e at h))
  | inr e ↦ kept (rw e at h)
]
  where
    none_some : none ≡ some t → ⊥
    none_some k = cc k

    kept : some s ≡ some t → IsNamed t
    kept k = λ z. ground (arith, str_eq_iff (trim_underscores s) [])

trim_suffix-LeavesName : LeavesName trim_suffix
unfolding trim_suffix
trim_suffix-LeavesName name suffix t h =
    unless_empty-IsNamed (take (length name - length suffix) name) t (ground arith)

trim_prefix-LeavesName : LeavesName trim_prefix
unfolding trim_prefix
trim_prefix-LeavesName name prefix t h =
    unless_empty-IsNamed (drop (length prefix) name) t (ground arith)

first_trimmed_cases :
    (try : Str → Str → Option Str) (name : Str) (affixes : List Str)
    → (first_trimmed try name affixes ≡ none)
      ⊎ ((affix : Str) × (t : Str) × (try name affix ≡ some t)
          × (first_trimmed try name affixes ≡ some t))
unfolding first_trimmed
first_trimmed_cases try name [] = inl refl
first_trimmed_cases try name (a ∷ affixes) = elim (Option-cases (try name a)) [
  | inl e ↦ rw e (first_trimmed_cases try name affixes)
  | inr (t, e) ↦ inr (a, t, e, rw e refl)
]

first_trimmed-IsNamed :
    (try : Str → Str → Option Str) (name : Str) (affixes : List Str)
    → LeavesName try
    → IsNamed name
    → IsNamed (or_name name (first_trimmed try name affixes))
first_trimmed-IsNamed try name affixes leaves named = elim (first_trimmed_cases try name affixes) [
  | inl e ↦ rw e (unfold or_name in named)
  | inr (a, t, e, f) ↦ rw f (unfold or_name in leaves name a t e)
]

module _ ⦃u : Unicode⦄ where
  -- A column whose name is more than underscores names an entity, whatever affixes the profile
  -- strips: stripping never leaves an empty name.
  pub entity_name-IsNamed :
      (p : Profile) (column : Str) → IsNamed (folded column) → entity_name p column ≢ []
  unfolding entity_name
  entity_name-IsNamed p column named = elim (Bool-cases (str_eq (folded column) [])) [
    | inl e ↦ absurd (named (ap trim_underscores (str_eq_sound (folded column) [] e)))
    | inr e ↦ λ z. stripped (sym (opened e) ∙ z)
  ]
    where
      name : Str
      name = folded column

      base : Str
      base = or_name name (first_trimmed trim_suffix name p.column_suffixes)

      stripped : IsNamed (or_name base (first_trimmed trim_prefix base p.column_prefixes))
      stripped =
          first_trimmed-IsNamed trim_prefix base p.column_prefixes trim_prefix-LeavesName
            (first_trimmed-IsNamed trim_suffix name p.column_suffixes trim_suffix-LeavesName named)

      opened :
          str_eq name [] ≡ false
          → entity_name p column
            ≡ trim_underscores (or_name base (first_trimmed trim_prefix base p.column_prefixes))
      opened e = rw e refl
