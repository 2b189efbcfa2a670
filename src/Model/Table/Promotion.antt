-- ===== src/Model/Table/Promotion.antt =====
-- internal/model/schema.go: Table.PromotableUnique.
use pgfathom.Base.{
  ◌≡◌, refl, inl, inr, true, false, Option, none, some, List, [], ◌∷◌, arith, text_eq, All,
  Bool-cases, Unicode, Str,
}
use pgfathom.Model.Table.{
  Column, UniqueConstraint, Table, column, not_null, all_not_null, first_promotable,
  promotable_unique,
}

module _ ⦃u : Unicode⦄ where
  -- The table has a column of that name that is declared NOT NULL.
  abbrev pub IsNotNull : Table → Str → Type 0
  IsNotNull t name = (c : Column) × (column t name ≡ some c) × (c.nullable ≡ false)

  -- Every column of the constraint is one.
  abbrev pub ProvesKey : Table → UniqueConstraint → Type 0
  ProvesKey t k = All (IsNotNull t) k.columns

  not_null_sound :
      (o : Option Column) → not_null o ≡ true → (c : Column) × (o ≡ some c) × (c.nullable ≡ false)
  not_null_sound none h = cc
  not_null_sound (some c) h = (c, refl, ground arith)

  all_not_null_sound :
      (t : Table) (names : List Str) → all_not_null t names ≡ true → All (IsNotNull t) names
  unfolding all_not_null
  all_not_null_sound t [] h = tt
  all_not_null_sound t (name ∷ names) h =
      (not_null_sound (column t name) (ground arith), all_not_null_sound t names (ground arith))

  all_not_null_complete :
      (t : Table) (names : List Str) → All (IsNotNull t) names → all_not_null t names ≡ true
  unfolding all_not_null
  all_not_null_complete t [] h = refl
  all_not_null_complete t (name ∷ names) ((c, e, n), rest) =
      rw (e, n) (all_not_null_complete t names rest)

  -- `k` is the first of the constraints that proves a key.
  pub data IsFirst (t : Table) (k : UniqueConstraint) : List UniqueConstraint → Type 0 where
    here : (ks : List UniqueConstraint) → ProvesKey t k → IsFirst t k (k ∷ ks)
    there :
        (j : UniqueConstraint) (ks : List UniqueConstraint)
        → ¬ ProvesKey t j
        → IsFirst t k ks
        → IsFirst t k (j ∷ ks)

  -- What the result says of the constraints.
  abbrev pub Picks : Table → List UniqueConstraint → Option UniqueConstraint → Type 0
  Picks t ks none = All (λ k. ¬ ProvesKey t k) ks
  Picks t ks (some k) = IsFirst t k ks

  refuted : (t : Table) (k : UniqueConstraint) → all_not_null t k.columns ≡ false → ¬ ProvesKey t k
  refuted t k e proves = cc (all_not_null_complete t k.columns proves)

  skip :
      (t : Table) (j : UniqueConstraint) (ks : List UniqueConstraint) (o : Option UniqueConstraint)
      → ¬ ProvesKey t j
      → Picks t ks o
      → Picks t (j ∷ ks) o
  skip t j ks none no_key rest = (no_key, rest)
  skip t j ks (some k) no_key rest = there j ks no_key rest

  first_promotable-Picks :
      (t : Table) (ks : List UniqueConstraint) → Picks t ks (first_promotable t ks)
  unfolding first_promotable
  first_promotable-Picks t [] = tt
  first_promotable-Picks t (k ∷ ks) = elim (Bool-cases (all_not_null t k.columns)) [
    | inl proves ↦ rw proves (here ks (all_not_null_sound t k.columns proves))
    | inr e ↦
        rw e (skip t k ks (first_promotable t ks) (refuted t k e) (first_promotable-Picks t ks))
  ]

  -- The constraint offered for promotion is the first one whose columns all exist and are NOT
  -- NULL; when none is offered, no constraint of the table is such.
  pub promotable_unique-Picks : (t : Table) → Picks t t.uniques (promotable_unique t)
  unfolding promotable_unique
  promotable_unique-Picks t = first_promotable-Picks t t.uniques
