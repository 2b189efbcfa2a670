-- ===== src/Audit/Columns.antt =====
-- internal/audit/audit.go, Findings: when every foreign key has a first column to name.
use pgfathom.Base.{
  is_some, true, ◌≡◌, refl, inl, inr, Option, none, some, List, [], ◌∷◌, text_eq, All, Bool-cases,
  Unicode, Str,
}
use pgfathom.Model.Table.{ForeignKey, Table, Schema}
use pgfathom.Model.Finding.{Finding}
use pgfathom.Audit.{
  not_valid_constraints, unindexed_at, unindexed_foreign_keys, missing_primary_keys, in_front_of,
  joined_findings, table_findings, schema_findings,
}

-- The list is not empty.
abbrev HasColumns : List Str → Type 0
HasColumns [] = ⊥
HasColumns (c ∷ cs) = Unit

abbrev pub AllKeysHaveColumns : Table → Type 0
AllKeysHaveColumns t = All (λ (fk : ForeignKey). HasColumns fk.columns) t.foreign_keys

in_front_of-some :
    (fs : List Finding) (o : Option (List Finding))
    → is_some o ≡ true
    → is_some (in_front_of fs o) ≡ true
in_front_of-some fs (some gs) h = refl
in_front_of-some fs none h = h

joined_findings-some :
    (o rest : Option (List Finding))
    → is_some o ≡ true
    → is_some rest ≡ true
    → is_some (joined_findings o rest) ≡ true
joined_findings-some (some fs) rest h k = in_front_of-some fs rest k
joined_findings-some none rest h k = h

module _ ⦃u : Unicode⦄ (ss : List Schema) where
  unindexed_at-some :
      (t : Table) (fk : ForeignKey) (cs : List Str) (rest : Option (List Finding))
      → HasColumns cs
      → is_some rest ≡ true
      → is_some (unindexed_at ss t fk cs rest) ≡ true
  unindexed_at-some t fk (c ∷ cs) (some fs) h k = refl
  unindexed_at-some t fk (c ∷ cs) none h k = k
  unindexed_at-some t fk [] rest h k = absurd h

  unindexed_foreign_keys-some :
      (t : Table) (fks : List ForeignKey)
      → All (λ fk. HasColumns fk.columns) fks
      → is_some (unindexed_foreign_keys ss t fks) ≡ true
  unfolding unindexed_foreign_keys
  unindexed_foreign_keys-some t [] h = refl
  unindexed_foreign_keys-some t (fk ∷ fks) (c, h) =
      let rest = unindexed_foreign_keys-some t fks h in
      elim (Bool-cases fk.has_index) [
        | inl e ↦ rw e rest
        | inr e ↦ rw e (unindexed_at-some t fk fk.columns _ c rest)
      ]

  table_findings-some :
      (ts : List Table) → All AllKeysHaveColumns ts → is_some (table_findings ss ts) ≡ true
  unfolding table_findings
  table_findings-some [] h = refl
  table_findings-some (t ∷ ts) (c, h) =
      in_front_of-some (not_valid_constraints t t.foreign_keys) _ (
        joined_findings-some (unindexed_foreign_keys ss t t.foreign_keys) _
          (unindexed_foreign_keys-some t t.foreign_keys c)
          (in_front_of-some (missing_primary_keys t) (table_findings ss ts)
            (table_findings-some ts h)))

  pub schema_findings-some :
      (more : List Schema)
      → All (λ s. All AllKeysHaveColumns s.tables) more
      → is_some (schema_findings ss more) ≡ true
  unfolding schema_findings
  schema_findings-some [] h = refl
  schema_findings-some (s ∷ more) (c, h) =
      joined_findings-some (table_findings ss s.tables) _ (table_findings-some s.tables c)
        (schema_findings-some more h)
