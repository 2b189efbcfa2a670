-- ===== src/Audit/Facts.antt =====
-- internal/audit/audit.go, Findings: what stands behind each finding.
use pgfathom.Base.{
  str_lt_asymm, str_eq_iff, sort_stable-IsSorted, IsSorted, is_some, true, sort_stable, ◌≤◌, ◌≡◌,
  refl, inl, inr, false, Option, none, some, List, [], ◌∷◌, ◌++◌, arith, text_eq, IsIn, length, All,
  All-append, All-weaken, All-IsIn, sort_stable-All, ltb, Bool-cases, Unicode, Str, str_eq,
}
use pgfathom.Model.Refs.{ColumnRef}
use pgfathom.Model.Table.{
  Column, ForeignKey, Table, Schema, ref, column, has_primary_key, promotable_unique,
  is_indexed_leading,
}
use pgfathom.Model.Evidence.{index_method_for}
use pgfathom.Model.Finding.{FindingKind, Finding}
use pgfathom.Audit.Columns.{AllKeysHaveColumns, schema_findings-some}
use pgfathom.Audit.{
  finding_name, Options, find_table, not_valid_finding, not_valid_constraints, unindexed_finding,
  unindexed_at, unindexed_foreign_keys, key_suggestion, ColumnUsage, dominant_operator, Usage,
  tally_column_usage, recurrence, finding_less, missing_primary_keys, leads_unindexed_foreign_key,
  hot_finding, hot_column, hot_table, hot_columns, in_front, in_front_of, joined_findings,
  table_findings, schema_findings, sorted_findings, findings,
}

-- A table of one of the schemas.
abbrev pub IsTableOf : List Schema → Table → Type 0
IsTableOf ss t = (s : Schema) × IsIn s ss × IsIn t s.tables

-- The list, if there is one, has only such items.
abbrev AllIfAny : (Finding → Type 0) → Option (List Finding) → Type 0
AllIfAny P none = Unit
AllIfAny P (some fs) = All P fs

in_front-AllIfAny :
    (P : Finding → Type 0) (f : Finding) (o : Option (List Finding))
    → P f
    → AllIfAny P o
    → AllIfAny P (in_front f o)
in_front-AllIfAny P f none p h = tt
in_front-AllIfAny P f (some fs) p h = (p, h)

in_front_of-AllIfAny :
    (P : Finding → Type 0) (fs : List Finding) (o : Option (List Finding))
    → All P fs
    → AllIfAny P o
    → AllIfAny P (in_front_of fs o)
in_front_of-AllIfAny P fs none h k = tt
in_front_of-AllIfAny P fs (some gs) h k = All-append P fs gs h k

joined_findings-AllIfAny :
    (P : Finding → Type 0) (o rest : Option (List Finding))
    → AllIfAny P o
    → AllIfAny P rest
    → AllIfAny P (joined_findings o rest)
joined_findings-AllIfAny P none rest h k = tt
joined_findings-AllIfAny P (some fs) rest h k = in_front_of-AllIfAny P fs rest h k

finding_less_asymm : (a b : Finding) → finding_less a b ≡ true → finding_less b a ≡ false
finding_less_asymm a b h = ground (
  arith,
  str_eq_iff (finding_name a.kind) (finding_name b.kind),
  str_eq_iff (finding_name b.kind) (finding_name a.kind),
  str_lt_asymm (finding_name a.kind) (finding_name b.kind),
  str_lt_asymm a.object b.object,
)

module _ ⦃u : Unicode⦄ where
  -- The cause of a finding: a constraint that is not validated, a foreign key that no index leads, a
  -- table without a primary key, or a column that enough objects name and that neither an index nor
  -- such a foreign key leads, with an index method for the most demanding operator seen.
  pub data IsFact (ss : List Schema) (opts : Options) (f : Finding) : Type 0 where
    not_valid :
        (t : Table) (fk : ForeignKey)
        → IsTableOf ss t
        → IsIn fk t.foreign_keys
        → fk.validated ≡ false
        → f ≡ not_valid_finding t fk
        → IsFact ss opts f
    unindexed :
        (t : Table) (fk : ForeignKey) (c : Str) (cs : List Str)
        → IsTableOf ss t
        → IsIn fk t.foreign_keys
        → fk.has_index ≡ false
        → fk.columns ≡ c ∷ cs
        → f ≡ unindexed_finding ss t fk c
        → IsFact ss opts f
    no_key :
        (t : Table)
        → IsTableOf ss t
        → has_primary_key t ≡ false
        → f.kind ≡ FindingKind.missing_primary_key
        → f.object ≡ ref t
        → f.suggestion ≡ some (key_suggestion (promotable_unique t)).1
        → IsFact ss opts f
    hot :
        (r : ColumnRef) (n : ColumnUsage) (t : Table) (col : Column)
        → IsIn (r, n) (tally_column_usage opts)
        → recurrence opts ≤ length n.objects
        → find_table ss r.schema r.table ≡ some t
        → column t r.column ≡ some col
        → is_indexed_leading t r.column ≡ false
        → leads_unindexed_foreign_key t.foreign_keys r.column ≡ false
        → str_eq
            (index_method_for (dominant_operator n.ops) col.base_type opts.extensions).method
            []
          ≡ false
        → f
          ≡ hot_finding r n col
              (index_method_for (dominant_operator n.ops) col.base_type opts.extensions)
        → IsFact ss opts f

  module _ (ss : List Schema) (opts : Options) where
    abbrev AllFacts : List Finding → Type 0
    AllFacts fs = All (IsFact ss opts) fs

    not_valid_constraints-AllFacts :
        (t : Table) (fks : List ForeignKey)
        → IsTableOf ss t
        → All (λ fk. IsIn fk t.foreign_keys) fks
        → AllFacts (not_valid_constraints t fks)
    unfolding not_valid_constraints
    not_valid_constraints-AllFacts t [] i h = tt
    not_valid_constraints-AllFacts t (fk ∷ fks) i (k, h) =
        let rest = not_valid_constraints-AllFacts t fks i h in
        elim (Bool-cases fk.validated) [
          | inl e ↦ rw e rest
          | inr e ↦ rw e (not_valid t fk i k e refl, rest)
        ]

    unindexed_at-AllFacts :
        (t : Table) (fk : ForeignKey) (cs : List Str) (rest : Option (List Finding))
        → IsTableOf ss t
        → IsIn fk t.foreign_keys
        → fk.has_index ≡ false
        → fk.columns ≡ cs
        → AllIfAny (IsFact ss opts) rest
        → AllIfAny (IsFact ss opts) (unindexed_at ss t fk cs rest)
    unindexed_at-AllFacts t fk [] rest i k e c h = tt
    unindexed_at-AllFacts t fk (n ∷ ns) rest i k e c h =
        in_front-AllIfAny (IsFact ss opts) _ rest (unindexed t fk n ns i k e c refl) h

    unindexed_foreign_keys-AllFacts :
        (t : Table) (fks : List ForeignKey)
        → IsTableOf ss t
        → All (λ fk. IsIn fk t.foreign_keys) fks
        → AllIfAny (IsFact ss opts) (unindexed_foreign_keys ss t fks)
    unfolding unindexed_foreign_keys
    unindexed_foreign_keys-AllFacts t [] i h = tt
    unindexed_foreign_keys-AllFacts t (fk ∷ fks) i (k, h) =
        let rest = unindexed_foreign_keys-AllFacts t fks i h in
        elim (Bool-cases fk.has_index) [
          | inl e ↦ rw e rest
          | inr e ↦ rw e (unindexed_at-AllFacts t fk fk.columns _ i k e refl rest)
        ]

    missing_primary_keys-AllFacts : (t : Table) → IsTableOf ss t → AllFacts (missing_primary_keys t)
    unfolding missing_primary_keys
    missing_primary_keys-AllFacts t i = elim (Bool-cases (has_primary_key t)) [
      | inl e ↦ rw e tt
      | inr e ↦ rw e (no_key t i e refl refl refl, tt)
    ]

    table_findings-AllFacts :
        (ts : List Table) → All (IsTableOf ss) ts → AllIfAny (IsFact ss opts) (table_findings ss ts)
    unfolding table_findings
    table_findings-AllFacts [] h = tt
    table_findings-AllFacts (t ∷ ts) (i, h) =
        let fks = All-IsIn t.foreign_keys in
        in_front_of-AllIfAny (IsFact ss opts) (not_valid_constraints t t.foreign_keys) _
          (not_valid_constraints-AllFacts t t.foreign_keys i fks)
          (joined_findings-AllIfAny (IsFact ss opts) (unindexed_foreign_keys ss t t.foreign_keys) _
            (unindexed_foreign_keys-AllFacts t t.foreign_keys i fks)
            (in_front_of-AllIfAny (IsFact ss opts) (missing_primary_keys t) (table_findings ss ts)
              (missing_primary_keys-AllFacts t i) (table_findings-AllFacts ts h)))

    schema_findings-AllFacts :
        (more : List Schema)
        → All (λ s. IsIn s ss) more
        → AllIfAny (IsFact ss opts) (schema_findings ss more)
    unfolding schema_findings
    schema_findings-AllFacts [] h = tt
    schema_findings-AllFacts (s ∷ more) (i, h) =
        joined_findings-AllIfAny (IsFact ss opts) (table_findings ss s.tables) _
          (table_findings-AllFacts s.tables
            (All-weaken s.tables (λ t k. (s, i, k)) (All-IsIn s.tables)))
          (schema_findings-AllFacts more h)

    hot_column-AllFacts :
        (r : ColumnRef) (n : ColumnUsage) (t : Table) (o : Option Column)
        → IsIn (r, n) (tally_column_usage opts)
        → recurrence opts ≤ length n.objects
        → find_table ss r.schema r.table ≡ some t
        → is_indexed_leading t r.column ≡ false
        → leads_unindexed_foreign_key t.foreign_keys r.column ≡ false
        → column t r.column ≡ o
        → AllFacts (hot_column opts r n o)
    unfolding hot_column
    hot_column-AllFacts r n t none i l f a b c = tt
    hot_column-AllFacts r n t (some col) i l f a b c =
        elim (Bool-cases (
          str_eq (index_method_for (dominant_operator n.ops) col.base_type opts.extensions).method
            [])) [ inl e ↦ rw e tt | inr e ↦ rw e (hot r n t col i l f c a b e refl, tt) ]

    hot_table-AllFacts :
        (r : ColumnRef) (n : ColumnUsage) (o : Option Table)
        → IsIn (r, n) (tally_column_usage opts)
        → recurrence opts ≤ length n.objects
        → find_table ss r.schema r.table ≡ o
        → AllFacts (hot_table opts r n o)
    unfolding hot_table
    hot_table-AllFacts r n none i l f = tt
    hot_table-AllFacts r n (some t) i l f = elim (Bool-cases (is_indexed_leading t r.column)) [
      | inl a ↦ rw a tt
      | inr a ↦ elim (Bool-cases (leads_unindexed_foreign_key t.foreign_keys r.column)) [
        | inl b ↦ rw (a, b) tt
        | inr b ↦ rw (a, b) (hot_column-AllFacts r n t (column t r.column) i l f a b refl)
      ]
    ]

    hot_columns-AllFacts :
        (usage : Usage)
        → All (λ e. IsIn e (tally_column_usage opts)) usage
        → AllFacts (hot_columns ss opts usage)
    unfolding hot_columns
    hot_columns-AllFacts [] h = tt
    hot_columns-AllFacts ((r, n) ∷ usage) (i, h) =
        let rest = hot_columns-AllFacts usage h in
        elim (Bool-cases (ltb (length n.objects) (recurrence opts))) [
          | inl e ↦ rw e rest
          | inr e ↦ rw e (
              All-append (IsFact ss opts) (hot_table opts r n (find_table ss r.schema r.table)) _
                (hot_table-AllFacts r n (find_table ss r.schema r.table) i (ground arith) refl)
                rest)
        ]

    reported :
        (hots : List Finding) (o : Option (List Finding))
        → AllFacts hots
        → AllIfAny (IsFact ss opts) o
        → is_some o ≡ true
        → (fs : List Finding) × (sorted_findings hots o ≡ some fs)
          × AllFacts fs
          × IsSorted finding_less fs
    reported hots none h k e = absurd (false_true e)
      where
        false_true : false ≡ true → ⊥
        false_true e = cc e
    reported hots (some fs) h k e = (
      sort_stable finding_less (fs ++ hots),
      refl,
      sort_stable-All finding_less (IsFact ss opts) (fs ++ hots)
          (All-append (IsFact ss opts) fs hots k h),
      sort_stable-IsSorted finding_less finding_less_asymm (fs ++ hots),
    )

    -- Where every foreign key has a column, the findings are reported in order, and each states a fact
    -- of the catalog or of the evidence, in whatever order the map of the usages is walked, as long as
    -- the walk meets only its entries.
    pub findings-AllFacts :
        (order : Usage → Usage)
        → ((usage : Usage) → All (λ e. IsIn e usage) (order usage))
        → All (λ s. All AllKeysHaveColumns s.tables) ss
        → (fs : List Finding) × (findings order ss opts ≡ some fs)
          × All (IsFact ss opts) fs
          × IsSorted finding_less fs
    unfolding findings
    findings-AllFacts order met keyed =
        let usage = tally_column_usage opts in
        reported (hot_columns ss opts (order usage)) (schema_findings ss ss)
          (hot_columns-AllFacts (order usage) (met usage))
          (schema_findings-AllFacts ss (All-IsIn ss)) (schema_findings-some ss ss keyed)
