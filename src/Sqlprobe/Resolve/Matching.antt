-- ===== src/Sqlprobe/Resolve/Matching.antt =====
-- internal/sqlprobe/probe.go, resolveRef, beside all the columns that a reference can mean.
use pgfathom.Base.{
  here, there, ◌+◌, ◌≡◌, refl, inl, inr, ◌||◌, Option, none, some, List, [], ◌∷◌, ◌++◌, arith,
  text_eq, IsIn, length, All, All-append, All-weaken, All-IsIn, ◌==◌, if◌then◌else◌, ==_iff,
  Bool-cases, Unicode, Str, str_eq, equal_fold,
}
use pgfathom.Model.Refs.{ColumnRef}
use pgfathom.Model.Table.{Column, Table, Schema, column, find_column}
use pgfathom.Sqlprobe.Extract.{RawRef}
use pgfathom.Sqlprobe.Resolve.{Matches, match_column, match_tables, match_schemas, resolve_ref}

-- The only item of a list that has just one.
abbrev pub only : List ColumnRef → Option ColumnRef
only (c ∷ []) = some c
only cs = none

-- What the loop has after so many more matches.
abbrev after : Matches → List ColumnRef → Matches
after m [] = m
after m (c ∷ cs) = after (c, m.1 + 1) cs

after-append : (m : Matches) (cs ds : List ColumnRef) → after m (cs ++ ds) ≡ after (after m cs) ds
after-append m [] ds = refl
after-append m (c ∷ cs) ds = after-append (c, m.1 + 1) cs ds

after-count : (m : Matches) (cs : List ColumnRef) → (after m cs).1 ≡ m.1 + length cs
after-count m [] = omega arith
after-count m (c ∷ cs) = omega (arith, after-count (c, m.1 + 1) cs)

abbrev only_after : Matches → Option ColumnRef
only_after m = if m.1 == 1 then some m.0 else none

only_after-after : (c : ColumnRef) (cs : List ColumnRef) → only_after (after (c, 0) cs) ≡ only cs
only_after-after c [] = refl
only_after-after c (d ∷ []) = refl
only_after-after c (d ∷ e ∷ cs) = elim (Bool-cases ((after (e, 2) cs).1 == 1)) [
  | inr f ↦ rw f refl
  | inl f ↦ absurd (omega (arith, after-count (e, 2) cs, (==_iff (after (e, 2) cs).1 1).0 f))
]

module _ ⦃u : Unicode⦄ where
  abbrev matching_column : Str → Table → Option Column → List ColumnRef
  matching_column schema t none = []
  matching_column schema t (some c) =
      record { schema = schema; table = t.name; column = c.name } ∷ []

  abbrev matching_tables : RawRef → Str → List Table → List ColumnRef
  matching_tables r schema [] = []
  matching_tables r schema (t ∷ ts) =
      let rest = matching_tables r schema ts in
      if equal_fold r.table t.name
      then matching_column schema t (column t r.column) ++ rest
      else rest

  -- Every column that the reference can mean: a column of the name that it gives, in a table of the
  -- name that it gives, in a schema of the name that it gives or in any if it gives none.
  abbrev pub matching : RawRef → List Schema → List ColumnRef
  matching r [] = []
  matching r (s ∷ ss) =
      let rest = matching r ss in
      if str_eq r.schema [] || equal_fold r.schema s.name
      then matching_tables r s.name s.tables ++ rest
      else rest

  match_column-after :
      (schema : Str) (t : Table) (c : Option Column) (m : Matches)
      → match_column schema t c m ≡ after m (matching_column schema t c)
  unfolding match_column
  match_column-after schema t none m = refl
  match_column-after schema t (some c) m = refl

  match_tables-after :
      (r : RawRef) (schema : Str) (ts : List Table) (m : Matches)
      → match_tables r schema ts m ≡ after m (matching_tables r schema ts)
  unfolding match_tables
  match_tables-after r schema [] m = refl
  match_tables-after r schema (t ∷ ts) m =
      let found = matching_column schema t (column t r.column) in
      elim (Bool-cases (equal_fold r.table t.name)) [
        | inr e ↦ rw e (match_tables-after r schema ts m)
        | inl e ↦
            rw
              (
                e,
                match_column-after schema t (column t r.column) m,
                after-append m found (matching_tables r schema ts),
              )
              (match_tables-after r schema ts (after m found))
      ]

  match_schemas-after :
      (r : RawRef) (ss : List Schema) (m : Matches) → match_schemas r ss m ≡ after m (matching r ss)
  unfolding match_schemas
  match_schemas-after r [] m = refl
  match_schemas-after r (s ∷ ss) m =
      let found = matching_tables r s.name s.tables in
      elim (Bool-cases (str_eq r.schema [])) [
        | inl e ↦
            rw (e, match_tables-after r s.name s.tables m, after-append m found (matching r ss))
              (match_schemas-after r ss (after m found))
        | inr e ↦ elim (Bool-cases (equal_fold r.schema s.name)) [
          | inr f ↦ rw (e, f) (match_schemas-after r ss m)
          | inl f ↦
              rw
                (e, f, match_tables-after r s.name s.tables m, after-append m found (matching r ss))
                (match_schemas-after r ss (after m found))
        ]
      ]

  -- A reference is resolved to the one column that it can mean; with none, or with more than one, it
  -- is not resolved.
  pub resolve_ref-matching :
      (r : RawRef) (ss : List Schema) → resolve_ref r ss ≡ only (matching r ss)
  unfolding resolve_ref
  resolve_ref-matching r ss =
      let nowhere : ColumnRef = record { schema = []; table = []; column = [] } in
      rw (match_schemas-after r ss (nowhere, 0)) (only_after-after nowhere (matching r ss))

  -- The reference names a column of a table of a schema in scope.
  pub record IsColumn (ss : List Schema) (r : ColumnRef) : Type 0 where
    pub schema : Schema
    pub table : Table
    pub col : Column
    pub of_scope : IsIn schema ss
    pub of_schema : IsIn table schema.tables
    pub of_table : IsIn col table.columns
    pub names : r ≡ record { schema = schema.name; table = table.name; column = col.name }

  abbrev IfSome : (Column → Type 0) → Option Column → Type 0
  IfSome P none = Unit
  IfSome P (some c) = P c

  find_column-IsIn : (cs : List Column) (name : Str) → IfSome (λ c. IsIn c cs) (find_column cs name)
  unfolding find_column
  find_column-IsIn [] name = tt
  find_column-IsIn (c ∷ cs) name = elim (Bool-cases (equal_fold c.name name)) [
    | inl e ↦ rw e (here cs)
    | inr e ↦ rw e (later (find_column cs name) (find_column-IsIn cs name))
  ]
    where
      later : (o : Option Column) → IfSome (λ d. IsIn d cs) o → IfSome (λ d. IsIn d (c ∷ cs)) o
      later none h = tt
      later (some d) h = there c cs h

  -- What a table that is one of a schema's gives.
  abbrev IsOf : Schema → ColumnRef → Type 0
  IsOf s r =
      (t : Table) × (c : Column) × IsIn t s.tables
      × IsIn c t.columns
      × (r ≡ record { schema = s.name; table = t.name; column = c.name })

  matching_column-IsOf :
      (s : Schema) (t : Table) (o : Option Column)
      → IsIn t s.tables
      → IfSome (λ c. IsIn c t.columns) o
      → All (IsOf s) (matching_column s.name t o)
  matching_column-IsOf s t none i h = tt
  matching_column-IsOf s t (some c) i h = ((t, c, i, h, refl), tt)

  matching_tables-IsOf :
      (r : RawRef) (s : Schema) (ts : List Table)
      → All (λ t. IsIn t s.tables) ts
      → All (IsOf s) (matching_tables r s.name ts)
  unfolding column
  matching_tables-IsOf r s [] i = tt
  matching_tables-IsOf r s (t ∷ ts) (i, is) =
      let rest = matching_tables-IsOf r s ts is in
      elim (Bool-cases (equal_fold r.table t.name)) [
        | inr e ↦ rw e rest
        | inl e ↦ rw e (
            All-append (IsOf s) (matching_column s.name t (column t r.column)) _
              (matching_column-IsOf s t (column t r.column) i (find_column-IsIn t.columns r.column))
              rest)
      ]

  -- Every column that a reference can mean is one that the catalog has.
  pub matching-IsColumn :
      (r : RawRef) (ss all_schemas : List Schema)
      → All (λ s. IsIn s all_schemas) ss
      → All (IsColumn all_schemas) (matching r ss)
  matching-IsColumn r [] every i = tt
  matching-IsColumn r (s ∷ ss) every (i, is) =
      let rest = matching-IsColumn r ss every is in
      elim (Bool-cases (str_eq r.schema [] || equal_fold r.schema s.name)) [
        | inr e ↦ rw e rest
        | inl e ↦ rw e (
            All-append (IsColumn every) (matching_tables r s.name s.tables) _
              (All-weaken (matching_tables r s.name s.tables)
                (λ c (t, k, it, ik, n). record {
                  schema = s;
                  table = t;
                  col = k;
                  of_scope = i;
                  of_schema = it;
                  of_table = ik;
                  names = n;
                })
                (matching_tables-IsOf r s s.tables (All-IsIn s.tables)))
              rest)
      ]
