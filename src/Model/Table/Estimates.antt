-- ===== src/Model/Table/Estimates.antt =====
-- internal/model/stats.go, RowEstimates: what a lookup by schema.table says of the tables.
use pgfathom.Base.{
  ℕ, ◌≡◌, ◌≢◌, ◌⊎◌, inl, inr, Option, none, some, List, [], ◌∷◌, arith, text_eq, Dict, lookup,
  lookup-put, Str, str_eq_iff,
}
use pgfathom.Model.Refs.{table_ref}
use pgfathom.Model.Usage.{estimated_row_count}
use pgfathom.Model.Table.{
  record_known, record_known, Table, Schema, record_tables, record_schemas, row_estimates,
}

-- Some table answers to the name `k` and the planner knows that it has `n` rows.
abbrev pub InTables : Str → ℕ → Str → List Table → Type 0
InTables k n s [] = ⊥
InTables k n s (t ∷ ts) =
    ((table_ref s t.name ≡ k) × (estimated_row_count t.stats ≡ some n)) ⊎ InTables k n s ts

abbrev pub InSchemas : Str → ℕ → List Schema → Type 0
InSchemas k n [] = ⊥
InSchemas k n (s ∷ rest) = InTables k n s.name s.tables ⊎ InSchemas k n rest

module _ (k : Str) (n : ℕ) where
  known_sound :
      (j : Str) (o : Option ℕ) (out : Dict Str ℕ)
      → lookup k (record_known j o out) ≡ some n
      → ((j ≡ k) × (o ≡ some n)) ⊎ (lookup k out ≡ some n)
  unfolding record_known
  known_sound j none out h = inr h
  known_sound j (some m) out h = ground (arith, str_eq_iff j k, lookup-put j k m out)

  tables_sound :
      (s : Str) (ts : List Table) (out : Dict Str ℕ)
      → lookup k (record_tables s ts out) ≡ some n
      → InTables k n s ts ⊎ (lookup k out ≡ some n)
  unfolding record_tables
  tables_sound s [] out h = inr h
  tables_sound s (t ∷ ts) out h =
      elim (tables_sound s ts (record_known (table_ref s t.name) (estimated_row_count t.stats) out)
        h) [
          | inl found ↦ inl (inr found)
          | inr before ↦
              elim (known_sound (table_ref s t.name) (estimated_row_count t.stats) out before) [
                | inl here ↦ inl (inl here)
                | inr old ↦ inr old
              ]
        ]

  schemas_sound :
      (ss : List Schema) (out : Dict Str ℕ)
      → lookup k (record_schemas ss out) ≡ some n
      → InSchemas k n ss ⊎ (lookup k out ≡ some n)
  unfolding record_schemas
  schemas_sound [] out h = inr h
  schemas_sound (s ∷ rest) out h = elim (schemas_sound rest (record_tables s.name s.tables out) h) [
    | inl found ↦ inl (inr found)
    | inr before ↦ elim (tables_sound s.name s.tables out before) [
      | inl here ↦ inl (inl here)
      | inr old ↦ inr old
    ]
  ]

-- What is recorded under a name stays recorded.
module _ (k : Str) where
  abbrev Recorded : Dict Str ℕ → Type 0
  Recorded out = lookup k out ≢ none

  known_keeps :
      (j : Str) (o : Option ℕ) (out : Dict Str ℕ) → Recorded out → Recorded (record_known j o out)
  unfolding record_known
  known_keeps j none out h = h
  known_keeps j (some m) out h = ground (arith, lookup-put j k m out)

  known_complete :
      (n : ℕ) (j : Str) (o : Option ℕ) (out : Dict Str ℕ)
      → j ≡ k
      → o ≡ some n
      → Recorded (record_known j o out)
  unfolding record_known
  known_complete n j none out e known = cc
  known_complete n j (some m) out e known = ground (arith, str_eq_iff j k, lookup-put j k m out)

  tables_keep :
      (s : Str) (ts : List Table) (out : Dict Str ℕ)
      → Recorded out
      → Recorded (record_tables s ts out)
  unfolding record_tables
  tables_keep s [] out h = h
  tables_keep s (t ∷ ts) out h =
      tables_keep s ts (record_known (table_ref s t.name) (estimated_row_count t.stats) out)
        (known_keeps (table_ref s t.name) (estimated_row_count t.stats) out h)

  schemas_keep :
      (ss : List Schema) (out : Dict Str ℕ) → Recorded out → Recorded (record_schemas ss out)
  unfolding record_schemas
  schemas_keep [] out h = h
  schemas_keep (s ∷ rest) out h =
      schemas_keep rest (record_tables s.name s.tables out) (tables_keep s.name s.tables out h)

  module _ (n : ℕ) where
    tables_complete :
        (s : Str) (ts : List Table) (out : Dict Str ℕ)
        → InTables k n s ts
        → Recorded (record_tables s ts out)
    unfolding record_tables
    tables_complete s [] out h = absurd h
    tables_complete s (t ∷ ts) out (inr later) =
        tables_complete s ts (record_known (table_ref s t.name) (estimated_row_count t.stats) out)
          later
    tables_complete s (t ∷ ts) out (inl (e, known)) =
        tables_keep s ts (record_known (table_ref s t.name) (estimated_row_count t.stats) out)
          (known_complete n (table_ref s t.name) (estimated_row_count t.stats) out e known)

    schemas_complete :
        (ss : List Schema) (out : Dict Str ℕ) → InSchemas k n ss → Recorded (record_schemas ss out)
    unfolding record_schemas
    schemas_complete [] out h = absurd h
    schemas_complete (s ∷ rest) out (inr later) =
        schemas_complete rest (record_tables s.name s.tables out) later
    schemas_complete (s ∷ rest) out (inl here) =
        schemas_keep rest (record_tables s.name s.tables out)
          (tables_complete s.name s.tables out here)

-- A row count found under schema.table is a known estimate of a table of that name.
pub row_estimates_sound :
    (schemas : List Schema) (k : Str) (n : ℕ)
    → lookup k (row_estimates schemas) ≡ some n
    → InSchemas k n schemas
unfolding row_estimates
row_estimates_sound schemas k n h = elim (schemas_sound k n schemas [] h) [
  | inl found ↦ found
  | inr e ↦ unfold lookup in cc
]

-- A name that is missing from the map is that of no table whose size the planner knows.
pub row_estimates_complete :
    (schemas : List Schema) (k : Str) (n : ℕ)
    → lookup k (row_estimates schemas) ≡ none
    → ¬ InSchemas k n schemas
unfolding row_estimates
row_estimates_complete schemas k n h found = schemas_complete k n schemas [] found h
