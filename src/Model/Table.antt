-- ===== src/Model/Table.antt =====
-- internal/model/schema.go: schemas, tables and what the catalog says about them.
pub mod Promotion
pub mod Leading
pub mod Estimates
use pgfathom.Base.{
  ℕ, Bool, true, false, not, ◌&&◌, Option, none, some, List, [], ◌∷◌, text_eq, Dict, put, ℤ, length,
  any, ltb, leb, if◌then◌else◌, Unicode, Str, equal_fold,
}
use pgfathom.Model.Refs.{table_ref}
use pgfathom.Model.Usage.{TableStats, estimated_row_count}

pub record Column : Type 0 where
  pub name : Str
  pub type : Str
  pub base_type : Str
  pub nullable : Bool
  pub default : Str
  pub position : ℤ
  pub comment : Str

pub record UniqueConstraint : Type 0 where
  pub name : Str
  pub columns : List Str

pub record ForeignKey : Type 0 where
  pub name : Str
  pub columns : List Str
  pub ref_schema : Str
  pub ref_table : Str
  pub ref_columns : List Str
  pub validated : Bool
  pub has_index : Bool

pub record Index : Type 0 where
  pub name : Str
  pub columns : List Str
  pub unique : Bool
  pub primary : Bool

pub record Table : Type 0 where
  pub schema : Str
  pub name : Str
  pub columns : List Column
  pub primary_key : List Str
  pub uniques : List UniqueConstraint
  pub foreign_keys : List ForeignKey
  pub indexes : List Index
  pub stats : TableStats
  pub partitioned : Bool
  pub inherits : Bool
  pub comment : Str

pub record Schema : Type 0 where
  pub name : Str
  pub tables : List Table

abbrev pub ref : Table → Str
ref t = table_ref t.schema t.name

abbrev pub has_primary_key : Table → Bool
has_primary_key t = ltb 0 (length t.primary_key)

module _ ⦃u : Unicode⦄ where
  -- the loop of Table.Column
  unfoldable pub find_column : List Column → Str → Option Column
  find_column [] name = none
  find_column (c ∷ cs) name = if equal_fold c.name name then some c else find_column cs name

  unfoldable pub column : Table → Str → Option Column
  unfolding find_column
  column t name = find_column t.columns name

  -- a named column that exists and is declared NOT NULL
  abbrev pub not_null : Option Column → Bool
  not_null none = false
  not_null (some c) = not c.nullable

  unfoldable pub all_not_null : Table → List Str → Bool
  all_not_null t [] = true
  all_not_null t (name ∷ names) = not_null (column t name) && all_not_null t names

  unfoldable pub first_promotable : Table → List UniqueConstraint → Option UniqueConstraint
  first_promotable t [] = none
  first_promotable t (k ∷ ks) = if all_not_null t k.columns then some k else first_promotable t ks

  unfoldable pub promotable_unique : Table → Option UniqueConstraint
  unfolding first_promotable
  promotable_unique t = first_promotable t t.uniques

  -- the inner loop of IndexLeads: position by position, after the test on the lengths
  pub opens_with : List Str → List Str → Bool
  opens_with have [] = true
  opens_with [] (w ∷ wanted) = false
  opens_with (h ∷ have) (w ∷ wanted) = equal_fold h w && opens_with have wanted

  unfoldable pub leads : Index → List Str → Bool
  unfolding opens_with
  leads idx columns = leb (length columns) (length idx.columns) && opens_with idx.columns columns

  unfoldable pub index_leads : List Index → List Str → Bool
  unfolding leads
  index_leads indexes [] = false
  index_leads indexes (c ∷ cs) = any (λ idx. leads idx (c ∷ cs)) indexes

  unfoldable pub is_indexed_leading : Table → Str → Bool
  unfolding index_leads
  is_indexed_leading t column = index_leads t.indexes (column ∷ [])

-- the body of RowEstimates' loops: a table whose estimate is unknown writes nothing
pub record_known : Str → Option ℕ → Dict Str ℕ → Dict Str ℕ
record_known key none out = out
record_known key (some n) out = put key n out

pub record_tables : Str → List Table → Dict Str ℕ → Dict Str ℕ
unfolding record_known
record_tables schema [] out = out
record_tables schema (t ∷ ts) out =
    record_tables schema ts
      (record_known (table_ref schema t.name) (estimated_row_count t.stats) out)

pub record_schemas : List Schema → Dict Str ℕ → Dict Str ℕ
record_schemas [] out = out
record_schemas (s ∷ rest) out = record_schemas rest (record_tables s.name s.tables out)

unfoldable pub row_estimates : List Schema → Dict Str ℕ
unfolding record_schemas record_tables
row_estimates schemas = record_schemas schemas []
