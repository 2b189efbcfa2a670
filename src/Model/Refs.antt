-- ===== src/Model/Refs.antt =====
-- internal/model/schema.go, the references: one column of one table, and a key of several.
use pgfathom.Base.{
  ℕ, ◌≡◌, ◌↔◌, Bool, true, ◌&&◌, List, [], ◌∷◌, ◌++◌, map, arith, Eq, text_eq, length, ltb, Str,
  codes, str_eq, str_eq_iff,
}

pub record ColumnRef : Type 0 where
  pub schema : Str
  pub table : Str
  pub column : Str

pub record KeyRef : Type 0 where
  pub schema : Str
  pub table : Str
  pub columns : List Str

-- `Schema + "." + Table`, the TableRef of a column, of a key, and the Ref of a table.
abbrev pub table_ref : Str → Str → Str
table_ref schema table = schema ++ (codes "." ++ table)

unfoldable pub column_string : ColumnRef → Str
column_string r = table_ref r.schema r.table ++ (codes "." ++ r.column)

-- strings.Join
abbrev pub join : Str → List Str → Str
join sep [] = []
join sep (s ∷ []) = s
join sep (s ∷ rest) = s ++ (sep ++ join sep rest)

abbrev pub single_key : Str → Str → Str → KeyRef
single_key schema table column = record { schema = schema; table = table; columns = column ∷ [] }

unfoldable pub key_suffix : List Str → Str
key_suffix (c ∷ []) = c
key_suffix cs = codes "(" ++ (join (codes ", ") cs ++ codes ")")

unfoldable pub key_string : KeyRef → Str
unfolding key_suffix
key_string r = table_ref r.schema r.table ++ (codes "." ++ key_suffix r.columns)

abbrev pub arity : KeyRef → ℕ
arity r = length r.columns

abbrev pub composite : KeyRef → Bool
composite r = ltb 1 (arity r)

unfoldable pub column_refs : KeyRef → List ColumnRef
column_refs r = map (λ c. record { schema = r.schema; table = r.table; column = c }) r.columns

abbrev column_ref_beq : ColumnRef → ColumnRef → Bool
column_ref_beq r s =
    str_eq r.schema s.schema && (str_eq r.table s.table && str_eq r.column s.column)

pub column_ref_beq_iff : (r s : ColumnRef) → (column_ref_beq r s ≡ true) ↔ (r ≡ s)
column_ref_beq_iff r s =
    ground (
      arith,
      str_eq_iff r.schema s.schema,
      str_eq_iff r.table s.table,
      str_eq_iff r.column s.column,
    )

-- Go compares the struct field by field when it is a map's key.
instance abbrev pub column_ref_eq : Eq ColumnRef
column_ref_eq = record { beq = column_ref_beq; beq_iff = column_ref_beq_iff }
