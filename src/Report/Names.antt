-- ===== src/Report/Names.antt =====
-- internal/report/sql.go: generated names and quoted lists. pgx's Sanitize, the eight hex digits of the
-- FNV hash and utf8.ValidString are parameters.
pub mod Budget
use pgfathom.Base.{
  ℕ, zero, suc, ◌-◌, Bool, true, false, not, Option, none, some, List, [], ◌∷◌, ◌++◌, map, text_eq,
  length, take, leb, if◌then◌else◌, Unicode, Str, codes, str_eq, to_lower,
}
use pgfathom.Model.Refs.{KeyRef, join}
use pgfathom.Model.Table.{Table, Schema, ref}

abbrev pub max_identifier_bytes : ℕ
max_identifier_bytes = 63

pub record Identifier : Type 0 where
  pub value : Str
  pub full : Str
  pub truncated : Bool

module _ ⦃u : Unicode⦄ (hash : Str → Str) (valid : Str → Bool) where
  -- the loop that takes bytes off the end of the first n until what is left is valid
  unfoldable pub cut_valid : ℕ → Str → Str
  cut_valid zero s = []
  cut_valid (suc n) s =
      let shorter = cut_valid n s in if valid (take (suc n) s) then take (suc n) s else shorter

  unfoldable pub truncate_ident : Str → Identifier
  unfolding cut_valid
  truncate_ident name =
      let lower = to_lower name in
      let suffix = codes "_" ++ hash lower in
      if leb (length lower) max_identifier_bytes
      then record { value = lower; full = lower; truncated = false }
      else record {
        value = cut_valid (max_identifier_bytes - length suffix) lower ++ suffix;
        full = lower;
        truncated = true;
      }

module _ (sanitize : List Str → Str) where
  abbrev pub ident : Str → Str
  ident name = sanitize (name ∷ [])

  abbrev pub ident_table : Str → Str → Str
  ident_table schema table = sanitize (schema ∷ table ∷ [])

  abbrev pub qualify : KeyRef → Str
  qualify r = ident_table r.schema r.table

  unfoldable pub quoted_idents : List Str → List Str
  quoted_idents names = map (λ n. ident n) names

  abbrev pub column_list : KeyRef → Str
  column_list r = join (codes ", ") (map (λ c. ident c) r.columns)

  abbrev pub with_opclass : Str → Str → Str
  with_opclass opclass c =
      if not (str_eq opclass []) then ident c ++ (codes " " ++ opclass) else ident c

  unfoldable pub column_list_with_opclass : List Str → Str → Str
  column_list_with_opclass columns opclass =
      join (codes ", ") (map (λ c. with_opclass opclass c) columns)

-- the inner loop of tableByRef
unfoldable pub find_by_ref : List Table → Str → Option Table
find_by_ref [] name = none
find_by_ref (t ∷ ts) name = if str_eq (ref t) name then some t else find_by_ref ts name

abbrev pub or_else : Option Table → Option Table → Option Table
or_else none rest = rest
or_else (some t) rest = some t

unfoldable pub table_by_ref : List Schema → Str → Option Table
unfolding find_by_ref
table_by_ref [] name = none
table_by_ref (s ∷ ss) name = or_else (find_by_ref s.tables name) (table_by_ref ss name)

unfoldable pub required_extension : Str → Str → Str
required_extension method opclass =
    if str_eq opclass (codes "gin_trgm_ops")
    then codes "pg_trgm"
    else if str_eq method (codes "hnsw")
    then codes "vector"
    else []

abbrev pub non_empty : Str → Str → Str
non_empty s fallback = if str_eq s [] then fallback else s
