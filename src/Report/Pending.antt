-- ===== src/Report/Pending.antt =====
-- internal/report/sql.go: the constraints that are not validated, notValidFile and AuditArtifacts.
pub mod Order
use pgfathom.Base.{
  Bool, not, List, [], ◌∷◌, ◌++◌, text_eq, Float, ℤ, length, sort_stable, if◌then◌else◌, Unicode,
  Str, codes, em_dash, str_eq, str_lt,
}
use pgfathom.Model.Refs.{KeyRef, table_ref}
use pgfathom.Model.Table.{ForeignKey, Table, Schema, ref}
use pgfathom.Model.Result.{Result}
use pgfathom.Report.Names.{ident, ident_table, qualify}
use pgfathom.Report.Lines.{comments, blank, Header, new_header, render}
use pgfathom.Report.Suggestions.{suggested_keys_file, suggested_indexes_file}
use pgfathom.Report.Relations.{Artifact, anti_join}

pub record PendingKey : Type 0 where
  pub table : Table
  pub fk : ForeignKey

-- the inner loop of notValidKeys
unfoldable pub pending_of : Table → List ForeignKey → List PendingKey
pending_of t [] = []
pending_of t (fk ∷ fks) =
    let rest = pending_of t fks in
    if not fk.validated then record { table = t; fk = fk } ∷ rest else rest

unfoldable pub pending_tables : List Table → List PendingKey
unfolding pending_of
pending_tables [] = []
pending_tables (t ∷ ts) = pending_of t t.foreign_keys ++ pending_tables ts

unfoldable pub pending_schemas : List Schema → List PendingKey
unfolding pending_tables
pending_schemas [] = []
pending_schemas (s ∷ ss) = pending_tables s.tables ++ pending_schemas ss

abbrev pub pending_less : PendingKey → PendingKey → Bool
pending_less a b =
    if not (str_eq (ref a.table) (ref b.table))
    then str_lt (ref a.table) (ref b.table)
    else str_lt a.fk.name b.fk.name

unfoldable pub not_valid_keys : List Schema → List PendingKey
unfolding pending_schemas
not_valid_keys ss = sort_stable pending_less (pending_schemas ss)

module _ (sanitize : List Str → Str) where
  unfoldable pub violation_query : PendingKey → Str
  unfolding anti_join
  violation_query p =
      let child : KeyRef = record {
        schema = p.table.schema;
        table = p.table.name;
        columns = p.fk.columns;
      } in
      let parent : KeyRef = record {
        schema = p.fk.ref_schema;
        table = p.fk.ref_table;
        columns = p.fk.ref_columns;
      } in
      codes "SELECT count(*) AS violating_rows\nFROM "
      ++ (qualify sanitize child
          ++ (codes " AS c\nWHERE " ++ (anti_join sanitize child parent ++ codes ";\n")))

  -- the loop of notValidFile
  unfoldable pub pending_blocks : List PendingKey → Str
  unfolding violation_query
  pending_blocks [] = []
  pending_blocks (p ∷ ps) =
      comments (
        (codes " "
          ∷ ref p.table
          ∷ codes " "
          ∷ em_dash
          ∷ codes " constraint "
          ∷ ident sanitize p.fk.name
          ∷ codes " references "
          ∷ table_ref p.fk.ref_schema p.fk.ref_table
          ∷ [])
        ∷ (codes " Step 1 " ∷ em_dash ∷ codes " would it pass?" ∷ [])
        ∷ [])
      ++ (violation_query p
          ++ (blank
              ++ (comments (
                    (codes " Step 2 "
                      ∷ em_dash
                      ∷ codes " if step 1 returns zero, validate. It scans the table under a"
                      ∷ [])
                    ∷ (codes " lock that blocks neither reads nor writes." ∷ [])
                    ∷ (codes " ALTER TABLE "
                        ∷ ident_table sanitize p.table.schema p.table.name
                        ∷ codes " VALIDATE CONSTRAINT "
                        ∷ ident sanitize p.fk.name
                        ∷ codes ";"
                        ∷ [])
                    ∷ [])
                  ++ (blank ++ pending_blocks ps))))

  abbrev pub pending_preface : List (List Str)
  pending_preface =
      (codes " A NOT VALID constraint blocks new violations but never checked the rows" ∷ [])
      ∷ (codes " that were already there. It renders as an ordinary foreign key in \\d and" ∷ [])
      ∷ (codes " in every ERD tool, which is what makes it worth finding." ∷ [])
      ∷ []
      ∷ (codes " Running VALIDATE blindly on a table with historical violations fails only" ∷ [])
      ∷ (codes " after a full scan, so the check comes first." ∷ [])
      ∷ []

  abbrev pub not_valid_body : List PendingKey → Str
  not_valid_body [] =
      comments ((codes " Every declared foreign key in scope has been validated." ∷ []) ∷ [])
  not_valid_body (p ∷ ps) = comments pending_preface ++ (blank ++ pending_blocks (p ∷ ps))

  unfoldable pub not_valid_file : (ℤ → Str) → Header → List PendingKey → Str
  unfolding render pending_blocks
  not_valid_file rfc3339 h ps =
      render rfc3339 h (codes "constraints declared NOT VALID and never verified")
      ++ not_valid_body ps

module _ ⦃F : Float⦄ ⦃u : Unicode⦄ (hash : Str → Str) (valid : Str → Bool)
    (sanitize : List Str → Str) (rfc3339 : ℤ → Str) where
  unfoldable pub audit_artifacts : Result → List Artifact
  unfolding new_header not_valid_keys not_valid_file suggested_keys_file suggested_indexes_file
  audit_artifacts r =
      let h = new_header r in
      let pending = not_valid_keys r.schemas in
      let keys = suggested_keys_file hash valid sanitize rfc3339 h r.schemas r.findings in
      let indexes = suggested_indexes_file hash valid sanitize rfc3339 h r.schemas r.findings in
      record {
        name = codes "not_valid.sql";
        count = length pending;
        content = not_valid_file sanitize rfc3339 h pending;
      }
      ∷ record { name = codes "suggested_keys.sql"; count = keys.1; content = keys.0 }
      ∷ record { name = codes "suggested_indexes.sql"; count = indexes.1; content = indexes.0 }
      ∷ []
