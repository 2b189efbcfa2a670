-- ===== src/Report/Suggestions.antt =====
-- internal/report/sql.go: suggestedKeysFile and suggestedIndexesFile, and the blocks that they write.
use pgfathom.Base.{
  ℕ, ◌+◌, Bool, true, false, not, Option, none, some, List, [], ◌∷◌, ◌++◌, text_eq, ℤ, length, ◌==◌,
  if◌then◌else◌, Unicode, Str, codes, em_dash, str_eq,
}
use pgfathom.Model.Refs.{join}
use pgfathom.Model.Table.{UniqueConstraint, Table, Schema, ref, promotable_unique}
use pgfathom.Model.Finding.{FindingKind, SuggestionKind, KeyProbeVerdict, Suggestion, Finding}
use pgfathom.Report.Names.{
  Identifier, truncate_ident, ident, ident_table, quoted_idents, column_list_with_opclass,
  table_by_ref, required_extension,
}
use pgfathom.Report.Lines.{comments, blank, Header, render}

-- f.Object[:cut], where cut is the last index of a dot
unfoldable pub before_last_dot : Str → Option Str
before_last_dot [] = none
before_last_dot (c ∷ s) = elim (before_last_dot s) [
  | some t ↦ some (c ∷ t)
  | none ↦ if c == b'.' then some [] else none
]

abbrev pub shortened : Identifier → List (List Str)
shortened idx =
    if idx.truncated
    then (codes " Name shortened to fit 63 bytes; in full it would be " ∷ idx.full ∷ codes "." ∷ [])
      ∷ []
    else []

abbrev pub is_missing_key : FindingKind → Bool
is_missing_key FindingKind.missing_primary_key = true
is_missing_key k = false

abbrev pub is_hot_column : FindingKind → Bool
is_hot_column FindingKind.unindexed_hot_column = true
is_hot_column k = false

abbrev pub is_confirmed : Option KeyProbeVerdict → Bool
is_confirmed (some KeyProbeVerdict.confirmed) = true
is_confirmed v = false

abbrev pub noted : Str → List (List Str)
noted note = if not (str_eq note []) then (codes " " ∷ note ∷ []) ∷ [] else []

-- a method that is not given
abbrev pub method_or_btree : Str → Str
method_or_btree method = if str_eq method [] then codes "btree" else method

abbrev pub extension_reminder : Str → Str → List (List Str)
extension_reminder method opclass =
    let ext = required_extension method opclass in
    if not (str_eq ext [])
    then (codes " CREATE EXTENSION IF NOT EXISTS " ∷ ext ∷ codes ";" ∷ []) ∷ []
    else []

-- the artifact's text, and how many of the findings it covers
abbrev pub Written : Type 0
Written = Str × ℕ

abbrev pub and_then : Option Str → Written → Written
and_then none rest = rest
and_then (some block) (text, n) = (block ++ text, n + 1)

abbrev pub no_keys : ℕ → List (List Str)
no_keys written =
    if written == 0
    then (codes " No missing-key suggestion in this run reached a safe DDL: either every" ∷ [])
      ∷ (codes " table already has one, or no candidate was confirmed by a full scan." ∷ [])
      ∷ []
    else []

abbrev pub no_indexes : ℕ → List (List Str)
no_indexes written =
    if written == 0 then (codes " No hot, unindexed column found in this run." ∷ []) ∷ [] else []

module _ ⦃u : Unicode⦄ (hash : Str → Str) (valid : Str → Bool) (sanitize : List Str → Str) where
  abbrev pub index_name : Str → Table → List Str → Identifier
  index_name prefix t columns =
      truncate_ident hash valid (prefix ++ (t.name ++ (codes "_" ++ join (codes "_") columns)))

  -- the two statements that build a unique index and promote it
  abbrev pub promotion : Identifier → Table → List Str → List (List Str)
  promotion idx t columns =
      (codes " CREATE UNIQUE INDEX CONCURRENTLY "
        ∷ ident sanitize idx.value
        ∷ codes " ON "
        ∷ ident_table sanitize t.schema t.name
        ∷ codes " ("
        ∷ join (codes ", ") (quoted_idents sanitize columns)
        ∷ codes ");"
        ∷ [])
      ∷ (codes " ALTER TABLE "
          ∷ ident_table sanitize t.schema t.name
          ∷ codes " ADD PRIMARY KEY USING INDEX "
          ∷ ident sanitize idx.value
          ∷ codes ";"
          ∷ [])
      ∷ []

  unfoldable pub write_promote_unique : Table → UniqueConstraint → Str
  write_promote_unique t k =
      let idx = index_name (codes "ux_") t k.columns in
      comments (
        (codes " "
          ∷ ref t
          ∷ codes " "
          ∷ em_dash
          ∷ codes " promote UNIQUE "
          ∷ ident sanitize k.name
          ∷ codes " ("
          ∷ join (codes ", ") (quoted_idents sanitize k.columns)
          ∷ codes ") to primary key"
          ∷ [])
        ∷ (codes " Every column is NOT NULL and the constraint already guarantees" ∷ [])
        ∷ (codes " uniqueness, so no data probe is needed. Its own index cannot be reused" ∷ [])
        ∷ (codes " directly "
            ∷ em_dash
            ∷ codes " USING INDEX rejects one already tied to a constraint "
            ∷ em_dash
            ∷ codes " so a"
            ∷ [])
        ∷ (codes " fresh index is built CONCURRENTLY first, promoted, and the old" ∷ [])
        ∷ (codes " constraint is dropped last." ∷ [])
        ∷ [])
      ++ (comments (shortened idx)
          ++ (comments (promotion idx t k.columns)
              ++ (comments (
                    (codes " ALTER TABLE "
                      ∷ ident_table sanitize t.schema t.name
                      ∷ codes " DROP CONSTRAINT "
                      ∷ ident sanitize k.name
                      ∷ codes ";"
                      ∷ [])
                    ∷ [])
                  ++ blank)))

  unfoldable pub write_confirmed_primary_key : Table → List Str → Str
  write_confirmed_primary_key t columns =
      let idx = index_name (codes "ux_") t columns in
      comments (
        (codes " "
          ∷ ref t
          ∷ codes " "
          ∷ em_dash
          ∷ codes " confirmed by a full scan: every row has a non-null value in"
          ∷ [])
        ∷ (codes " (" ∷ join (codes ", ") columns ∷ codes ") and no two rows share one." ∷ [])
        ∷ []
        ∷ (codes " ADD PRIMARY KEY directly takes an ACCESS EXCLUSIVE lock and rebuilds the" ∷ [])
        ∷ (codes " index from scratch. Building it CONCURRENTLY first, then promoting it," ∷ [])
        ∷ (codes " avoids that "
            ∷ em_dash
            ∷ codes " the same two-step every index suggestion in this tool uses."
            ∷ [])
        ∷ [])
      ++ (comments (shortened idx) ++ (comments (promotion idx t columns) ++ blank))

  unfoldable pub write_synthetic_primary_key : Table → Str → Str → Str
  write_synthetic_primary_key t column note =
      let idx = index_name (codes "ux_") t (column ∷ []) in
      comments (
        (codes " "
          ∷ ref t
          ∷ codes " "
          ∷ em_dash
          ∷ codes " no natural key confirmed; create a synthetic identity column."
          ∷ [])
        ∷ [])
      ++ (comments (noted note)
          ++ (comments (
                []
                ∷ (codes " Adding an identity column to a populated table already rewrites it, to"
                    ∷ [])
                ∷ (codes " populate the sequence for every existing row "
                    ∷ em_dash
                    ∷ codes " that cost cannot be"
                    ∷ [])
                ∷ (codes " avoided. Building the unique index CONCURRENTLY before promoting it only"
                    ∷ [])
                ∷ (codes " avoids a second, separate ACCESS EXCLUSIVE lock on top of that rewrite."
                    ∷ [])
                ∷ [])
              ++ (comments (shortened idx)
                  ++ (comments (
                        (codes " ALTER TABLE "
                          ∷ ident_table sanitize t.schema t.name
                          ∷ codes " ADD COLUMN "
                          ∷ ident sanitize column
                          ∷ codes " bigint GENERATED ALWAYS AS IDENTITY;"
                          ∷ [])
                        ∷ [])
                      ++ (comments (promotion idx t (column ∷ [])) ++ blank)))))

  abbrev pub synthetic_block : Table → List Str → Str → Option Str
  synthetic_block t [] note = none
  synthetic_block t (c ∷ cs) note = some (write_synthetic_primary_key t c note)

  abbrev pub promote_block : Table → Option UniqueConstraint → Option Str
  promote_block t none = none
  promote_block t (some k) = some (write_promote_unique t k)

  abbrev pub confirmed_block : Table → Option KeyProbeVerdict → List Str → Option Str
  confirmed_block t v [] = none
  confirmed_block t v (c ∷ cs) =
      if is_confirmed v then some (write_confirmed_primary_key t (c ∷ cs)) else none

  -- the switch of suggestedKeysFile; `none` where the loop continues
  unfoldable pub key_block : Table → SuggestionKind → Suggestion → Option Str
  unfolding write_promote_unique write_confirmed_primary_key write_synthetic_primary_key
  key_block t SuggestionKind.promote_unique s = promote_block t (promotable_unique t)
  key_block t SuggestionKind.create_primary_key s = confirmed_block t s.key_probe s.columns
  key_block t SuggestionKind.synthetic_primary_key s = synthetic_block t s.columns s.note
  key_block t SuggestionKind.create_index s = none

  abbrev pub key_block_of : Option Table → Option Suggestion → Option Str
  key_block_of t none = none
  key_block_of none (some s) = none
  key_block_of (some t) (some s) = key_block t s.kind s

  -- the loop of suggestedKeysFile
  unfoldable pub write_keys : List Schema → List Finding → Written
  unfolding key_block
  write_keys ss [] = ([], 0)
  write_keys ss (f ∷ fs) =
      let rest = write_keys ss fs in
      if is_missing_key f.kind
      then and_then (key_block_of (table_by_ref ss f.object) f.suggestion) rest
      else rest

  abbrev pub index_block : Table → Str → Suggestion → Str
  index_block t object s =
      let method = method_or_btree s.index_method in
      let columns = column_list_with_opclass sanitize s.columns s.index_opclass in
      let idx = index_name (codes "ix_") t s.columns in
      comments (
        (codes " "
          ∷ object
          ∷ codes " "
          ∷ em_dash
          ∷ codes " named repeatedly in real join or filter predicates, no index leads it"
          ∷ [])
        ∷ [])
      ++ (comments (noted s.note)
          ++ (comments (extension_reminder method s.index_opclass)
              ++ (comments (
                    []
                    ∷ (codes
                          " CONCURRENTLY does NOT run inside a transaction block: this fails under"
                        ∷ [])
                    ∷ (codes
                          " psql --single-transaction, and a failure leaves an INVALID index behind"
                        ∷ [])
                    ∷ (codes " that has to be dropped by hand. Run it on its own." ∷ [])
                    ∷ [])
                  ++ (comments (shortened idx)
                      ++ (comments (
                            (codes " CREATE INDEX CONCURRENTLY "
                              ∷ ident sanitize idx.value
                              ∷ codes " ON "
                              ∷ ident_table sanitize t.schema t.name
                              ∷ codes " USING "
                              ∷ method
                              ∷ codes " ("
                              ∷ columns
                              ∷ codes ");"
                              ∷ [])
                            ∷ [])
                          ++ blank)))))

  abbrev pub index_block_of : Option Table → Str → Suggestion → Option Str
  index_block_of none object s = none
  index_block_of (some t) object s = some (index_block t object s)

  -- writeIndexRecommendation; `none` where it returns false
  abbrev pub write_index_recommendation : List Schema → Option Str → Str → Suggestion → Option Str
  write_index_recommendation ss none object s = none
  write_index_recommendation ss (some owner) object s =
      index_block_of (table_by_ref ss owner) object s

  -- one round of suggestedIndexesFile, for a suggestion that names a column
  abbrev pub recommend_block : List Schema → Str → Option Suggestion → Option Str
  recommend_block ss object none = none
  recommend_block ss object (some s) =
      if length s.columns == 0
      then none
      else write_index_recommendation ss (before_last_dot object) object s

  unfoldable pub write_indexes : List Schema → List Finding → Written
  unfolding before_last_dot
  write_indexes ss [] = ([], 0)
  write_indexes ss (f ∷ fs) =
      let rest = write_indexes ss fs in
      if is_hot_column f.kind
      then and_then (recommend_block ss f.object f.suggestion) rest
      else rest

  module _ (rfc3339 : ℤ → Str) where
    unfoldable pub suggested_keys_file : Header → List Schema → List Finding → Written
    unfolding render write_keys
    suggested_keys_file h ss fs =
        let (text, written) = write_keys ss fs in
        (
          render rfc3339 h (codes "primary keys the catalog or a full-scan probe supports")
              ++ (text ++ comments (no_keys written)),
          written,
        )

    unfoldable pub suggested_indexes_file : Header → List Schema → List Finding → Written
    unfolding render write_indexes
    suggested_indexes_file h ss fs =
        let (text, written) = write_indexes ss fs in
        (
          render rfc3339 h (codes "indexes real code repeatedly asks for and does not have")
              ++ (text ++ comments (no_indexes written)),
          written,
        )
