-- ===== src/Audit.antt =====
-- internal/audit/audit.go: findings that follow from the catalog and from usage evidence alone. The
-- order in which Go walks the map of usages is a function of its entries, and a foreign key without
-- columns, whose first column the source would read, is `none`.
pub mod Columns
pub mod Facts
use pgfathom.Base.{
  em_dash, ℕ, Bool, false, not, ◌&&◌, ◌||◌, Option, none, some, List, [], ◌∷◌, ◌++◌, text_eq, Dict,
  put, ℤ, pos_part, ltb_ℤ, length, any, sort_stable, ltb, if◌then◌else◌, Unicode, Str, codes,
  str_eq, str_lt, equal_fold, pos,
}
use pgfathom.Model.Refs.{ColumnRef, column_string, column_ref_eq}
use pgfathom.Model.Table.{
  Column, ForeignKey, UniqueConstraint, Table, Schema, ref, column, has_primary_key,
  promotable_unique, is_indexed_leading,
}
use pgfathom.Model.Evidence.{
  JoinEvidence, OperatorClass, operator_name, PredicateEvidence, Recommendation, index_method_for,
}
use pgfathom.Model.Finding.{FindingKind, finding_name, SuggestionKind, Suggestion, Finding}

pub record Options : Type 0 where
  pub joins : List JoinEvidence
  pub predicates : List PredicateEvidence
  pub extensions : List Str
  pub recurrence_min : ℤ

-- the loop of findTable over the tables of a schema
pub find_named : List Table → Str → Option Table
find_named [] name = none
find_named (t ∷ ts) name = if str_eq t.name name then some t else find_named ts name

abbrev pub first_of : Option Table → Option Table → Option Table
first_of none rest = rest
first_of (some t) rest = some t

unfoldable pub find_table : List Schema → Str → Str → Option Table
unfolding find_named
find_table [] schema name = none
find_table (s ∷ ss) schema name =
    let rest = find_table ss schema name in
    if not (str_eq s.name schema) then rest else first_of (find_named s.tables name) rest

abbrev pub fk_object : Table → ForeignKey → Str
fk_object t fk = ref t ++ (codes "." ++ fk.name)

abbrev pub not_valid_finding : Table → ForeignKey → Finding
not_valid_finding t fk = record {
  kind = FindingKind.not_valid_constraint;
  object = fk_object t fk;
  detail =
      codes
        "constraint is NOT VALID: it blocks new violations but never checked the rows that were already there";
  metrics = (codes "child_estimated_rows", t.stats.estimated_rows) ∷ [];
  suggestion = none;
}

-- the loop of notValidConstraints
unfoldable pub not_valid_constraints : Table → List ForeignKey → List Finding
not_valid_constraints t [] = []
not_valid_constraints t (fk ∷ fks) =
    let rest = not_valid_constraints t fks in
    if fk.validated then rest else not_valid_finding t fk ∷ rest

abbrev pub with_parent_rows : Option Table → Dict Str ℤ → Dict Str ℤ
with_parent_rows none m = m
with_parent_rows (some t) m = put (codes "parent_estimated_rows") t.stats.estimated_rows m

abbrev pub unindexed_finding : List Schema → Table → ForeignKey → Str → Finding
unindexed_finding ss t fk name = record {
  kind = FindingKind.fk_without_index;
  object = fk_object t fk;
  detail =
      codes "no index leads with "
      ++ (name
          ++ (codes ": every delete on "
              ++ (fk.ref_schema
                  ++ (codes "." ++ (fk.ref_table ++ codes " scans this table sequentially")))));
  metrics =
      with_parent_rows (find_table ss fk.ref_schema fk.ref_table)
        ((codes "child_estimated_rows", t.stats.estimated_rows) ∷ []);
  suggestion = none;
}

abbrev pub in_front : Finding → Option (List Finding) → Option (List Finding)
in_front f none = none
in_front f (some fs) = some (f ∷ fs)

-- fk.Columns[0]
abbrev pub unindexed_at :
    List Schema → Table → ForeignKey → List Str → Option (List Finding) → Option (List Finding)
unindexed_at ss t fk [] rest = none
unindexed_at ss t fk (c ∷ cs) rest = in_front (unindexed_finding ss t fk c) rest

-- the loop of unindexedForeignKeys
unfoldable pub unindexed_foreign_keys :
    List Schema → Table → List ForeignKey → Option (List Finding)
unindexed_foreign_keys ss t [] = some []
unindexed_foreign_keys ss t (fk ∷ fks) =
    let rest = unindexed_foreign_keys ss t fks in
    if fk.has_index then rest else unindexed_at ss t fk fk.columns rest

abbrev pub suggest : SuggestionKind → List Str → Suggestion
suggest k columns = record {
  kind = k;
  columns = columns;
  index_method = [];
  index_opclass = [];
  note = [];
  key_probe = none;
}

-- the detail and the suggestion of a missing primary key
abbrev pub key_suggestion : Option UniqueConstraint → Str × Suggestion
key_suggestion (some u) = (
  codes
        "no primary key: row identity is undefined, but an existing UNIQUE NOT NULL constraint already proves one "
      ++ (em_dash ++ codes " promoting it needs no data probe, only a lock-light DDL sequence"),
  suggest SuggestionKind.promote_unique u.columns,
)
key_suggestion none = (
  codes
      "no primary key: row identity is undefined, no logical replication covers it, and every per-row update or delete scans sequentially",
  suggest SuggestionKind.create_primary_key [],
)

-- the operator classes, the most demanding first
abbrev pub operator_priority : List OperatorClass
operator_priority =
    OperatorClass.vector_distance ∷ OperatorClass.containment ∷ OperatorClass.full_text
    ∷ OperatorClass.like_infix ∷ OperatorClass.range ∷ OperatorClass.like_prefix
    ∷ OperatorClass.equality ∷ []

-- the distinct objects, and the operators, by their names
pub record ColumnUsage : Type 0 where
  pub objects : List Str
  pub ops : List Str

abbrev pub has_op : List Str → OperatorClass → Bool
has_op seen op = any (λ o. str_eq o (operator_name op)) seen

pub dominant_in : List OperatorClass → List Str → OperatorClass
dominant_in [] seen = OperatorClass.equality
dominant_in (op ∷ ops) seen = if has_op seen op then op else dominant_in ops seen

abbrev pub dominant_operator : List Str → OperatorClass
dominant_operator seen = dominant_in operator_priority seen

-- set[s] = true
abbrev pub set_in : Str → List Str → List Str
set_in s set = if any (λ o. str_eq o s) set then set else set ++ s ∷ []

abbrev pub Usage : Type 0
Usage = List (ColumnRef × ColumnUsage)

-- the closure of tallyColumnUsage
pub touch : ColumnRef → OperatorClass → Str → Usage → Usage
touch r op object [] = (r, record { objects = object ∷ []; ops = operator_name op ∷ [] }) ∷ []
touch r op object ((s, u) ∷ usage) =
    let rest = touch r op object usage in
    if column_ref_eq.beq s r
    then (s, record { objects = set_in object u.objects; ops = set_in (operator_name op) u.ops })
      ∷ usage
    else (s, u) ∷ rest

pub touch_joins : List JoinEvidence → Usage → Usage
unfolding touch
touch_joins [] usage = usage
touch_joins (j ∷ js) usage = touch_joins js (
    touch j.right OperatorClass.equality j.object
      (touch j.left OperatorClass.equality j.object usage))

pub touch_predicates : List PredicateEvidence → Usage → Usage
unfolding touch
touch_predicates [] usage = usage
touch_predicates (p ∷ ps) usage = touch_predicates ps (touch p.column p.operator p.object usage)

unfoldable pub tally_column_usage : Options → Usage
unfolding touch_joins touch_predicates
tally_column_usage opts = touch_predicates opts.predicates (touch_joins opts.joins [])

abbrev pub recurrence : Options → ℕ
recurrence opts = if ltb_ℤ opts.recurrence_min (pos 1) then 1 else pos_part opts.recurrence_min

abbrev pub finding_less : Finding → Finding → Bool
finding_less a b =
    if not (str_eq (finding_name a.kind) (finding_name b.kind))
    then str_lt (finding_name a.kind) (finding_name b.kind)
    else str_lt a.object b.object

abbrev pub in_front_of : List Finding → Option (List Finding) → Option (List Finding)
in_front_of fs none = none
in_front_of fs (some gs) = some (fs ++ gs)

abbrev pub joined_findings : Option (List Finding) → Option (List Finding) → Option (List Finding)
joined_findings none rest = none
joined_findings (some fs) rest = in_front_of fs rest

abbrev pub sorted_findings : List Finding → Option (List Finding) → Option (List Finding)
sorted_findings hot none = none
sorted_findings hot (some fs) = some (sort_stable finding_less (fs ++ hot))

module _ ⦃u : Unicode⦄ where
  pub missing_primary_keys : Table → List Finding
  missing_primary_keys t =
      let (detail, suggestion) = key_suggestion (promotable_unique t) in
      if has_primary_key t
      then []
      else record {
        kind = FindingKind.missing_primary_key;
        object = ref t;
        detail = detail;
        metrics = (codes "estimated_rows", t.stats.estimated_rows) ∷ [];
        suggestion = some suggestion;
      }
        ∷ []

  -- len(fk.Columns) > 0 && EqualFold(fk.Columns[0], column)
  abbrev pub leads_with : List Str → Str → Bool
  leads_with [] name = false
  leads_with (c ∷ cs) name = equal_fold c name

  unfoldable pub leads_unindexed_foreign_key : List ForeignKey → Str → Bool
  leads_unindexed_foreign_key fks name =
      any (λ (fk : ForeignKey). leads_with fk.columns name && not fk.has_index) fks

  abbrev pub hot_finding : ColumnRef → ColumnUsage → Column → Recommendation → Finding
  hot_finding r u col rec = record {
    kind = FindingKind.unindexed_hot_column;
    object = column_string r;
    detail = codes "column leads no index but real code names it in a predicate";
    metrics = (codes "distinct_objects", pos (length u.objects)) ∷ [];
    suggestion = some (record {
      kind = SuggestionKind.create_index;
      columns = col.name ∷ [];
      index_method = rec.method;
      index_opclass = rec.opclass;
      note = rec.note;
      key_probe = none;
    });
  }

  -- after the column is found
  pub hot_column : Options → ColumnRef → ColumnUsage → Option Column → List Finding
  hot_column opts r u none = []
  hot_column opts r u (some col) =
      let rec = index_method_for (dominant_operator u.ops) col.base_type opts.extensions in
      if str_eq rec.method [] then [] else hot_finding r u col rec ∷ []

  -- after the table is found
  pub hot_table : Options → ColumnRef → ColumnUsage → Option Table → List Finding
  unfolding hot_column
  hot_table opts r u none = []
  hot_table opts r u (some t) =
      if is_indexed_leading t r.column || leads_unindexed_foreign_key t.foreign_keys r.column
      then []
      else hot_column opts r u (column t r.column)

  -- the loop of unindexedHotColumns, over the usages in some order
  pub hot_columns : List Schema → Options → Usage → List Finding
  unfolding hot_table
  hot_columns ss opts [] = []
  hot_columns ss opts ((r, u) ∷ usage) =
      let rest = hot_columns ss opts usage in
      if ltb (length u.objects) (recurrence opts)
      then rest
      else hot_table opts r u (find_table ss r.schema r.table) ++ rest

  -- the inner loop of Findings
  pub table_findings : List Schema → List Table → Option (List Finding)
  unfolding not_valid_constraints unindexed_foreign_keys missing_primary_keys
  table_findings ss [] = some []
  table_findings ss (t ∷ ts) = in_front_of (not_valid_constraints t t.foreign_keys) (
      joined_findings (unindexed_foreign_keys ss t t.foreign_keys)
        (in_front_of (missing_primary_keys t) (table_findings ss ts)))

  -- the outer loop, over the last of the schemas
  pub schema_findings : List Schema → List Schema → Option (List Finding)
  unfolding table_findings
  schema_findings ss [] = some []
  schema_findings ss (s ∷ more) =
      joined_findings (table_findings ss s.tables) (schema_findings ss more)

  -- Findings, where the map of usages is walked in the given order
  unfoldable pub findings : (Usage → Usage) → List Schema → Options → Option (List Finding)
  unfolding schema_findings hot_columns tally_column_usage
  findings order ss opts =
      sorted_findings (hot_columns ss opts (order (tally_column_usage opts)))
        (schema_findings ss ss)
