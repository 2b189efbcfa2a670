-- ===== src/Infer/Evidence/Joined.antt =====
-- internal/infer/evidence.go: the candidates that a join raises, and the walk over the groups of joins.
use pgfathom.Base.{
  arith, ◌≡◌, refl, ◌⊎◌, inl, inr, true, Option, none, some, List, [], ◌∷◌, text_eq, Dict, lookup,
  put, Float, IsIn, length, all, All, All-left, All-right, All-IsIn, ltb, Bool-cases, Unicode, Str,
  str_eq,
}
use pgfathom.Model.Refs.{ColumnRef, KeyRef, table_ref}
use pgfathom.Model.Table.{Column, Table, Schema, column}
use pgfathom.Model.Candidate.{Signal, Verdict, Candidate}
use pgfathom.Model.Evidence.{JoinEvidence}
use pgfathom.Infer.Types.{TypeMatch, compare_types, is_compatible}
use pgfathom.Infer.Score.{score}
use pgfathom.Infer.Matches.{eligible}
use pgfathom.Infer.Generate.{all_tables}
use pgfathom.Infer.Keys.{key_columns, compare_keys, same_names}
use pgfathom.Infer.Keys.Fit.{FitsAll, compare_keys-FitsAll}
use pgfathom.Infer.Evidence.{
  EvidenceGroup, column_table, put_tables, put_schemas, table_index, only_key, is_single_key,
  key_mapping, names_in, Folding, offer, join_columns, join_tables, apply_oriented, join_fit,
  join_keys, join_names, join_groups, apply_composite_oriented, apply_composite_evidence,
  apply_joins, apply_groups,
}

-- What holds of a table, if there is one.
abbrev IfFound : (Table → Type 0) → Option Table → Type 0
IfFound P none = Unit
IfFound P (some t) = P t

module _ (P : Table → Type 0) where
  -- Every table of the index satisfies the predicate.
  abbrev AllTables : Dict Str Table → Type 0
  AllTables tables = All (λ (k, t). P t) tables

  lookup-IfFound :
      (k : Str) (tables : Dict Str Table) → AllTables tables → IfFound P (lookup k tables)
  unfolding lookup
  lookup-IfFound k [] h = tt
  lookup-IfFound k ((j, t) ∷ tables) (p, h) = elim (Bool-cases (str_eq j k)) [
    | inl f ↦ rw f p
    | inr f ↦ rw f (lookup-IfFound k tables h)
  ]

  put_tables-AllTables :
      (schema : Str) (ts : List Table) (out : Dict Str Table)
      → All P ts
      → AllTables out
      → AllTables (put_tables schema ts out)
  unfolding put_tables put
  put_tables-AllTables schema [] out h k = k
  put_tables-AllTables schema (t ∷ ts) out (p, h) k =
      put_tables-AllTables schema ts (put (table_ref schema t.name) t out) h (p, k)

  put_schemas-AllTables :
      (ss : List Schema) (out : Dict Str Table)
      → All P (all_tables ss)
      → AllTables out
      → AllTables (put_schemas ss out)
  unfolding put_schemas all_tables
  put_schemas-AllTables [] out h k = k
  put_schemas-AllTables (s ∷ ss) out h k =
      put_schemas-AllTables ss (put_tables s.name s.tables out)
        (All-right P s.tables (all_tables ss) h)
        (put_tables-AllTables s.name s.tables out (All-left P s.tables (all_tables ss) h) k)

  table_index-AllTables : (ss : List Schema) → All P (all_tables ss) → AllTables (table_index ss)
  unfolding table_index
  table_index-AllTables ss h = put_schemas-AllTables ss [] h tt

-- The key names the table: by the name that the index has for it, or by the table's own.
abbrev pub IsNamed : List Schema → Table → KeyRef → Type 0
IsNamed ss t r =
    (lookup (table_ref r.schema r.table) (table_index ss) ≡ some t)
    ⊎ ((r.schema ≡ t.schema) × (r.table ≡ t.name))

module _ ⦃F : Float⦄ ⦃u : Unicode⦄ where
  -- The candidate pairs the primary key of one table in scope with columns of another that can take
  -- part in a reference and have fitting types, and nothing has judged it yet.
  pub record IsJoined (ss : List Schema) (c : Candidate) : Type 0 where
    pub child : Table
    pub target : Table
    pub child_columns : List Column
    pub key : List Column
    pub child_in_scope : IsIn child (all_tables ss)
    pub target_in_scope : IsIn target (all_tables ss)
    pub names_child : IsNamed ss child c.child
    pub names_target : IsNamed ss target c.parent
    pub in_child : key_columns child c.child.columns ≡ some child_columns
    pub in_target : key_columns target c.parent.columns ≡ some key
    pub whole_key :
        (c.parent.columns ≡ target.primary_key)
        ⊎ (same_names target.primary_key c.parent.columns ≡ true)
    pub all_eligible : all (λ k. eligible child k) child_columns ≡ true
    pub all_fit : FitsAll child_columns key
    pub scored : c.meta_score ≡ score c.signals
    pub undecided : (c.verdict ≡ Verdict.unvalidated) × (c.validation ≡ none)

  module _ (ss : List Schema) (I : Folding → Type 0)
      (raise : (s : Signal) (fresh : Candidate) (f : Folding)
        → IsJoined ss fresh
        → I f
        → I (offer s fresh f)) where
    abbrev InScope : Table → Type 0
    InScope t = IsIn t (all_tables ss)

    found : (k : Str) → IfFound InScope (lookup k (table_index ss))
    found k =
        lookup-IfFound InScope k (table_index ss)
          (table_index-AllTables InScope ss (All-IsIn (all_tables ss)))

    only_key-same_names :
        (keys : List Str) (name : Str)
        → only_key keys name ≡ true
        → same_names keys (name ∷ []) ≡ true
    unfolding only_key same_names
    only_key-same_names [] name h = h
    only_key-same_names (k ∷ []) name h = ground (arith, h)
    only_key-same_names (k ∷ l ∷ keys) name h = cc

    join_columns-invariant :
        (p t : Table) (ev : JoinEvidence) (child parent : ColumnRef) (cc pc : Option Column)
        (f : Folding)
        → lookup (column_table parent) (table_index ss) ≡ some p
        → lookup (column_table child) (table_index ss) ≡ some t
        → InScope p
        → InScope t
        → is_single_key p parent.column ≡ true
        → column t child.column ≡ cc
        → column p parent.column ≡ pc
        → I f
        → I (join_columns t ev child parent cc pc f)
    unfolding join_columns is_single_key key_columns
    join_columns-invariant p t ev child parent none pc f dp dt ip it k ec ep h = h
    join_columns-invariant p t ev child parent (some c) none f dp dt ip it k ec ep h = h
    join_columns-invariant p t ev child parent (some c) (some d) f dp dt ip it k ec ep h =
        elim (Bool-cases (eligible t c)) [
          | inr e ↦ rw e h
          | inl e ↦ elim (Bool-cases (is_compatible (compare_types c.base_type d.base_type))) [
            | inr m ↦ rw (e, m) h
            | inl m ↦
                rw (e, m)
                  (raise _ _ f
                    (record {
                      child = t;
                      target = p;
                      child_columns = c ∷ [];
                      key = d ∷ [];
                      child_in_scope = it;
                      target_in_scope = ip;
                      names_child = inl dt;
                      names_target = inl dp;
                      in_child = rw ec refl;
                      in_target = rw ep refl;
                      whole_key = inr (only_key-same_names p.primary_key parent.column k);
                      all_eligible = rw e refl;
                      all_fit = (m, tt);
                      scored = refl;
                      undecided = (refl, refl);
                    })
                    h)
          ]
        ]

    join_tables-invariant :
        (ev : JoinEvidence) (child parent : ColumnRef) (pt ct : Option Table) (f : Folding)
        → lookup (column_table parent) (table_index ss) ≡ pt
        → lookup (column_table child) (table_index ss) ≡ ct
        → IfFound InScope pt
        → IfFound InScope ct
        → I f
        → I (join_tables ev child parent pt ct f)
    unfolding join_tables
    join_tables-invariant ev child parent none t f ep et ip it h = h
    join_tables-invariant ev child parent (some p) none f ep et ip it h = h
    join_tables-invariant ev child parent (some p) (some t) f ep et ip it h =
        elim (Bool-cases (is_single_key p parent.column)) [
          | inr k ↦ rw k h
          | inl k ↦ rw k (
              join_columns-invariant p t ev child parent (column t child.column)
                (column p parent.column) f ep et ip it k refl refl h)
        ]

    apply_oriented-invariant :
        (ev : JoinEvidence) (child parent : ColumnRef) (f : Folding)
        → I f
        → I (apply_oriented (table_index ss) ev child parent f)
    unfolding apply_oriented
    apply_oriented-invariant ev child parent f h =
        join_tables-invariant ev child parent (lookup (column_table parent) (table_index ss))
          (lookup (column_table child) (table_index ss)) f refl refl (found (column_table parent))
          (found (column_table child)) h

    join_fit-invariant :
        (g : EvidenceGroup) (t p : Table) (names : List Str) (ccs pcs : List Column)
        (m : Option TypeMatch) (f : Folding)
        → InScope t
        → InScope p
        → key_columns t names ≡ some ccs
        → key_columns p p.primary_key ≡ some pcs
        → all (λ c. eligible t c) ccs ≡ true
        → compare_keys ccs pcs ≡ m
        → I f
        → I (join_fit g t p names ccs pcs m f)
    unfolding join_fit
    join_fit-invariant g t p names ccs pcs none f it ip et ep el em h = h
    join_fit-invariant g t p names ccs pcs (some m) f it ip et ep el em h =
        raise _ _ f
          (record {
            child = t;
            target = p;
            child_columns = ccs;
            key = pcs;
            child_in_scope = it;
            target_in_scope = ip;
            names_child = inr (refl, refl);
            names_target = inr (refl, refl);
            in_child = et;
            in_target = ep;
            whole_key = inl refl;
            all_eligible = el;
            all_fit = compare_keys-FitsAll ccs pcs m em;
            scored = refl;
            undecided = (refl, refl);
          })
          h

    join_keys-invariant :
        (g : EvidenceGroup) (t p : Table) (names : List Str) (ccs pcs : Option (List Column))
        (f : Folding)
        → InScope t
        → InScope p
        → key_columns t names ≡ ccs
        → key_columns p p.primary_key ≡ pcs
        → I f
        → I (join_keys g t p names ccs pcs f)
    unfolding join_keys
    join_keys-invariant g t p names none pcs f it ip et ep h = h
    join_keys-invariant g t p names (some ccs) none f it ip et ep h = h
    join_keys-invariant g t p names (some ccs) (some pcs) f it ip et ep h =
        elim (Bool-cases (all (λ c. eligible t c) ccs)) [
          | inr e ↦ rw e h
          | inl e ↦
              rw e (
                join_fit-invariant g t p names ccs pcs (compare_keys ccs pcs) f it ip et ep e refl
                  h)
        ]

    join_names-invariant :
        (g : EvidenceGroup) (t p : Table) (names : Option (List Str)) (f : Folding)
        → InScope t
        → InScope p
        → I f
        → I (join_names g t p names f)
    unfolding join_names
    join_names-invariant g t p none f it ip h = h
    join_names-invariant g t p (some names) f it ip h =
        join_keys-invariant g t p names (key_columns t names) (key_columns p p.primary_key) f it ip
          refl refl h

    join_groups-invariant :
        (g : EvidenceGroup) (parent child : Str) (pt ct : Option Table) (f : Folding)
        → IfFound InScope pt
        → IfFound InScope ct
        → I f
        → I (join_groups g parent child pt ct f)
    unfolding join_groups
    join_groups-invariant g parent child none t f ip it h = h
    join_groups-invariant g parent child (some p) none f ip it h = h
    join_groups-invariant g parent child (some p) (some t) f ip it h =
        elim (Bool-cases (ltb (length p.primary_key) 2)) [
          | inl e ↦ rw e h
          | inr e ↦
              rw e (join_names-invariant g t p (names_in (key_mapping g parent child) p) f it ip h)
        ]

    apply_composite-invariant :
        (g : EvidenceGroup) (f : Folding) → I f → I (apply_composite_evidence (table_index ss) g f)
    unfolding apply_composite_evidence apply_composite_oriented
    apply_composite-invariant g f h =
        let l =
          join_groups-invariant g g.left g.right (lookup g.left (table_index ss))
            (lookup g.right (table_index ss)) f (found g.left) (found g.right) h in
        elim (Bool-cases (str_eq g.left g.right)) [
          | inl e ↦ rw e h
          | inr e ↦ rw e (
              join_groups-invariant g g.right g.left (lookup g.right (table_index ss))
                (lookup g.left (table_index ss)) _ (found g.right) (found g.left) l)
        ]

    apply_joins-invariant :
        (evs : List JoinEvidence) (f : Folding) → I f → I (apply_joins (table_index ss) evs f)
    unfolding apply_joins
    apply_joins-invariant [] f h = h
    apply_joins-invariant (ev ∷ evs) f h = apply_joins-invariant evs _ (
        apply_oriented-invariant ev ev.right ev.left _
          (apply_oriented-invariant ev ev.left ev.right f h))

    -- What every offer of a joined candidate preserves, the walk over the groups preserves.
    pub apply_groups-invariant :
        (gs : List EvidenceGroup) (f : Folding) → I f → I (apply_groups (table_index ss) gs f)
    unfolding apply_groups
    apply_groups-invariant [] f h = h
    apply_groups-invariant (g ∷ gs) f h =
        apply_groups-invariant gs _
          (apply_joins-invariant g.joins _ (apply_composite-invariant g f h))
