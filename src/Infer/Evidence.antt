-- ===== src/Infer/Evidence.antt =====
-- internal/infer/evidence.go: join evidence, folded into the candidates. The pointer to the result and
-- the map of the candidates are a state that every step takes and returns.
pub mod Agreement
pub mod Joined
use pgfathom.Base.{
  ℕ, zero, suc, ◌+◌, Bool, false, not, ◌||◌, Option, none, some, List, [], ◌∷◌, ◌++◌, map, text_eq,
  Dict, lookup, put, Float, length, any, all, ltb, if◌then◌else◌, Unicode, Str, codes, str_eq,
  str_lt, to_lower, equal_fold,
}
use pgfathom.Model.Refs.{ColumnRef, KeyRef, table_ref, single_key, key_string, join}
use pgfathom.Model.Table.{Column, Table, Schema, ref, column, index_leads, is_indexed_leading}
use pgfathom.Model.Candidate.{SignalKind, Signal, Verdict, Candidate, has_signal}
use pgfathom.Model.Evidence.{source_name, JoinSource, JoinEvidence, signal_for}
use pgfathom.Infer.Types.{TypeMatch, compare_types, is_compatible}
use pgfathom.Infer.Score.{
  score, arity_weight, rescore, weight_child_indexed, weight_not_null, weight_join_in_view,
  weight_join_in_function, weight_join_in_statements,
}
use pgfathom.Infer.Signals.{signal_if, type_signal}
use pgfathom.Infer.Matches.{eligible}
use pgfathom.Infer.Keys.{key_columns, compare_keys, base_types, none_nullable}

pub record EvidenceGroup : Type 0 where
  pub object : Str
  pub source : JoinSource
  pub left : Str
  pub right : Str
  pub joins : List JoinEvidence

-- The groups by their keys, in the order in which they were first seen.
abbrev pub EvidenceGroups : Type 0
EvidenceGroups = List (Str × EvidenceGroup)

abbrev pub column_table : ColumnRef → Str
column_table r = table_ref r.schema r.table

-- the two tables, the smaller name first
abbrev pub sides : JoinEvidence → Str × Str
sides ev =
    if str_lt (column_table ev.right) (column_table ev.left)
    then (column_table ev.right, column_table ev.left)
    else (column_table ev.left, column_table ev.right)

abbrev pub group_key : JoinEvidence → Str
group_key ev =
    let (left, right) = sides ev in
    source_name ev.source ++ (0 ∷ ev.object ++ (0 ∷ left ++ 0 ∷ right))

pub group_join : JoinEvidence → EvidenceGroups → EvidenceGroups
group_join ev [] =
    let (l, r) = sides ev in
    (
      group_key ev,
      record { object = ev.object; source = ev.source; left = l; right = r; joins = ev ∷ [] },
    )
    ∷ []
group_join ev ((key, g) ∷ groups) =
    let rest = group_join ev groups in
    if str_eq key (group_key ev)
    then (key, record g { joins = g.joins ++ ev ∷ [] }) ∷ groups
    else (key, g) ∷ rest

pub group_joins : List JoinEvidence → EvidenceGroups → EvidenceGroups
unfolding group_join
group_joins [] groups = groups
group_joins (ev ∷ evs) groups = group_joins evs (group_join ev groups)

abbrev pub group_list : EvidenceGroups → List EvidenceGroup
group_list groups = map (λ (k, g). g) groups

unfoldable pub group_evidence : List JoinEvidence → List EvidenceGroup
unfolding group_joins
group_evidence evs = group_list (group_joins evs [])

-- the tables by schema and name; a later one with the same name replaces an earlier one
pub put_tables : Str → List Table → Dict Str Table → Dict Str Table
put_tables schema [] out = out
put_tables schema (t ∷ ts) out = put_tables schema ts (put (table_ref schema t.name) t out)

pub put_schemas : List Schema → Dict Str Table → Dict Str Table
unfolding put_tables
put_schemas [] out = out
put_schemas (s ∷ ss) out = put_schemas ss (put_tables s.name s.tables out)

unfoldable pub table_index : List Schema → Dict Str Table
unfolding put_schemas
table_index ss = put_schemas ss []

-- the bytes of the arrow between the two keys
abbrev arrow : Str
arrow = 0xe2 ∷ 0x86 ∷ 0x92 ∷ []

abbrev pub pair_key : KeyRef → KeyRef → Str
pair_key child parent = key_string child ++ (arrow ++ key_string parent)

-- p, c: the side of the join in the parent table and the other one
abbrev pub orient : JoinEvidence → Str → ColumnRef × ColumnRef
orient ev parent =
    if str_eq (column_table ev.left) parent then (ev.left, ev.right) else (ev.right, ev.left)

module _ ⦃u : Unicode⦄ where
  unfoldable pub only_key : List Str → Str → Bool
  only_key [] name = false
  only_key (k ∷ []) name = equal_fold k name
  only_key (k ∷ l ∷ ks) name = false

  unfoldable pub is_single_key : Table → Str → Bool
  unfolding only_key
  is_single_key t name = only_key t.primary_key name

  abbrev pub disagrees : Option Str → Str → Bool
  disagrees none name = false
  disagrees (some old) name = not (equal_fold old name)

  -- the loop of keyMapping
  pub map_joins : Str → Str → List JoinEvidence → Dict Str Str → Option (Dict Str Str)
  map_joins parent child [] out = some out
  map_joins parent child (ev ∷ evs) out =
      let (p, c) = orient ev parent in
      let passed = map_joins parent child evs out in
      let k = to_lower p.column in
      let taken = map_joins parent child evs (put k c.column out) in
      if not (str_eq (column_table p) parent) || not (str_eq (column_table c) child)
      then passed
      else if disagrees (lookup k out) c.column
      then none
      else taken

  abbrev pub key_mapping : EvidenceGroup → Str → Str → Option (Dict Str Str)
  key_mapping g parent child = map_joins parent child g.joins []

  abbrev pub in_front : Str → Option (List Str) → Option (List Str)
  in_front name none = none
  in_front name (some names) = some (name ∷ names)

  -- one position of the key, and what the rest gives for the name found
  abbrev pub take_name : List Str → Option Str → (Str → Option (List Str)) → Option (List Str)
  take_name used none rest = none
  take_name used (some name) rest =
      if any (λ n. str_eq n (to_lower name)) used then none else in_front name (rest name)

  -- the loop over the parent's key; `used` holds the names it has given out
  pub child_names : Dict Str Str → List Str → List Str → Option (List Str)
  child_names mapping used [] = some []
  child_names mapping used (k ∷ ks) =
      take_name used (lookup (to_lower k) mapping)
        (λ name. child_names mapping (to_lower name ∷ used) ks)

module _ ⦃F : Float⦄ where
  -- res.Candidates and existing
  pub record Folding : Type 0 where
    pub candidates : List Candidate
    pub existing : Dict Str ℕ

  abbrev pub join_weight : SignalKind → F.F64
  join_weight SignalKind.join_in_function = weight_join_in_function
  join_weight SignalKind.join_in_statements = weight_join_in_statements
  join_weight k = weight_join_in_view

  abbrev pub candidate_key : Candidate → Str
  candidate_key c = pair_key c.child c.parent

  -- the loop of candidateIndex, at index i
  pub index_candidates : ℕ → List Candidate → Dict Str ℕ → Dict Str ℕ
  index_candidates i [] out = out
  index_candidates i (c ∷ cs) out = index_candidates (i + 1) cs (put (candidate_key c) i out)

  unfoldable pub candidate_index : List Candidate → Dict Str ℕ
  unfolding index_candidates
  candidate_index cs = index_candidates 0 cs []

  -- one signal of each kind
  unfoldable pub strengthen : Signal → Candidate → Candidate
  strengthen s c =
      if has_signal c s.kind then c else rescore (record c { signals = c.signals ++ s ∷ [] })

  -- res.Candidates[i] = f(res.Candidates[i]); the source would panic where there is no such index
  unfoldable pub change_at : ℕ → (Candidate → Candidate) → List Candidate → List Candidate
  change_at i f [] = []
  change_at zero f (c ∷ cs) = f c ∷ cs
  change_at (suc i) f (c ∷ cs) = c ∷ change_at i f cs

  unfoldable pub offer_at : Option ℕ → Str → Signal → Candidate → Folding → Folding
  unfolding change_at
  offer_at (some i) key s fresh f = record f {
    candidates = change_at i (strengthen s) f.candidates;
  }
  offer_at none key s fresh f = record {
    candidates = f.candidates ++ fresh ∷ [];
    existing = put key (length f.candidates) f.existing;
  }

  -- the signal on the candidate between the two keys, or a new candidate
  unfoldable pub offer : Signal → Candidate → Folding → Folding
  unfolding offer_at
  offer s fresh f =
      offer_at (lookup (candidate_key fresh) f.existing) (candidate_key fresh) s fresh f

  abbrev pub evidence_signal : SignalKind → Str → Signal
  evidence_signal k object = record { kind = k; weight = join_weight k; detail = object }

  abbrev pub evidence_candidate : KeyRef → KeyRef → List Signal → Candidate
  evidence_candidate child parent signals = record {
    child = child;
    parent = parent;
    signals = signals;
    meta_score = score signals;
    validation = none;
    verdict = Verdict.unvalidated;
    reason = codes "not validated against data";
  }

module _ ⦃F : Float⦄ ⦃u : Unicode⦄ where
  unfoldable pub single_signals : Signal → Table → Column → Column → TypeMatch → List Signal
  single_signals s t cc pc m =
      s
      ∷ type_signal m cc.base_type pc.base_type
      ∷ (signal_if (is_indexed_leading t cc.name) SignalKind.child_indexed weight_child_indexed
            cc.name
          ++ signal_if (not cc.nullable) SignalKind.not_null weight_not_null [])

  -- after the two tables are found
  pub join_columns :
      Table
      → JoinEvidence
      → ColumnRef
      → ColumnRef
      → Option Column
      → Option Column
      → Folding
      → Folding
  join_columns t ev child parent none pc f = f
  join_columns t ev child parent (some cc) none f = f
  join_columns t ev child parent (some cc) (some pc) f =
      let m = compare_types cc.base_type pc.base_type in
      let s = evidence_signal (signal_for ev) ev.object in
      let fresh =
        evidence_candidate (single_key child.schema child.table child.column)
          (single_key parent.schema parent.table parent.column) (single_signals s t cc pc m) in
      if not (eligible t cc) then f else if not (is_compatible m) then f else offer s fresh f

  pub join_tables :
      JoinEvidence → ColumnRef → ColumnRef → Option Table → Option Table → Folding → Folding
  unfolding join_columns
  join_tables ev child parent none t f = f
  join_tables ev child parent (some p) none f = f
  join_tables ev child parent (some p) (some t) f =
      if not (is_single_key p parent.column)
      then f
      else join_columns t ev child parent (column t child.column) (column p parent.column) f

  unfoldable pub apply_oriented :
      Dict Str Table → JoinEvidence → ColumnRef → ColumnRef → Folding → Folding
  unfolding join_tables
  apply_oriented tables ev child parent f =
      join_tables ev child parent (lookup (column_table parent) tables)
        (lookup (column_table child) tables) f

  unfoldable pub whole_signals :
      Signal → Table → Table → List Str → List Column → List Column → TypeMatch → List Signal
  whole_signals s t p names ccs pcs m =
      s
      ∷ record {
        kind = SignalKind.composite_arity;
        weight = arity_weight (length ccs);
        detail = ref p;
      }
      ∷ type_signal m (base_types ccs) (base_types pcs)
      ∷ (signal_if (index_leads t.indexes names) SignalKind.child_indexed weight_child_indexed
            (join (codes ", ") names)
          ++ signal_if (none_nullable ccs) SignalKind.not_null weight_not_null [])

  pub join_fit :
      EvidenceGroup
      → Table
      → Table
      → List Str
      → List Column
      → List Column
      → Option TypeMatch
      → Folding
      → Folding
  join_fit g t p names ccs pcs none f = f
  join_fit g t p names ccs pcs (some m) f =
      let k = signal_for (record {
        left = record { schema = []; table = []; column = [] };
        right = record { schema = []; table = []; column = [] };
        source = g.source;
        object = [];
      }) in
      let s = evidence_signal k g.object in
      offer s
        (evidence_candidate (record { schema = t.schema; table = t.name; columns = names })
          (record { schema = p.schema; table = p.name; columns = p.primary_key })
          (whole_signals s t p names ccs pcs m))
        f

  -- after the names are looked up in their tables
  pub join_keys :
      EvidenceGroup
      → Table
      → Table
      → List Str
      → Option (List Column)
      → Option (List Column)
      → Folding
      → Folding
  unfolding join_fit
  join_keys g t p names none pcs f = f
  join_keys g t p names (some ccs) none f = f
  join_keys g t p names (some ccs) (some pcs) f =
      if all (λ c. eligible t c) ccs
      then join_fit g t p names ccs pcs (compare_keys ccs pcs) f
      else f

  pub join_names : EvidenceGroup → Table → Table → Option (List Str) → Folding → Folding
  unfolding join_keys
  join_names g t p none f = f
  join_names g t p (some names) f =
      join_keys g t p names (key_columns t names) (key_columns p p.primary_key) f

  abbrev pub names_in : Option (Dict Str Str) → Table → Option (List Str)
  names_in none p = none
  names_in (some mapping) p = child_names mapping [] p.primary_key

  pub join_groups : EvidenceGroup → Str → Str → Option Table → Option Table → Folding → Folding
  unfolding join_names
  join_groups g parent child none t f = f
  join_groups g parent child (some p) none f = f
  join_groups g parent child (some p) (some t) f =
      if ltb (length p.primary_key) 2
      then f
      else join_names g t p (names_in (key_mapping g parent child) p) f

  unfoldable pub apply_composite_oriented :
      Dict Str Table → EvidenceGroup → Str → Str → Folding → Folding
  unfolding join_groups
  apply_composite_oriented tables g parent child f =
      join_groups g parent child (lookup parent tables) (lookup child tables) f

  pub apply_composite_evidence : Dict Str Table → EvidenceGroup → Folding → Folding
  unfolding apply_composite_oriented
  apply_composite_evidence tables g f =
      if str_eq g.left g.right
      then f
      else apply_composite_oriented tables g g.right g.left
          (apply_composite_oriented tables g g.left g.right f)

  pub apply_joins : Dict Str Table → List JoinEvidence → Folding → Folding
  unfolding apply_oriented
  apply_joins tables [] f = f
  apply_joins tables (ev ∷ evs) f =
      apply_joins tables evs
        (apply_oriented tables ev ev.right ev.left (apply_oriented tables ev ev.left ev.right f))

  pub apply_groups : Dict Str Table → List EvidenceGroup → Folding → Folding
  unfolding apply_joins apply_composite_evidence
  apply_groups tables [] f = f
  apply_groups tables (g ∷ gs) f =
      apply_groups tables gs (apply_joins tables g.joins (apply_composite_evidence tables g f))

  -- with no evidence nothing is folded, as the early return does
  unfoldable pub apply_evidence : List Candidate → List Schema → List JoinEvidence → List Candidate
  unfolding apply_groups candidate_index
  apply_evidence cs schemas evidence =
      (apply_groups (table_index schemas) (group_evidence evidence)
        (record { candidates = cs; existing = candidate_index cs })).candidates
