-- ===== src/Sqlprobe/Resolve.antt =====
-- internal/sqlprobe/probe.go, after the sources are fetched: what is extracted from them, and what the
-- catalog knows of it. The queries that fetch the sources are arguments here: their results.
pub mod Matching
pub mod Real
use pgfathom.Base.{
  ℕ, ◌+◌, Bool, not, ◌&&◌, Option, none, some, List, [], ◌∷◌, ◌++◌, map, text_eq, any, sort_stable,
  ◌==◌, if◌then◌else◌, is_some, Unicode, Str, str_eq, str_lt, equal_fold,
}
use pgfathom.Model.Refs.{ColumnRef, column_string, column_ref_eq}
use pgfathom.Model.Table.{Column, Table, Schema, column}
use pgfathom.Model.Evidence.{
  JoinSource, source_name, JoinEvidence, OperatorClass, operator_name, PredicateEvidence,
}
use pgfathom.Sqlprobe.Extract.{RawRef, RawJoin, PredOp, RawPredicate}
use pgfathom.Sqlprobe.Walk.{extract}

pub record Source : Type 0 where
  pub object : Str
  pub sql : Str

pub record SourcedJoin : Type 0 where
  pub join : RawJoin
  pub source : JoinSource
  pub object : Str

pub record SourcedPredicate : Type 0 where
  pub pred : RawPredicate
  pub source : JoinSource
  pub object : Str

pub record Evidence : Type 0 where
  pub joins : List JoinEvidence
  pub predicates : List PredicateEvidence
  pub statements_available : Bool

abbrev pub operator_class_for : PredOp → OperatorClass
operator_class_for PredOp.equality = OperatorClass.equality
operator_class_for PredOp.range = OperatorClass.range
operator_class_for PredOp.like_prefix = OperatorClass.like_prefix
operator_class_for PredOp.like_infix = OperatorClass.like_infix
operator_class_for PredOp.containment = OperatorClass.containment
operator_class_for PredOp.full_text = OperatorClass.full_text
operator_class_for PredOp.vector_distance = OperatorClass.vector_distance

abbrev pub or_nothing : Option (List Source) → List Source
or_nothing none = []
or_nothing (some sources) = sources

-- found and matches
abbrev pub Matches : Type 0
Matches = ColumnRef × ℕ

-- The text keys by which the evidence is put in order.
abbrev pub join_texts : JoinEvidence → Str × Str × Str
join_texts e = (column_string e.left, column_string e.right, source_name e.source)

abbrev pub predicate_texts : PredicateEvidence → Str × Str × Str
predicate_texts e = (column_string e.column, operator_name e.operator, e.object)

abbrev pub texts_lt : Str × Str × Str → Str × Str × Str → Bool
texts_lt (a, b, c) (d, e, f) =
    if not (str_eq a d) then str_lt a d else if not (str_eq b e) then str_lt b e else str_lt c f

abbrev pub join_less : JoinEvidence → JoinEvidence → Bool
join_less e f = texts_lt (join_texts e) (join_texts f)

abbrev pub predicate_less : PredicateEvidence → PredicateEvidence → Bool
predicate_less e f = texts_lt (predicate_texts e) (predicate_texts f)

-- dedupKey of a join is the key of its order; `==` on the keys compares the three strings
abbrev pub same_join : JoinEvidence → JoinEvidence → Bool
same_join e f =
    str_eq (column_string e.left) (column_string f.left)
    && (str_eq (column_string e.right) (column_string f.right)
        && str_eq (source_name e.source) (source_name f.source))

-- dedupKey of a predicate
abbrev pub same_predicate : PredicateEvidence → PredicateEvidence → Bool
same_predicate e f =
    str_eq (column_string e.column) (column_string f.column)
    && (str_eq (operator_name e.operator) (operator_name f.operator)
        && (str_eq (source_name e.source) (source_name f.source) && str_eq e.object f.object))

-- the two sides, the smaller text first
abbrev pub ordered : ColumnRef → ColumnRef → ColumnRef × ColumnRef
ordered l r = if str_lt (column_string r) (column_string l) then (r, l) else (l, r)

-- one join whose sides are looked up. `seen` holds a key for every evidence in `out`, and no other,
-- so `out` stands for it.
pub add_join :
    SourcedJoin → Option ColumnRef → Option ColumnRef → List JoinEvidence → List JoinEvidence
add_join sj none r out = out
add_join sj (some l) none out = out
add_join sj (some l) (some r) out =
    let (a, b) = ordered l r in
    let e : JoinEvidence = record { left = a; right = b; source = sj.source; object = sj.object } in
    if column_ref_eq.beq l r
    then out
    else if any (λ f. same_join f e) out
    then out
    else out ++ e ∷ []

pub add_predicate :
    SourcedPredicate → Option ColumnRef → List PredicateEvidence → List PredicateEvidence
add_predicate sp none out = out
add_predicate sp (some c) out =
    let e : PredicateEvidence = record {
      column = c;
      operator = operator_class_for sp.pred.op;
      source = sp.source;
      object = sp.object;
    } in
    if any (λ f. same_predicate f e) out then out else out ++ e ∷ []

module _ ⦃u : Unicode⦄ where
  -- one table whose name fits, with the column that it has
  pub match_column : Str → Table → Option Column → Matches → Matches
  match_column schema t none m = m
  match_column schema t (some c) m =
      (record { schema = schema; table = t.name; column = c.name }, m.1 + 1)

  pub match_tables : RawRef → Str → List Table → Matches → Matches
  unfolding match_column
  match_tables r schema [] m = m
  match_tables r schema (t ∷ ts) m =
      match_tables r schema ts
        (if not (equal_fold r.table t.name) then m else match_column schema t (column t r.column) m)

  pub match_schemas : RawRef → List Schema → Matches → Matches
  unfolding match_tables
  match_schemas r [] m = m
  match_schemas r (s ∷ ss) m = match_schemas r ss (
      if not (str_eq r.schema []) && not (equal_fold r.schema s.name)
      then m
      else match_tables r s.name s.tables m)

  unfoldable pub resolve_ref : RawRef → List Schema → Option ColumnRef
  unfolding match_schemas
  resolve_ref r ss =
      let (found, matches) =
        match_schemas r ss (record { schema = []; table = []; column = [] }, 0) in
      if matches == 1 then some found else none

  pub resolve_joins : List SourcedJoin → List Schema → List JoinEvidence → List JoinEvidence
  unfolding add_join resolve_ref
  resolve_joins [] ss out = out
  resolve_joins (sj ∷ raw) ss out =
      resolve_joins raw ss
        (add_join sj (resolve_ref sj.join.left ss) (resolve_ref sj.join.right ss) out)

  unfoldable pub resolve_against_catalog : List SourcedJoin → List Schema → List JoinEvidence
  unfolding resolve_joins
  resolve_against_catalog raw ss = sort_stable join_less (resolve_joins raw ss [])

  pub resolve_predicates :
      List SourcedPredicate → List Schema → List PredicateEvidence → List PredicateEvidence
  unfolding add_predicate resolve_ref
  resolve_predicates [] ss out = out
  resolve_predicates (sp ∷ raw) ss out =
      resolve_predicates raw ss (add_predicate sp (resolve_ref sp.pred.reference ss) out)

  unfoldable pub resolve_predicates_against_catalog :
      List SourcedPredicate → List Schema → List PredicateEvidence
  unfolding resolve_predicates
  resolve_predicates_against_catalog raw ss =
      sort_stable predicate_less (resolve_predicates raw ss [])

  pub extract_all : List Source → JoinSource → List SourcedJoin × List SourcedPredicate
  extract_all [] kind = ([], [])
  extract_all (s ∷ sources) kind =
      let (joins, preds) = extract s.sql in
      let (more, others) = extract_all sources kind in
      (
        map (λ j. record { join = j; source = kind; object = s.object }) joins ++ more,
        map (λ p. record { pred = p; source = kind; object = s.object }) preds ++ others,
      )

  -- Probe, from what the three queries gave: an error of the first two ends it, and the statements
  -- are left out where they cannot be read
  unfoldable pub probe :
      Option (List Source)
      → Option (List Source)
      → Option (List Source)
      → List Schema
      → Option Evidence
  unfolding extract_all resolve_against_catalog resolve_predicates_against_catalog
  probe none functions statements ss = none
  probe (some views) none statements ss = none
  probe (some views) (some functions) statements ss =
      let queries = or_nothing statements in
      let (vj, vp) = extract_all views JoinSource.view in
      let (fj, fp) = extract_all functions JoinSource.function in
      let (sj, sp) = extract_all queries JoinSource.statements in
      some (record {
        joins = resolve_against_catalog (vj ++ (fj ++ sj)) ss;
        predicates = resolve_predicates_against_catalog (vp ++ (fp ++ sp)) ss;
        statements_available = is_some statements;
      })
