-- ===== src/Model/Evidence.antt =====
-- internal/model/evidence.go and internal/model/extension.go: joins and predicates mined from
-- stored SQL, and the index method that serves a predicate.
use pgfathom.Base.{
  Bool, not, ◌||◌, List, [], map, text_eq, any, if◌then◌else◌, Unicode, Str, codes, str_eq,
  has_prefix, to_lower,
}
use pgfathom.Model.Refs.{ColumnRef}
use pgfathom.Model.Candidate.{SignalKind}

pub data JoinSource : Type 0 where
  view function statements : JoinSource

-- the string that the constant stands for
abbrev pub source_name : JoinSource → Str
source_name JoinSource.view = codes "view"
source_name JoinSource.function = codes "function"
source_name JoinSource.statements = codes "statements"

pub record JoinEvidence : Type 0 where
  pub left : ColumnRef
  pub right : ColumnRef
  pub source : JoinSource
  pub object : Str

unfoldable pub signal_for : JoinEvidence → SignalKind
signal_for e = elim e.source [
  | function ↦ SignalKind.join_in_function
  | statements ↦ SignalKind.join_in_statements
  | view ↦ SignalKind.join_in_view
]

pub data OperatorClass : Type 0 where
  equality range like_prefix like_infix containment full_text vector_distance : OperatorClass

-- the string that the constant stands for
abbrev pub operator_name : OperatorClass → Str
operator_name OperatorClass.equality = codes "eq"
operator_name OperatorClass.range = codes "range"
operator_name OperatorClass.like_prefix = codes "like_prefix"
operator_name OperatorClass.like_infix = codes "like_infix"
operator_name OperatorClass.containment = codes "containment"
operator_name OperatorClass.full_text = codes "fulltext"
operator_name OperatorClass.vector_distance = codes "vector_distance"

pub record PredicateEvidence : Type 0 where
  pub column : ColumnRef
  pub operator : OperatorClass
  pub source : JoinSource
  pub object : Str

-- The three results of IndexMethodFor. An empty method means that there is no honest
-- recommendation.
pub record Recommendation : Type 0 where
  pub method : Str
  pub opclass : Str
  pub note : Str

abbrev pub gin : Str
gin = codes "gin"

abbrev pub btree : Str
btree = codes "btree"

abbrev pub hnsw : Str
hnsw = codes "hnsw"

abbrev pub recommend : Str → Str → Str → Recommendation
recommend method opclass note = record { method = method; opclass = opclass; note = note }

abbrev pub no_recommendation : Recommendation
no_recommendation = recommend [] [] []

unfoldable pub is_container_type : Str → Bool
is_container_type base_type =
    str_eq base_type (codes "jsonb")
    || (str_eq base_type (codes "hstore") || has_prefix base_type (codes "_"))

module _ ⦃u : Unicode⦄ where
  -- The set as the list of the lowered names.
  unfoldable pub new_extension_set : List Str → List Str
  new_extension_set names = map to_lower names

  unfoldable pub has : List Str → Str → Bool
  has ext name = any (λ n. str_eq n (to_lower name)) ext

  unfoldable pub index_method_for : OperatorClass → Str → List Str → Recommendation
  index_method_for OperatorClass.containment base_type ext =
      if is_container_type base_type then recommend gin [] [] else no_recommendation
  index_method_for OperatorClass.full_text base_type ext =
      if str_eq base_type (codes "tsvector") then recommend gin [] [] else no_recommendation
  index_method_for OperatorClass.like_infix base_type ext =
      if has ext (codes "pg_trgm")
      then recommend gin (codes "gin_trgm_ops") []
      else recommend btree []
          (codes "infix LIKE would benefit from pg_trgm, which is not installed")
  index_method_for OperatorClass.vector_distance base_type ext =
      if not (has ext (codes "vector"))
      then recommend [] [] (codes "vector distance operator found but pgvector is not installed")
      else if not (str_eq base_type (codes "vector"))
      then no_recommendation
      else recommend hnsw (codes "vector_l2_ops") (
          codes
            "defaulted to the L2 operator class; switch to vector_cosine_ops or vector_ip_ops if the query actually uses <=> or <#>")
  index_method_for OperatorClass.equality base_type ext = recommend btree [] []
  index_method_for OperatorClass.range base_type ext = recommend btree [] []
  index_method_for OperatorClass.like_prefix base_type ext = recommend btree [] []
