-- ===== src/Infer/Signals.antt =====
-- internal/infer/generate.go: the options, the signals of a pair of columns, and the target that a
-- table's name leads to. The profile is an argument of its own where it cannot be nil.
pub mod Keyed
use pgfathom.Base.{
  ℕ, Bool, false, not, ◌&&◌, ◌||◌, Option, none, some, List, [], ◌∷◌, ◌++◌, text_eq, Float, ℤ,
  pos_part, leb_ℤ, any, ltb, if◌then◌else◌, Unicode, Str, codes, str_eq, has_prefix, to_lower,
  equal_fold, pos,
}
use pgfathom.Model.Refs.{KeyRef}
use pgfathom.Model.Usage.{estimated_row_count}
use pgfathom.Model.Table.{Column, Table, column, is_indexed_leading}
use pgfathom.Model.Candidate.{SignalKind, Signal}
use pgfathom.Model.Evidence.{JoinEvidence}
use pgfathom.Profile.{Profile}
use pgfathom.Profile.Normalize.{Origin, is_exact, origin_string}
use pgfathom.Infer.Types.{TypeMatch}
use pgfathom.Infer.Score.{
  weight_exact_name, weight_normalized_name, weight_identical_type, weight_compatible_type,
  weight_unique_target, weight_child_indexed, weight_comment_mention, weight_not_null,
  penalty_ambiguous_target, penalty_generic_domain, name_similarity_weight, default_min_score,
  default_min_name_similarity, default_small_table_rows,
}
use pgfathom.Infer.Finalize.{SkipReason, Skip}

-- strings.Contains
abbrev pub contains : Str → Str → Bool
contains [] sub = has_prefix [] sub
contains (c ∷ s) sub = has_prefix (c ∷ s) sub || contains s sub

pub record Target : Type 0 where
  pub table : Table
  pub pk_column : Column

-- what resolveKeyTarget returns: a target, or a skip to record, or neither
pub data Resolved : Type 0 where
  found : Target → Resolved
  skipped : Skip → Resolved
  nothing : Resolved

skip_of : KeyRef → Str → SkipReason → Resolved
skip_of child target reason =
    Resolved.skipped (record { child = child; target = target; reason = reason; detail = [] })

module _ ⦃u : Unicode⦄ where
  at_key : Table → Option Column → Resolved
  at_key t none = Resolved.nothing
  at_key t (some c) = Resolved.found (record { table = t; pk_column = c })

  unfoldable pub resolve_key : KeyRef → Str → Table → List Str → Resolved
  unfolding skip_of at_key
  resolve_key child name t [] = skip_of child name SkipReason.no_key
  resolve_key child name t (k ∷ []) = at_key t (column t k)
  resolve_key child name t (k ∷ l ∷ rest) = skip_of child name SkipReason.arity_mismatch

  -- resolveKeyTarget
  abbrev pub resolve_key_target : KeyRef → Str → Table → Resolved
  resolve_key_target child name t = resolve_key child name t t.primary_key

  pub mentions : Str → Str → Bool
  mentions comment entity =
      if str_eq comment [] || str_eq entity []
      then false
      else contains (to_lower comment) (to_lower entity)

  pub is_generic : Str → Profile → Bool
  is_generic entity p = any (λ g. equal_fold g entity) p.generic_entities

module _ ⦃F : Float⦄ where
  pub record Options : Type 0 where
    pub profile : Option Profile
    pub min_score : F.F64
    pub min_name_similarity : F.F64
    pub small_table_rows : ℤ
    pub evidence : List JoinEvidence

  unfoldable pub min_score : Options → F.F64
  min_score o = if F.le o.min_score (F.of_int (pos 0)) then default_min_score else o.min_score

  unfoldable pub min_name_similarity : Options → F.F64
  min_name_similarity o =
      if F.le o.min_name_similarity (F.of_int (pos 0))
      then default_min_name_similarity
      else o.min_name_similarity

  unfoldable pub small_table_rows : Options → ℕ
  small_table_rows o =
      if leb_ℤ o.small_table_rows (pos 0)
      then default_small_table_rows
      else pos_part o.small_table_rows

  unfoldable pub name_signal_from_origin : Origin → Str → Signal
  name_signal_from_origin o table_name =
      if is_exact o
      then record { kind = SignalKind.exact_name; weight = weight_exact_name; detail = table_name }
      else record {
        kind = SignalKind.normalized_name;
        weight = weight_normalized_name;
        detail = table_name ++ (codes " via " ++ origin_string o);
      }

  unfoldable pub name_signal_from_similarity : Str → F.F64 → Signal
  name_signal_from_similarity table_name similarity = record {
    kind = SignalKind.name_similarity;
    weight = name_similarity_weight similarity;
    detail = table_name ++ codes " via lexical similarity";
  }

  abbrev pub signal_if : Bool → SignalKind → F.F64 → Str → List Signal
  signal_if b k weight detail =
      if b then record { kind = k; weight = weight; detail = detail } ∷ [] else []

  abbrev pub type_signal : TypeMatch → Str → Str → Signal
  type_signal TypeMatch.identical child parent = record {
    kind = SignalKind.identical_type;
    weight = weight_identical_type;
    detail = child;
  }
  type_signal m child parent = record {
    kind = SignalKind.compatible_type;
    weight = weight_compatible_type;
    detail = child ++ (codes " into " ++ parent);
  }

  abbrev pub target_signal : Bool → Str → Signal
  target_signal ambiguous entity =
      if ambiguous
      then record {
        kind = SignalKind.ambiguous_target;
        weight = penalty_ambiguous_target;
        detail = entity;
      }
      else record {
        kind = SignalKind.unique_target;
        weight = weight_unique_target;
        detail = entity;
      }

  -- known && rows < smallTableRows
  abbrev pub known_small : Option ℕ → ℕ → Bool
  known_small none limit = false
  known_small (some rows) limit = ltb rows limit

module _ ⦃F : Float⦄ ⦃u : Unicode⦄ where
  unfoldable pub build_signals :
      Signal → Table → Column → Target → TypeMatch → Bool → Str → Profile → Options → List Signal
  unfolding mentions is_generic
  build_signals name_signal t col tgt m ambiguous entity p opts =
      name_signal
      ∷ type_signal m col.base_type tgt.pk_column.base_type
      ∷ target_signal ambiguous entity
      ∷ (signal_if (is_indexed_leading t col.name) SignalKind.child_indexed weight_child_indexed
            col.name
          ++ (signal_if (mentions col.comment entity || mentions t.comment entity)
                SignalKind.comment_mention weight_comment_mention entity
              ++ (signal_if (not col.nullable) SignalKind.not_null weight_not_null []
                  ++ signal_if
                      (is_generic entity p
                        && known_small (estimated_row_count tgt.table.stats)
                            (small_table_rows opts))
                      SignalKind.generic_domain penalty_generic_domain entity)))
