-- ===== src/Model/Coverage.antt =====
-- internal/model/coverage.go: what a run looked at, against what exists.
pub mod Completeness
use pgfathom.Base.{
  ℕ, ◌+◌, Bool, ◌&&◌, Option, List, text_eq, Float, length, ltb, ◌==◌, if◌then◌else◌, Str, pos,
}
use pgfathom.Model.Usage.{Instant}

pub data UnsupportedReason : Type 0 where
  no_primary_key partitioned inheritance : UnsupportedReason

pub record SkippedTable : Type 0 where
  pub table : Str
  pub reason : UnsupportedReason

pub record SkippedKeyProbe : Type 0 where
  pub table : Str
  pub reason : Str

pub record Coverage : Type 0 where
  pub tables_total : ℕ
  pub tables_analyzed : ℕ
  pub tables_no_privilege : List Str
  pub tables_excluded : List Str
  pub tables_unsupported : List SkippedTable
  pub schemas_total : ℕ
  pub schemas_analyzed : ℕ
  pub schemas_not_analyzed : List Str
  pub schemas_excluded : List Str
  pub candidates_found : ℕ
  pub candidates_validated : ℕ
  pub candidates_timed_out : ℕ
  pub stats_prefilter : Bool
  pub candidates_stats_checked : ℕ
  pub candidates_stats_rejected : ℕ
  pub candidates_without_stats : ℕ
  pub stats_reset_at : Option Instant
  pub pg_stat_statements : Bool
  pub key_probes_skipped : List SkippedKeyProbe

unfoldable pub complete : Coverage → Bool
complete c =
    c.tables_analyzed == c.tables_total
    && (length c.tables_no_privilege == 0
        && (length c.schemas_not_analyzed == 0 && c.candidates_timed_out == 0))

unfoldable pub skipped_count : Coverage → ℕ
skipped_count c =
    length c.tables_no_privilege + length c.tables_excluded + length c.tables_unsupported

module _ ⦃F : Float⦄ where
  abbrev pub material_coverage : F.F64
  material_coverage = F.lit (pos 80) 2

  unfoldable pub analyzed_share : Coverage → F.F64
  analyzed_share c =
      if c.tables_total == 0
      then F.of_int (pos 0)
      else F.div (F.of_int (pos c.tables_analyzed)) (F.of_int (pos c.tables_total))

  unfoldable pub materially_incomplete : Coverage → Bool
  unfolding analyzed_share
  materially_incomplete c = ltb 0 c.tables_total && F.lt (analyzed_share c) material_coverage
