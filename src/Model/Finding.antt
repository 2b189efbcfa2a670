-- ===== src/Model/Finding.antt =====
-- internal/model/finding.go: findings, suggestions and the verdict of a key probe.
use pgfathom.Base.{Option, List, text_eq, Dict, ℤ, Str, codes}

pub data FindingKind : Type 0 where
  not_valid_constraint fk_without_index orphan_reference polymorphic_pair : FindingKind
  unsupported_target missing_primary_key unindexed_hot_column : FindingKind

-- The strings that the constants stand for.
abbrev pub finding_name : FindingKind → Str
finding_name FindingKind.not_valid_constraint = codes "not_valid_constraint"
finding_name FindingKind.fk_without_index = codes "fk_without_index"
finding_name FindingKind.orphan_reference = codes "orphan_reference"
finding_name FindingKind.polymorphic_pair = codes "polymorphic_pair"
finding_name FindingKind.unsupported_target = codes "unsupported_target"
finding_name FindingKind.missing_primary_key = codes "missing_primary_key"
finding_name FindingKind.unindexed_hot_column = codes "unindexed_hot_column"

pub data SuggestionKind : Type 0 where
  promote_unique create_primary_key create_index synthetic_primary_key : SuggestionKind

pub data KeyProbeVerdict : Type 0 where
  confirmed unverified : KeyProbeVerdict

-- an empty KeyProbe is none
pub record Suggestion : Type 0 where
  pub kind : SuggestionKind
  pub columns : List Str
  pub index_method : Str
  pub index_opclass : Str
  pub note : Str
  pub key_probe : Option KeyProbeVerdict

pub record Finding : Type 0 where
  pub kind : FindingKind
  pub object : Str
  pub detail : Str
  pub metrics : Dict Str ℤ
  pub suggestion : Option Suggestion
