-- ===== src/Model/Naming.antt =====
-- internal/model/naming.go: what a schema reveals about its own naming convention.
use pgfathom.Base.{ℕ, Bool, false, ◌&&◌, List, [], text_eq, Float, length, ◌==◌, Str}

module _ ⦃F : Float⦄ where
  pub record NamingEvidence : Type 0 where
    pub affix : Str
    pub occurrences : ℕ
    pub share : F.F64
    pub examples : List Str

  pub record NamingDetection : Type 0 where
    pub enabled : Bool
    pub column_suffixes : List NamingEvidence
    pub column_prefixes : List NamingEvidence
    pub table_prefixes : List NamingEvidence
    pub primary_key_names : List NamingEvidence
    pub declared_keys : ℕ
    pub tables : ℕ
    pub single_pk_tables : ℕ

  -- NamingDetection{}
  abbrev pub no_detection : NamingDetection
  no_detection = record {
    enabled = false;
    column_suffixes = [];
    column_prefixes = [];
    table_prefixes = [];
    primary_key_names = [];
    declared_keys = 0;
    tables = 0;
    single_pk_tables = 0;
  }

  -- Empty
  unfoldable pub nothing_detected : NamingDetection → Bool
  nothing_detected d =
      length d.column_suffixes == 0
      && (length d.column_prefixes == 0
          && (length d.table_prefixes == 0 && length d.primary_key_names == 0))
