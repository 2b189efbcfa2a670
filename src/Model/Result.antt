-- ===== src/Model/Result.antt =====
-- internal/model/result.go: the result of a run. A time is its nanoseconds.
use pgfathom.Base.{List, [], text_eq, Float, ℤ, Str, codes, pos}
use pgfathom.Model.Table.{Schema}
use pgfathom.Model.Candidate.{Candidate}
use pgfathom.Model.Coverage.{Coverage}
use pgfathom.Model.Finding.{Finding}
use pgfathom.Model.Naming.{NamingDetection, no_detection}

abbrev pub schema_version : Str
schema_version = codes "2"

module _ ⦃F : Float⦄ where
  pub record Result : Type 0 where
    pub schema_version : Str
    pub tool : Str
    pub tool_version : Str
    pub generated_at : ℤ
    pub duration : ℤ
    pub server_version : Str
    pub profile : Str
    pub naming : NamingDetection
    pub schemas : List Schema
    pub candidates : List Candidate
    pub discarded : List Candidate
    pub findings : List Finding
    pub coverage : Coverage

  abbrev pub new_result : Str → Str → ℤ → Coverage → Result
  new_result version profile_name now coverage = record {
    schema_version = schema_version;
    tool = codes "pgfathom";
    tool_version = version;
    generated_at = now;
    duration = pos 0;
    server_version = [];
    profile = profile_name;
    naming = no_detection;
    schemas = [];
    candidates = [];
    discarded = [];
    findings = [];
    coverage = coverage;
  }
