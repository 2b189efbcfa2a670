-- ===== src/Discovery.antt =====
-- internal/discovery/discovery.go: the pipeline of discover, Run. What the connection answers, the
-- clock, and the detection of a naming convention (Profile.Detect, Profile.WithDetected) are
-- parameters. Of what is reported as a run goes on, the beginning of a stage and a warning are
-- events, in order; the count that validation draws is left out.
pub mod Pipeline
pub mod Stages
pub mod Pairs
pub mod Account
use pgfathom.Base.{
  ℕ, Bool, false, none, List, [], ◌∷◌, ◌++◌, map, text_eq, Float, ℤ, ◌-ℤ◌, if◌then◌else◌, Str,
  codes, str_eq,
}
use pgfathom.Model.Refs.{key_string}
use pgfathom.Model.Table.{Schema}
use pgfathom.Model.Candidate.{Candidate, Validation}
use pgfathom.Model.Coverage.{Coverage}
use pgfathom.Model.Evidence.{JoinEvidence, PredicateEvidence}
use pgfathom.Model.Finding.{FindingKind, Finding}
use pgfathom.Model.Naming.{NamingDetection}
use pgfathom.Model.Result
use pgfathom.Profile.{Profile}
use pgfathom.Infer.Finalize
use pgfathom.Infer.Finalize.{SkipReason, Skip, PolymorphicPair}
use pgfathom.Stats.Columns.{Stats}
use pgfathom.Validate.Options as Validating
use pgfathom.Validate.Session
use pgfathom.Validate.Session.{Failure, Session, ok, err}

pub data Stage : Type 0 where
  catalog detection evidence generation prefilter validation : Stage

pub record StageTiming : Type 0 where
  pub stage : Stage
  pub duration : ℤ

pub record Timeline : Type 0 where
  pub stages : List StageTiming
  pub last : ℤ

-- mark, with the time that the clock shows
unfoldable pub mark_at : Stage → ℤ → Timeline → Timeline
mark_at s now t = record {
  stages = t.stages ++ record { stage = s; duration = now -ℤ t.last } ∷ [];
  last = now;
}

pub data Event : Type 0 where
  began : Stage → Event
  warned : Stage → Str → Event

-- what a run has left behind so far
pub record Trail : Type 0 where
  pub timeline : Timeline
  pub events : List Event

abbrev pub begin : Stage → Trail → Trail
begin s t = record t { events = t.events ++ Event.began s ∷ [] }

abbrev pub warn : Stage → Str → Trail → Trail
warn s msg t = record t { events = t.events ++ Event.warned s msg ∷ [] }

pub record Probed : Type 0 where
  pub joins : List JoinEvidence
  pub predicates : List PredicateEvidence
  pub statements_available : Bool

-- Evidence{}
abbrev pub no_evidence : Probed
no_evidence = record { joins = []; predicates = []; statements_available = false }

pub record Catalog : Type 0 where
  pub schemas : List Schema
  pub coverage : Coverage

-- The string that a constant of SkipReason stands for.
abbrev pub reason_text : SkipReason → Str
reason_text SkipReason.no_key = codes "target has no primary key"
reason_text SkipReason.arity_mismatch = codes "name matches a target whose key is composite"
reason_text SkipReason.partial_key =
    codes "only part of the target's composite key has a counterpart"
reason_text SkipReason.ambiguous_position =
    codes "the target's key resolves against this child in more than one way"
reason_text SkipReason.ambiguous_signature = codes "more than one table carries this composite key"

abbrev pub observed_pair : PolymorphicPair → Finding
observed_pair p = record {
  kind = FindingKind.polymorphic_pair;
  object = p.table ++ (codes "." ++ p.reference_column);
  detail =
      codes "only meaningful beside "
      ++ (p.type_column ++ codes "; polymorphic references are out of scope");
  metrics = [];
  suggestion = none;
}

abbrev pub observed_skip : Skip → Finding
observed_skip s = record {
  kind = FindingKind.unsupported_target;
  object = key_string s.child;
  detail =
      reason_text s.reason
      ++ (codes " ("
          ++ (s.target
              ++ (codes ")" ++ (if str_eq s.detail [] then [] else codes ": " ++ s.detail))));
  metrics = [];
  suggestion = none;
}

module _ ⦃F : Float⦄ where
  unfoldable pub observations : Finalize.Result → List Finding
  observations res = map observed_pair res.polymorphic ++ map observed_skip res.skipped

  pub record Options : Type 0 where
    pub profile : Profile
    pub min_score : F.F64
    pub tool_version : Str
    pub no_detect : Bool
    pub no_stats : Bool
    pub no_probe : Bool
    pub validation : Validating.Options

  -- what a run asks of the connection and of the clock, and the order in which the goroutines of the
  -- validation of so many candidates finish
  pub record World : Type 0 where
    pub read_catalog : Session.Result Catalog
    pub probe : Session.Result Probed
    pub fetch : List Schema → List Candidate → Session.Result Stats
    pub session : Session Validation
    pub finished : ℕ → List ℕ
    pub server_version : Str
    pub started : ℤ
    pub now : Stage → ℤ
    pub assembled : ℤ
    pub since_start : ℤ

  pub record Finished : Type 0 where
    pub result : Result.Result
    pub discarded : List Candidate
    pub detection : NamingDetection
    pub stages : List StageTiming

  abbrev pub mark : World → Stage → Trail → Trail
  mark w s t = record t { timeline = mark_at s (w.now s) t.timeline }
