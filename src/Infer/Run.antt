-- ===== src/Infer/Run.antt =====
-- internal/infer/generate.go, Generate: the walk over the columns, the composite pass, the evidence and
-- the cut, one after the other.
pub mod Supported
use pgfathom.Base.{Option, none, some, List, [], ◌++◌, text_eq, Float, Unicode}
use pgfathom.Model.Table.{Schema}
use pgfathom.Profile.{Profile}
use pgfathom.Infer.Finalize.{Result, finalize}
use pgfathom.Infer.Signals.{Options, min_score}
use pgfathom.Infer.Generate.{all_tables, raise_candidates}
use pgfathom.Infer.Emission.{generate_composite}
use pgfathom.Infer.Evidence.{apply_evidence}

module _ ⦃F : Float⦄ ⦃u : Unicode⦄ where
  -- `res` before finalize, with a profile
  unfoldable pub gathered : List Schema → Profile → Options → Result
  gathered ss p opts =
      let walk = raise_candidates ss p opts in
      let whole = generate_composite (all_tables ss) p in
      record {
        candidates = apply_evidence (walk.candidates ++ whole.0) ss opts.evidence;
        discarded = [];
        skipped = walk.skipped ++ whole.1;
        polymorphic = walk.polymorphic;
      }

  -- opts.Profile, or the empty result if there is none
  unfoldable pub generate_with : List Schema → Options → Option Profile → Result
  unfolding gathered
  generate_with ss opts none = record {
    candidates = [];
    discarded = [];
    skipped = [];
    polymorphic = [];
  }
  generate_with ss opts (some p) = finalize (gathered ss p opts) (min_score opts)

  unfoldable pub generate : List Schema → Options → Result
  unfolding generate_with
  generate ss opts = generate_with ss opts opts.profile
