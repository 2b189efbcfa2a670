-- ===== src/Discovery/Pipeline.antt =====
-- internal/discovery/discovery.go, Run: the stages one after the other. The detection of a naming
-- convention and the quoting of names are parameters. After a failure the events so far are returned
-- with the error.
use pgfathom.Base.{
  ◌+◌, true, some, List, [], ◌++◌, text_eq, Float, length, if◌then◌else◌, Unicode, Str, codes, pos,
}
use pgfathom.Model.Table.{Schema}
use pgfathom.Model.Candidate.{Candidate}
use pgfathom.Model.Coverage.{Coverage}
use pgfathom.Model.Evidence.{JoinEvidence}
use pgfathom.Model.Naming.{NamingDetection, no_detection}
use pgfathom.Model.Result.{new_result}
use pgfathom.Profile.{Profile}
use pgfathom.Infer.Finalize
use pgfathom.Infer.Signals
use pgfathom.Infer.Finalize.{SkipReason, Skip, PolymorphicPair}
use pgfathom.Infer.Run.{generate}
use pgfathom.Stats.Columns.{Stats}
use pgfathom.Stats.Evaluate
use pgfathom.Stats.Evaluate.{evaluate}
use pgfathom.Validate.Session
use pgfathom.Validate.Session.{Failure, Session, ok, err}
use pgfathom.Validate.Run.{Report, run}
use pgfathom.Discovery.{
  Stage, Trail, Event, Probed, Catalog, Options, World, Finished, begin, warn, mark, no_evidence,
  observations,
}

module _ ⦃F : Float⦄ where
  abbrev pub initial : World → Trail
  initial w = record { timeline = record { stages = []; last = w.started }; events = [] }

  -- the profile in use and what was detected
  unfoldable pub detect_stage :
      (Profile → List Schema → NamingDetection)
      → (Profile → NamingDetection → Profile)
      → World
      → Options
      → List Schema
      → Trail
      → (Profile × NamingDetection) × Trail
  detect_stage detect with_detected w opts ss t =
      if opts.no_detect
      then ((opts.profile, no_detection), t)
      else let d = detect opts.profile ss in
        ((with_detected opts.profile d, d), mark w Stage.detection (begin Stage.detection t))

  abbrev pub probed_or_none : Session.Result Probed → Trail → Probed × Trail
  probed_or_none (ok e) t = (e, t)
  probed_or_none (err e) t =
      (no_evidence, warn Stage.evidence (codes "usage evidence skipped: " ++ e.message) t)

  unfoldable pub evidence_stage : World → Options → Trail → Probed × Trail
  evidence_stage w opts t =
      if opts.no_probe
      then (no_evidence, t)
      else let r = probed_or_none w.probe (begin Stage.evidence t) in
        (r.0, mark w Stage.evidence r.1)

  -- infer.Options{Profile, MinScore, Evidence}
  abbrev pub inference : Profile → F.F64 → List JoinEvidence → Signals.Options
  inference p m joins = record {
    profile = some p;
    min_score = m;
    min_name_similarity = F.of_int (pos 0);
    small_table_rows = pos 0;
    evidence = joins;
  }

  -- the candidates so far, those set aside, and the coverage
  pub record Sifted : Type 0 where
    pub candidates : List Candidate
    pub discarded : List Candidate
    pub coverage : Coverage

  abbrev pub counted : Coverage → Finalize.Result → Probed → Sifted
  counted cov res e = record {
    candidates = res.candidates;
    discarded = res.discarded;
    coverage = record cov {
      candidates_found = length res.candidates + length res.discarded;
      pg_stat_statements = e.statements_available;
    };
  }

  abbrev pub take_filtered : Evaluate.Result → Sifted → Sifted
  take_filtered pre s = record {
    candidates = pre.kept;
    discarded = s.discarded ++ pre.rejected;
    coverage = record s.coverage {
      stats_prefilter = true;
      candidates_stats_checked = pre.checked;
      candidates_stats_rejected = length pre.rejected;
      candidates_without_stats = pre.no_stats;
    };
  }

  abbrev pub filtered_or_all : Session.Result Stats → List Schema → Sifted → Trail → Sifted × Trail
  filtered_or_all (ok st) ss s t =
      let opts : Evaluate.Options = record { reject_factor = F.of_int (pos 0) } in
      (take_filtered (evaluate ss s.candidates st opts) s, t)
  filtered_or_all (err e) ss s t =
      (s, warn Stage.prefilter (codes "statistical prefilter skipped: " ++ e.message) t)

  unfoldable pub prefilter_stage : World → Options → List Schema → Sifted → Trail → Sifted × Trail
  prefilter_stage w opts ss s t =
      if opts.no_stats
      then (s, t)
      else let r = filtered_or_all (w.fetch ss s.candidates) ss s (begin Stage.prefilter t) in
        (r.0, mark w Stage.prefilter r.1)

  -- what the stages before validation leave
  pub record Prepared : Type 0 where
    pub sifted : Sifted
    pub inferred : Finalize.Result
    pub detection : NamingDetection
    pub trail : Trail

module _ ⦃F : Float⦄ ⦃u : Unicode⦄ (detect : Profile → List Schema → NamingDetection)
    (with_detected : Profile → NamingDetection → Profile) where
  -- from the catalog to the prefilter
  unfoldable pub prepare : World → Options → Catalog → Trail → Prepared
  unfolding detect_stage evidence_stage prefilter_stage
  prepare w opts cat t =
      let d = detect_stage detect with_detected w opts cat.schemas t in
      let e = evidence_stage w opts d.1 in
      let res = generate cat.schemas (inference d.0.0 opts.min_score e.0.joins) in
      let generated = mark w Stage.generation (begin Stage.generation e.1) in
      let p = prefilter_stage w opts cat.schemas (counted cat.coverage res e.0) generated in
      record { sifted = p.0; inferred = res; detection = d.0.1; trail = p.1 }

module _ ⦃F : Float⦄ where
  -- what Run returns after validation
  unfoldable pub finished : World → Options → Catalog → Prepared → Trail → Report → Finished
  unfolding observations
  finished w opts cat p t v =
      let coverage = record p.sifted.coverage {
        candidates_validated = v.validated;
        candidates_timed_out = v.timed_out;
      } in
      record {
        result = record (new_result opts.tool_version opts.profile.name w.assembled coverage) {
          server_version = w.server_version;
          naming = p.detection;
          schemas = cat.schemas;
          candidates = v.candidates;
          findings = observations p.inferred;
          duration = w.since_start;
        };
        discarded = p.sifted.discarded;
        detection = p.detection;
        stages = (mark w Stage.validation t).timeline.stages;
      }

  abbrev pub finish_run :
      World
      → Options
      → Catalog
      → Prepared
      → Trail
      → Session.Result Report
      → List Event × Session.Result Finished
  finish_run w opts cat p t (err e) = (t.events, err e)
  finish_run w opts cat p t (ok v) = (t.events, ok (finished w opts cat p t v))

module _ ⦃F : Float⦄ ⦃u : Unicode⦄ (detect : Profile → List Schema → NamingDetection)
    (with_detected : Profile → NamingDetection → Profile) (sanitize : List Str → Str) where
  abbrev pub validate_kept : World → Options → Catalog → Prepared → Session.Result Report
  validate_kept w opts cat p =
      let cs = p.sifted.candidates in
      run sanitize w.session cat.schemas cs opts.validation (w.finished (length cs))

  unfoldable pub after_catalog :
      World → Options → Trail → Session.Result Catalog → List Event × Session.Result Finished
  unfolding finished
  after_catalog w opts t (err e) = (t.events, err e)
  after_catalog w opts t (ok cat) =
      let p = prepare detect with_detected w opts cat (mark w Stage.catalog t) in
      finish_run w opts cat p (begin Stage.validation p.trail) (validate_kept w opts cat p)

  -- the events, and the result or the error
  unfoldable pub discover : World → Options → List Event × Session.Result Finished
  unfolding after_catalog
  discover w opts = after_catalog w opts (begin Stage.catalog (initial w)) w.read_catalog
