-- ===== src/Discovery/Stages.antt =====
-- internal/discovery/discovery.go, Run: which stages are timed.
use pgfathom.Base.{
  ◌≡◌, refl, sym, ap, ◌∙◌, inl, inr, Bool, true, false, List, [], ◌∷◌, ◌++◌, map, append-nil,
  text_eq, Float, map-append, if◌then◌else◌, Bool-cases, Unicode,
}
use pgfathom.Model.Table.{Schema}
use pgfathom.Model.Naming.{NamingDetection}
use pgfathom.Profile.{Profile}
use pgfathom.Stats.Columns.{Stats}
use pgfathom.Validate.Session
use pgfathom.Validate.Session.{Failure, Session, ok, err}
use pgfathom.Validate.Run.{Report}
use pgfathom.Discovery.{Probed, mark_at, Stage, Trail, Catalog, Options, World, begin, mark}
use pgfathom.Discovery.Pipeline.{
  Sifted, probed_or_none, detect_stage, evidence_stage, filtered_or_all, prefilter_stage, prepare,
  finished,
}

module _ ⦃F : Float⦄ where
  pub stage_if : Bool → Stage → List Stage
  stage_if off s = if off then [] else s ∷ []

  -- The stages that are on, in the order in which they are carried out.
  pub stages_on : Options → List Stage
  unfolding stage_if
  stages_on o =
      Stage.catalog
      ∷ (stage_if o.no_detect Stage.detection
          ++ (stage_if o.no_probe Stage.evidence
              ++ (Stage.generation
                  ∷ (stage_if o.no_stats Stage.prefilter ++ (Stage.validation ∷ [])))))

  in_order :
      (a b c : Bool)
      → (((((Stage.catalog ∷ []) ++ stage_if a Stage.detection) ++ stage_if b Stage.evidence)
              ++ Stage.generation ∷ [])
            ++ stage_if c Stage.prefilter)
          ++ Stage.validation ∷ []
        ≡ Stage.catalog
          ∷ (stage_if a Stage.detection
              ++ (stage_if b Stage.evidence
                  ++ (Stage.generation ∷ (stage_if c Stage.prefilter ++ (Stage.validation ∷ [])))))
  unfolding stage_if
  in_order true true true = refl
  in_order true true false = refl
  in_order true false true = refl
  in_order true false false = refl
  in_order false true true = refl
  in_order false true false = refl
  in_order false false true = refl
  in_order false false false = refl

  pub names : Trail → List Stage
  names t = map (λ x. x.stage) t.timeline.stages

  pub names-mark : (w : World) (s : Stage) (t : Trail) → names (mark w s t) ≡ names t ++ s ∷ []
  unfolding names mark_at
  names-mark w s t = map-append (λ x. x.stage) t.timeline.stages _

  names-detect_stage :
      (detect : Profile → List Schema → NamingDetection)
      (with_detected : Profile → NamingDetection → Profile) (w : World) (opts : Options)
      (ss : List Schema) (t : Trail)
      → names (detect_stage detect with_detected w opts ss t).1
        ≡ names t ++ stage_if opts.no_detect Stage.detection
  unfolding detect_stage stage_if names
  names-detect_stage detect with_detected w opts ss t = elim (Bool-cases opts.no_detect) [
    | inl e ↦ rw e (sym (append-nil (names t)))
    | inr e ↦ rw e (names-mark w Stage.detection (begin Stage.detection t))
  ]

  names-probed : (r : Session.Result Probed) (t : Trail) → names (probed_or_none r t).1 ≡ names t
  unfolding names
  names-probed (ok e) t = refl
  names-probed (err e) t = refl

  names-evidence_stage :
      (w : World) (opts : Options) (t : Trail)
      → names (evidence_stage w opts t).1 ≡ names t ++ stage_if opts.no_probe Stage.evidence
  unfolding evidence_stage stage_if names
  names-evidence_stage w opts t = elim (Bool-cases opts.no_probe) [
    | inl e ↦ rw e (sym (append-nil (names t)))
    | inr e ↦ rw e (
        names-mark w Stage.evidence (probed_or_none w.probe (begin Stage.evidence t)).1
        ∙ ap (λ (x : List Stage). x ++ Stage.evidence ∷ [])
            (names-probed w.probe (begin Stage.evidence t)))
  ]

  names-filtered :
      (r : Session.Result Stats) (ss : List Schema) (s : Sifted) (t : Trail)
      → names (filtered_or_all r ss s t).1 ≡ names t
  unfolding names
  names-filtered (ok st) ss s t = refl
  names-filtered (err e) ss s t = refl

  names-prefilter_stage :
      (w : World) (opts : Options) (ss : List Schema) (s : Sifted) (t : Trail)
      → names (prefilter_stage w opts ss s t).1 ≡ names t ++ stage_if opts.no_stats Stage.prefilter
  unfolding prefilter_stage stage_if names
  names-prefilter_stage w opts ss s t = elim (Bool-cases opts.no_stats) [
    | inl e ↦ rw e (sym (append-nil (names t)))
    | inr e ↦
        let r = w.fetch ss s.candidates in
        rw e (
          names-mark w Stage.prefilter (filtered_or_all r ss s (begin Stage.prefilter t)).1
          ∙ ap (λ (x : List Stage). x ++ Stage.prefilter ∷ [])
              (names-filtered r ss s (begin Stage.prefilter t)))
  ]

module _ ⦃F : Float⦄ ⦃u : Unicode⦄ (detect : Profile → List Schema → NamingDetection)
    (with_detected : Profile → NamingDetection → Profile) (w : World) (opts : Options)
    (cat : Catalog) where
  pub names-prepare :
      (t : Trail)
      → names (prepare detect with_detected w opts cat t).trail
        ≡ (((names t ++ stage_if opts.no_detect Stage.detection)
              ++ stage_if opts.no_probe Stage.evidence)
            ++ Stage.generation ∷ [])
          ++ stage_if opts.no_stats Stage.prefilter
  unfolding prepare names
  names-prepare t =
      let d = detect_stage detect with_detected w opts cat.schemas t in
      let e = evidence_stage w opts d.1 in
      names-prefilter_stage w opts cat.schemas _ _
      ∙ rw (names-mark w Stage.generation (begin Stage.generation e.1)) (
          ap
            (λ (x : List Stage).
              (x ++ Stage.generation ∷ []) ++ stage_if opts.no_stats Stage.prefilter)
            (names-evidence_stage w opts d.1
              ∙ ap (λ (x : List Stage). x ++ stage_if opts.no_probe Stage.evidence)
                  (names-detect_stage detect with_detected w opts cat.schemas t)))

  -- The stages that a finished run has timed.
  pub names-finished :
      (t : Trail) (v : Report)
      → t.timeline.stages ≡ []
      → let p = prepare detect with_detected w opts cat (mark w Stage.catalog t) in
        map (λ x. x.stage) (finished w opts cat p (begin Stage.validation p.trail) v).stages
        ≡ stages_on opts
  unfolding finished names stages_on
  names-finished t v h =
      let p = prepare detect with_detected w opts cat (mark w Stage.catalog t) in
      names-mark w Stage.validation (begin Stage.validation p.trail)
      ∙ ap (λ (x : List Stage). x ++ Stage.validation ∷ []) (names-prepare (mark w Stage.catalog t))
      ∙ rw (names-mark w Stage.catalog t, h) (in_order opts.no_detect opts.no_probe opts.no_stats)
