-- ===== src/Discovery/Account.antt =====
-- internal/discovery/discovery.go, Run: what a run that is finished accounts for.
use mathlib.Core.List.{Perm}
use mathlib.Core.List.Perm
use pgfathom.Infer.Finalize
use pgfathom.Stats.Evaluate.Funnel.{outcomes}
use pgfathom.Discovery.Pairs.{ends, pairs, pairs-run, length-run, filtered-Perm}
use pgfathom.Base.{
  ℕ, ◌+◌, ◌≡◌, refl, sym, ap, ◌∙◌, ◌⊎◌, inl, inr, List, ◌++◌, map, arith, text_eq, Float, length,
  length-append, map-append, length-map, Bool-cases, Unicode, Str, pos,
}
use pgfathom.Model.Table.{Schema}
use pgfathom.Model.Candidate.{Candidate}
use pgfathom.Model.Naming.{NamingDetection}
use pgfathom.Profile.{Profile}
use pgfathom.Stats.Columns.{Stats}
use pgfathom.Stats.Evaluate
use pgfathom.Stats.Evaluate.{evaluate}
use pgfathom.Stats.Evaluate.Funnel.{evaluate-IsFunnel}
use pgfathom.Validate.Session
use pgfathom.Validate.Session.{Failure, Session, ok, err}
use pgfathom.Validate.Group.Order.{Covers}
use pgfathom.Validate.Run.{Report}
use pgfathom.Discovery.{Stage, Trail, Catalog, Options, World, Finished, begin, mark}
use pgfathom.Discovery.Stages.{names-finished, stages_on}
use pgfathom.Infer.Run.{generate}
use pgfathom.Model.Evidence.{JoinEvidence}
use pgfathom.Discovery.Pipeline.{
  inference, detect_stage, evidence_stage, Sifted, Prepared, filtered_or_all, prefilter_stage,
  prepare, validate_kept, finished, discover, initial, after_catalog, finish_run,
}

result_cases :
    {A : Type 0} (r : Session.Result A) → ((f : Failure) × (r ≡ err f)) ⊎ ((a : A) × (r ≡ ok a))
result_cases (err f) = inl (f, refl)
result_cases (ok a) = inr (a, refl)

module _ ⦃F : Float⦄ where
  evaluate-length :
      (ss : List Schema) (cs : List Candidate) (st : Stats) (opts : Evaluate.Options)
      → length (outcomes ss cs st opts) ≡ length cs
  evaluate-length ss cs st opts = length-map _ cs

  filtered_or_all-length :
      (r : Session.Result Stats) (ss : List Schema) (s : Sifted) (t : Trail)
      → ((filtered_or_all r ss s t).0.coverage.candidates_found ≡ s.coverage.candidates_found)
        × (length (filtered_or_all r ss s t).0.candidates
              + length (filtered_or_all r ss s t).0.discarded
            ≡ length s.candidates + length s.discarded)
  filtered_or_all-length (err e) ss s t = (refl, refl)
  filtered_or_all-length (ok st) ss s t =
      let opts : Evaluate.Options = record { reject_factor = F.of_int (pos 0) } in
      let f = evaluate-IsFunnel ss s.candidates st opts in
      (
        refl,
        omega (
          arith,
          f.checked,
          f.every_one,
          evaluate-length ss s.candidates st opts,
          length-append s.discarded (evaluate ss s.candidates st opts).rejected,
        ),
      )

  -- The prefilter sets candidates aside and loses none.
  prefilter_stage-length :
      (w : World) (opts : Options) (ss : List Schema) (s : Sifted) (t : Trail)
      → ((prefilter_stage w opts ss s t).0.coverage.candidates_found ≡ s.coverage.candidates_found)
        × (length (prefilter_stage w opts ss s t).0.candidates
              + length (prefilter_stage w opts ss s t).0.discarded
            ≡ length s.candidates + length s.discarded)
  unfolding prefilter_stage
  prefilter_stage-length w opts ss s t = elim (Bool-cases opts.no_stats) [
    | inl e ↦ rw e (refl, refl)
    | inr e ↦ rw e (filtered_or_all-length (w.fetch ss s.candidates) ss s (begin Stage.prefilter t))
  ]

  filtered_or_all-Perm :
      (r : Session.Result Stats) (ss : List Schema) (s : Sifted) (t : Trail)
      → let out = (filtered_or_all r ss s t).0 in
        Perm (pairs (s.candidates ++ s.discarded)) (pairs (out.candidates ++ out.discarded))
  filtered_or_all-Perm (err e) ss s t = Perm.refl _
  filtered_or_all-Perm (ok st) ss s t =
      let opts : Evaluate.Options = record { reject_factor = F.of_int (pos 0) } in
      filtered-Perm ss s.candidates s.discarded st opts

  prefilter_stage-Perm :
      (w : World) (opts : Options) (ss : List Schema) (s : Sifted) (t : Trail)
      → let out = (prefilter_stage w opts ss s t).0 in
        Perm (pairs (s.candidates ++ s.discarded)) (pairs (out.candidates ++ out.discarded))
  unfolding prefilter_stage
  prefilter_stage-Perm w opts ss s t = elim (Bool-cases opts.no_stats) [
    | inl e ↦ rw e (Perm.refl _)
    | inr e ↦ rw e (filtered_or_all-Perm (w.fetch ss s.candidates) ss s (begin Stage.prefilter t))
  ]

  -- The candidates are those that Generate raises on the schemas, with a profile and the joins of the
  -- evidence. Every candidate that inference raised, kept or discarded, is in the result or set aside, each
  -- pair of keys as often as it was raised, and no other is there. As many are counted as found. The
  -- stages that were timed are those that are on, in their order.
  pub record IsAccounted ⦃u : Unicode⦄ (ss : List Schema) (raised : Finalize.Result)
      (opts : Options) (fin : Finished) : Type 0 where
    pub raised_by :
        (p : Profile) × (joins : List JoinEvidence) × (raised
          ≡ generate ss (inference p opts.min_score joins))
    pub every_one :
        Perm
          (pairs (raised.candidates ++ raised.discarded))
          (pairs (fin.result.candidates ++ fin.discarded))
    pub counted :
        fin.result.coverage.candidates_found ≡ length fin.result.candidates + length fin.discarded
    pub timed : map (λ t. t.stage) fin.stages ≡ stages_on opts

module _ ⦃F : Float⦄ ⦃u : Unicode⦄ (detect : Profile → List Schema → NamingDetection)
    (with_detected : Profile → NamingDetection → Profile) (w : World) (opts : Options)
    (cat : Catalog) where
  length-prepare :
      (t : Trail)
      → let s = (prepare detect with_detected w opts cat t).sifted in
        s.coverage.candidates_found ≡ length s.candidates + length s.discarded
  unfolding prepare
  length-prepare t = let h = prefilter_stage-length w opts cat.schemas _ _ in h.0 ∙ sym h.1

  inferred_by :
      (t : Trail)
      → (p : Profile) × (joins : List JoinEvidence) × ((prepare detect with_detected w opts cat
            t).inferred
          ≡ generate cat.schemas (inference p opts.min_score joins))
  unfolding prepare
  inferred_by t =
      let d = detect_stage detect with_detected w opts cat.schemas t in
      (d.0.0, (evidence_stage w opts d.1).0.joins, refl)

  pairs-prepare :
      (t : Trail)
      → let p = prepare detect with_detected w opts cat t in
        Perm
          (pairs (p.inferred.candidates ++ p.inferred.discarded))
          (pairs (p.sifted.candidates ++ p.sifted.discarded))
  unfolding prepare
  pairs-prepare t = prefilter_stage-Perm w opts cat.schemas _ _

module _ ⦃F : Float⦄ ⦃u : Unicode⦄ (detect : Profile → List Schema → NamingDetection)
    (with_detected : Profile → NamingDetection → Profile) (sanitize : List Str → Str) where
  -- what is there before validation, in a run whose catalog can be read
  abbrev pub prepared : World → Options → Catalog → Prepared
  prepared w opts cat =
      prepare detect with_detected w opts cat
        (mark w Stage.catalog (begin Stage.catalog (initial w)))

  abbrev pub validation_of : World → Options → Catalog → Session.Result Report
  validation_of w opts cat =
      validate_kept detect with_detected sanitize w opts cat (prepared w opts cat)

  finished-IsAccounted :
      (w : World) (opts : Options) (cat : Catalog) (r : Report)
      → ((n : ℕ) → Covers (w.finished n) n)
      → validation_of w opts cat ≡ ok r
      → let p = prepared w opts cat in
        IsAccounted cat.schemas p.inferred opts
          (finished w opts cat p (begin Stage.validation p.trail) r)
  unfolding finished
  finished-IsAccounted w opts cat r covers h =
      let cs = (prepared w opts cat).sifted.candidates in
      record {
        raised_by = inferred_by detect with_detected w opts cat _;
        every_one =
            let same =
              pairs-run sanitize w.session cat.schemas opts.validation cs (w.finished (length cs)) r
                (covers (length cs)) h in
            let aside = (prepared w opts cat).sifted.discarded in
            rw (map-append ends r.candidates aside, same, sym (map-append ends cs aside))
              (pairs-prepare detect with_detected w opts cat _);
        counted =
            length-prepare detect with_detected w opts cat _
            ∙ ap (λ (n : ℕ). n + length (prepared w opts cat).sifted.discarded)
                (sym (
                  length-run sanitize w.session cat.schemas opts.validation cs
                    (w.finished (length cs)) r (covers (length cs)) h));
        timed =
            names-finished detect with_detected w opts cat (begin Stage.catalog (initial w)) r refl;
      }

  discover-finish_run :
      (w : World) (opts : Options) (cat : Catalog)
      → w.read_catalog ≡ ok cat
      → let p = prepared w opts cat in
        (discover detect with_detected sanitize w opts).1
        ≡ (finish_run w opts cat p (begin Stage.validation p.trail) (validation_of w opts cat)).1
  unfolding discover after_catalog
  discover-finish_run w opts cat c =
      ap
        (λ r.
          (after_catalog detect with_detected sanitize w opts (begin Stage.catalog (initial w))
            r).1)
        c

  -- Where the catalog can be read and every goroutine finishes, only the validation can end the run
  -- with an error, whatever becomes of the evidence and the statistics. Else the run returns a
  -- result: the candidates in it and those set aside are together between the same pairs of keys as
  -- those that inference raised, each as often, in some order; as many are counted as found; and the
  -- stages that were timed are those that are on, in order.
  pub discover-IsAccounted :
      (w : World) (opts : Options) (cat : Catalog)
      → w.read_catalog ≡ ok cat
      → ((n : ℕ) → Covers (w.finished n) n)
      → ((f : Failure) × (validation_of w opts cat ≡ err f)
          × ((discover detect with_detected sanitize w opts).1 ≡ err f))
        ⊎ ((fin : Finished) × ((discover detect with_detected sanitize w opts).1 ≡ ok fin)
            × IsAccounted cat.schemas (prepared w opts cat).inferred opts fin)
  discover-IsAccounted w opts cat c covers = elim (result_cases (validation_of w opts cat)) [
    | inl (f, e) ↦
        let p = prepared w opts cat in
        inl (
          f,
          e,
          discover-finish_run w opts cat c
              ∙ ap (λ v. (finish_run w opts cat p (begin Stage.validation p.trail) v).1) e,
        )
    | inr (r, e) ↦
        let p = prepared w opts cat in
        inr (
          finished w opts cat p (begin Stage.validation p.trail) r,
          discover-finish_run w opts cat c
              ∙ ap (λ v. (finish_run w opts cat p (begin Stage.validation p.trail) v).1) e,
          finished-IsAccounted w opts cat r covers e,
        )
  ]
