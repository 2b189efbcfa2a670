-- ===== src/Infer/Run/Supported.antt =====
-- internal/infer/generate.go, Generate: where the candidates of a result come from.
use pgfathom.Base.{
  ℕ, zero, suc, ◌≡◌, refl, sym, inl, inr, Option, none, some, List, [], ◌∷◌, ◌++◌, text_eq, lookup,
  Float, All, All-append, All-weaken, sort_stable-All, Bool-cases, Unicode, Str,
}
use pgfathom.Model.Table.{Table, Schema}
use pgfathom.Model.Evidence.{JoinEvidence}
use pgfathom.Model.Candidate.{Signal, Candidate, has_signal}
use pgfathom.Profile.{Profile}
use pgfathom.Infer.Score.{score, rescore}
use pgfathom.Infer.Finalize.{finalize, cut_loop, passes, refused, sort_candidates, candidate_less}
use pgfathom.Infer.Signals.{Options, min_score}
use pgfathom.Infer.Generate.{all_tables, raise_candidates}
use pgfathom.Infer.Generate.Undeclared.{IsUndeclared, raise_candidates-IsUndeclared}
use pgfathom.Infer.Emission.{generate_composite}
use pgfathom.Infer.Emission.Whole.{IsWholeKey, generate_composite-IsWholeKey}
use pgfathom.Infer.Evidence.{
  Folding, strengthen, change_at, offer_at, offer, candidate_key, candidate_index, group_evidence,
  apply_evidence,
}
use pgfathom.Infer.Evidence.Joined.{IsJoined, apply_groups-invariant}
use pgfathom.Infer.Run.{gathered, generate_with, generate}

module _ ⦃F : Float⦄ ⦃u : Unicode⦄ where
  -- The candidate comes from a name, from a whole composite key or from a join.
  pub data IsSupported (ss : List Schema) (opts : Options) (c : Candidate) : Type 0 where
    by_name :
        (p : Profile)
        → opts.profile ≡ some p
        → IsUndeclared (all_tables ss) p opts (all_tables ss) c
        → IsSupported ss opts c
    by_key : IsWholeKey (all_tables ss) c → IsSupported ss opts c
    by_join : IsJoined ss c → IsSupported ss opts c

  -- The same candidate with other signals, the score that they have and another reason.
  abbrev revised : List Signal → Str → Candidate → Candidate
  revised signals reason c = record c {
    signals = signals;
    meta_score = score signals;
    reason = reason;
  }

  revised-IsUndeclared :
      (scope : List Table) (p : Profile) (opts : Options) (ts : List Table) (signals : List Signal)
      (reason : Str) (c : Candidate)
      → IsUndeclared scope p opts ts c
      → IsUndeclared scope p opts ts (revised signals reason c)
  revised-IsUndeclared scope p opts ts signals reason c h = record {
    table = h.table;
    col = h.col;
    in_scope = h.in_scope;
    of_table = h.of_table;
    undeclared = h.undeclared;
    hypothesis = record {
      from_column = h.hypothesis.from_column;
      target = h.hypothesis.target;
      meant = h.hypothesis.meant;
      keyed = h.hypothesis.keyed;
      to_key = h.hypothesis.to_key;
      fits = h.hypothesis.fits;
      scored = refl;
      undecided = h.hypothesis.undecided;
    };
  }

  revised-IsWholeKey :
      (ts : List Table) (signals : List Signal) (reason : Str) (c : Candidate)
      → IsWholeKey ts c
      → IsWholeKey ts (revised signals reason c)
  revised-IsWholeKey ts signals reason c h = record {
    child = h.child;
    target = h.target;
    child_columns = h.child_columns;
    key = h.key;
    child_in_scope = h.child_in_scope;
    target_in_scope = h.target_in_scope;
    composite = h.composite;
    in_child = h.in_child;
    in_target = h.in_target;
    from_child = h.from_child;
    to_whole_key = h.to_whole_key;
    all_eligible = h.all_eligible;
    all_fit = h.all_fit;
    no_tautology = h.no_tautology;
    scored = refl;
    not_judged = h.not_judged;
  }

  revised-IsJoined :
      (ss : List Schema) (signals : List Signal) (reason : Str) (c : Candidate)
      → IsJoined ss c
      → IsJoined ss (revised signals reason c)
  revised-IsJoined ss signals reason c h = record {
    child = h.child;
    target = h.target;
    child_columns = h.child_columns;
    key = h.key;
    child_in_scope = h.child_in_scope;
    target_in_scope = h.target_in_scope;
    names_child = h.names_child;
    names_target = h.names_target;
    in_child = h.in_child;
    in_target = h.in_target;
    whole_key = h.whole_key;
    all_eligible = h.all_eligible;
    all_fit = h.all_fit;
    scored = refl;
    undecided = h.undecided;
  }

  revised-IsSupported :
      (ss : List Schema) (opts : Options) (signals : List Signal) (reason : Str) (c : Candidate)
      → IsSupported ss opts c
      → IsSupported ss opts (revised signals reason c)
  revised-IsSupported ss opts signals reason c (by_name p e h) =
      by_name p e (revised-IsUndeclared (all_tables ss) p opts (all_tables ss) signals reason c h)
  revised-IsSupported ss opts signals reason c (by_key h) =
      by_key (revised-IsWholeKey (all_tables ss) signals reason c h)
  revised-IsSupported ss opts signals reason c (by_join h) =
      by_join (revised-IsJoined ss signals reason c h)

  supported-scored :
      (ss : List Schema) (opts : Options) (c : Candidate)
      → IsSupported ss opts c
      → c.meta_score ≡ score c.signals
  supported-scored ss opts c (by_name p e h) = h.hypothesis.scored
  supported-scored ss opts c (by_key h) = h.scored
  supported-scored ss opts c (by_join h) = h.scored

  refused-IsSupported :
      (ss : List Schema) (opts : Options) (m : F.F64) (c : Candidate)
      → IsSupported ss opts c
      → IsSupported ss opts (refused m c)
  refused-IsSupported ss opts m c h =
      let r = (refused m c).reason in
      rw (sym (supported-scored ss opts c h)) at (revised-IsSupported ss opts c.signals r c h)

  strengthen-IsSupported :
      (ss : List Schema) (opts : Options) (s : Signal) (c : Candidate)
      → IsSupported ss opts c
      → IsSupported ss opts (strengthen s c)
  unfolding strengthen rescore
  strengthen-IsSupported ss opts s c h = elim (Bool-cases (has_signal c s.kind)) [
    | inl e ↦ rw e h
    | inr e ↦ rw e (revised-IsSupported ss opts (c.signals ++ s ∷ []) c.reason c h)
  ]

  module _ (ss : List Schema) (opts : Options) where
    -- All the candidates are supported.
    abbrev pub AllSupported : List Candidate → Type 0
    AllSupported cs = All (IsSupported ss opts) cs

    change_at-AllSupported :
        (i : ℕ) (s : Signal) (cs : List Candidate)
        → AllSupported cs
        → AllSupported (change_at i (strengthen s) cs)
    unfolding change_at
    change_at-AllSupported i s [] h = tt
    change_at-AllSupported zero s (c ∷ cs) (p, h) = (strengthen-IsSupported ss opts s c p, h)
    change_at-AllSupported (suc i) s (c ∷ cs) (p, h) = (p, change_at-AllSupported i s cs h)

    offer_at-AllSupported :
        (r : Option ℕ) (key : Str) (s : Signal) (c : Candidate) (f : Folding)
        → IsJoined ss c
        → AllSupported f.candidates
        → AllSupported (offer_at r key s c f).candidates
    unfolding offer_at
    offer_at-AllSupported (some i) key s c f j h = change_at-AllSupported i s f.candidates h
    offer_at-AllSupported none key s c f j h =
        All-append (IsSupported ss opts) f.candidates (c ∷ []) h (by_join j, tt)

    apply_evidence-AllSupported :
        (cs : List Candidate) (evidence : List JoinEvidence)
        → AllSupported cs
        → AllSupported (apply_evidence cs ss evidence)
    unfolding apply_evidence offer
    apply_evidence-AllSupported cs evidence h =
        apply_groups-invariant ss (λ f. AllSupported f.candidates)
          (λ s c f j k.
            offer_at-AllSupported (lookup (candidate_key c) f.existing) (candidate_key c) s c f j k)
          (group_evidence evidence) (record { candidates = cs; existing = candidate_index cs }) h

    cut_loop-AllSupported :
        (m : F.F64) (cs survivors discarded : List Candidate)
        → AllSupported cs
        → AllSupported survivors
        → AllSupported discarded
        → AllSupported (cut_loop m cs survivors discarded).0
          × AllSupported (cut_loop m cs survivors discarded).1
    unfolding cut_loop
    cut_loop-AllSupported m [] survivors discarded h k d = (k, d)
    cut_loop-AllSupported m (c ∷ cs) survivors discarded (p, h) k d =
        elim (Bool-cases (passes m c)) [
          | inl e ↦ rw e (
              cut_loop-AllSupported m cs (survivors ++ c ∷ []) discarded h
                (All-append (IsSupported ss opts) survivors (c ∷ []) k (p, tt)) d)
          | inr e ↦ rw e (
              cut_loop-AllSupported m cs survivors (discarded ++ refused m c ∷ []) h k (
                All-append (IsSupported ss opts) discarded (refused m c ∷ []) d
                  (refused-IsSupported ss opts m c p, tt)))
        ]

    gathered-AllSupported :
        (p : Profile) → opts.profile ≡ some p → AllSupported (gathered ss p opts).candidates
    unfolding gathered
    gathered-AllSupported p e = apply_evidence-AllSupported _ opts.evidence (
        All-append (IsSupported ss opts) (raise_candidates ss p opts).candidates
          (generate_composite (all_tables ss) p).0
          (All-weaken _ (λ c h. by_name p e h) (raise_candidates-IsUndeclared ss p opts))
          (All-weaken _ (λ c h. by_key h) (generate_composite-IsWholeKey (all_tables ss) p)))

    generate_with-AllSupported :
        (o : Option Profile)
        → opts.profile ≡ o
        → AllSupported (generate_with ss opts o).candidates
          × AllSupported (generate_with ss opts o).discarded
    unfolding generate_with finalize sort_candidates gathered
    generate_with-AllSupported none e = (tt, tt)
    generate_with-AllSupported (some p) e =
        let (k, d) =
          cut_loop-AllSupported (min_score opts) (gathered ss p opts).candidates [] []
            (gathered-AllSupported p e) tt tt in
        (
          sort_stable-All candidate_less (IsSupported ss opts) _ k,
          sort_stable-All candidate_less (IsSupported ss opts) _ d,
        )

    -- Every candidate of a run, kept or discarded, comes from one of the three sources: a column that
    -- no declared foreign key covers and a table in scope whose name means what the column's does; a
    -- whole composite key; or a join. Its two ends have fitting types, its score is that of its
    -- signals and no verdict has been given.
    pub generate-AllSupported :
        AllSupported (generate ss opts).candidates × AllSupported (generate ss opts).discarded
    unfolding generate
    generate-AllSupported = generate_with-AllSupported opts.profile refl
