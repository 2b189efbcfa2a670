-- ===== src/Stats/Evaluate/Funnel.antt =====
-- internal/stats/stats.go, Evaluate: the account of the prefilter.
use pgfathom.Base.{
  ℕ, ◌+◌, ◌≤◌, ◌≡◌, refl, sym, ◌∙◌, inl, inr, Bool, true, false, not, List, [], ◌∷◌, ◌++◌, map,
  append-nil, append_assoc, arith, text_eq, Dict, Float, length, length-map, filter, if◌then◌else◌,
  Bool-cases, Str,
}
use pgfathom.Model.Table.{Schema, row_estimates}
use pgfathom.Model.Candidate.{Candidate}
use pgfathom.Stats.Columns.{Stats}
use pgfathom.Stats.Evaluate.{
  Options, Result, Outcome, add_outcome, evaluate_one, evaluate_loop, evaluate, reject_factor,
}

module _ ⦃F : Float⦄ where
  abbrev pub is_rejected : Outcome → Bool
  is_rejected Outcome.rejected = true
  is_rejected Outcome.kept = false
  is_rejected Outcome.no_stats = false

  abbrev pub is_silent : Outcome → Bool
  is_silent Outcome.no_stats = true
  is_silent Outcome.kept = false
  is_silent Outcome.rejected = false

  -- The candidates whose outcome passes the test, in order.
  unfoldable pub with_outcome : (Outcome → Bool) → List (Candidate × Outcome) → List Candidate
  with_outcome test os = map (λ o. o.0) (filter (λ o. test o.1) os)

  with_outcome-step :
      (test : Outcome → Bool) (c : Candidate) (o : Outcome) (os : List (Candidate × Outcome))
      → with_outcome test ((c, o) ∷ os)
        ≡ (if test o then c ∷ with_outcome test os else with_outcome test os)
  unfolding with_outcome
  with_outcome-step test c o os = elim (Bool-cases (test o)) [
    | inl e ↦ rw e refl
    | inr e ↦ rw e refl
  ]

  -- What a loop over these outcomes adds to a result.
  record Extends (os : List (Candidate × Outcome)) (r out : Result) : Type 0 where
    kept : out.kept ≡ r.kept ++ with_outcome (λ o. not (is_rejected o)) os
    rejected : out.rejected ≡ r.rejected ++ with_outcome is_rejected os
    silent : out.no_stats ≡ r.no_stats + length (with_outcome is_silent os)
    checked : out.checked ≡ r.checked

  add_outcome-Extends :
      (c : Candidate) (o : Outcome) (os : List (Candidate × Outcome)) (r out : Result)
      → Extends os (add_outcome (c, o) r) out
      → Extends ((c, o) ∷ os) r out
  unfolding add_outcome with_outcome
  add_outcome-Extends c Outcome.kept os r out e = record {
    kept = e.kept ∙ append_assoc r.kept (c ∷ []) _;
    rejected = e.rejected;
    silent = e.silent;
    checked = e.checked;
  }
  add_outcome-Extends c Outcome.rejected os r out e = record {
    kept = e.kept;
    rejected = e.rejected ∙ append_assoc r.rejected (c ∷ []) _;
    silent = e.silent;
    checked = e.checked;
  }
  add_outcome-Extends c Outcome.no_stats os r out e = record {
    kept = e.kept ∙ append_assoc r.kept (c ∷ []) _;
    rejected = e.rejected;
    silent = omega (arith, e.silent);
    checked = e.checked;
  }

  evaluate_loop-Extends :
      (rows : Dict Str ℕ) (st : Stats) (factor : F.F64) (cs : List Candidate) (r : Result)
      → Extends (map (λ c. evaluate_one c rows st factor) cs) r (evaluate_loop rows st factor cs r)
  unfolding evaluate_loop with_outcome
  evaluate_loop-Extends rows st factor [] r = record {
    kept = sym (append-nil r.kept);
    rejected = sym (append-nil r.rejected);
    silent = omega arith;
    checked = refl;
  }
  evaluate_loop-Extends rows st factor (c ∷ cs) r =
      add_outcome-Extends (evaluate_one c rows st factor).0 (evaluate_one c rows st factor).1 _ r _
        (evaluate_loop-Extends rows st factor cs (add_outcome (evaluate_one c rows st factor) r))

  -- The outcomes of the candidates, one by one.
  abbrev pub outcomes : List Schema → List Candidate → Stats → Options → List (Candidate × Outcome)
  outcomes schemas cs st opts =
      map (λ c. evaluate_one c (row_estimates schemas) st (reject_factor opts)) cs

  -- The account of the prefilter, for these outcomes.
  pub record IsFunnel (os : List (Candidate × Outcome)) (out : Result) : Type 0 where
    pub kept : out.kept ≡ with_outcome (λ o. not (is_rejected o)) os
    pub rejected : out.rejected ≡ with_outcome is_rejected os
    pub no_stats : out.no_stats ≡ length (with_outcome is_silent os)
    pub checked : out.checked ≡ length os
    pub every_one : length os ≡ length out.kept + length out.rejected
    pub silent_kept : out.no_stats ≤ length out.kept

  outcome_counts :
      (os : List (Candidate × Outcome))
      → (length os
          ≡ length (with_outcome (λ o. not (is_rejected o)) os)
            + length (with_outcome is_rejected os))
        × (length (with_outcome is_silent os) ≤ length (with_outcome (λ o. not (is_rejected o)) os))
  unfolding with_outcome
  outcome_counts [] = (omega arith, omega arith)
  outcome_counts ((c, Outcome.kept) ∷ os) =
      let (a, b) = outcome_counts os in (omega (arith, a), omega (arith, b))
  outcome_counts ((c, Outcome.rejected) ∷ os) =
      let (a, b) = outcome_counts os in (omega (arith, a), omega (arith, b))
  outcome_counts ((c, Outcome.no_stats) ∷ os) =
      let (a, b) = outcome_counts os in (omega (arith, a), omega (arith, b))

  -- The prefilter keeps exactly the candidates whose outcome is not a rejection and rejects the
  -- others, each as its outcome leaves it and in the order given; it counts those without
  -- statistics, which are among the kept: they are not a third share beside the two.
  pub evaluate-IsFunnel :
      (schemas : List Schema) (cs : List Candidate) (st : Stats) (opts : Options)
      → IsFunnel (outcomes schemas cs st opts) (evaluate schemas cs st opts)
  unfolding evaluate
  evaluate-IsFunnel schemas cs st opts =
      let os = outcomes schemas cs st opts in
      let start : Result = record { kept = []; rejected = []; checked = length cs; no_stats = 0 } in
      let e = evaluate_loop-Extends (row_estimates schemas) st (reject_factor opts) cs start in
      let (a, b) = outcome_counts os in
      record {
        kept = e.kept;
        rejected = e.rejected;
        no_stats = omega (arith, e.silent);
        checked = e.checked ∙ sym (length-map _ cs);
        every_one = rw (e.kept, e.rejected) a;
        silent_kept = rw e.kept (omega (arith, e.silent, b));
      }
