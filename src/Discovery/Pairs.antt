-- ===== src/Discovery/Pairs.antt =====
-- internal/discovery/discovery.go, Run: the prefilter and the validation lose no candidate and bring
-- none in.
use mathlib.Core.List
use mathlib.Core.List.{Perm}
use mathlib.Core.List.Perm
use pgfathom.Base.{
  ℕ, suc, ◌<◌, ◌≡◌, refl, sym, ap, ◌∙◌, ◌⊎◌, inl, inr, true, not, some, List, [], ◌∷◌, ◌++◌, map,
  append_assoc, arith, text_eq, Float, length, get_elem?, map-append, length-map, Str,
}
use pgfathom.Model.Table.{Schema, row_estimates}
use pgfathom.Model.Candidate.{Candidate, Validation}
use pgfathom.Stats.Columns.{Stats}
use pgfathom.Stats.Evaluate
use pgfathom.Stats.Evaluate.{evaluate}
use pgfathom.Stats.Evaluate.Funnel.{evaluate-IsFunnel}
use pgfathom.Validate.Options as Validating
use pgfathom.Validate.Session
use pgfathom.Validate.Session.{Failure, Session, ok, err}
use pgfathom.Validate.Group.Order.{Covers, finishes, oks, wait-finish_all, wait_fails}
use pgfathom.Validate.Run.{Report, Outcome, validate_one, report, run}
use pgfathom.Model.Refs.{KeyRef}
use pgfathom.Stats.Evaluate.{evaluate_one}
use pgfathom.Stats.Evaluate.Funnel.{with_outcome, is_rejected, outcomes}
use pgfathom.Stats.Evaluate.Silence.{evaluate_one-KeepsFacts}
use pgfathom.Validate.Sample.{SampleSpec}
use pgfathom.Validate.Run.One.{IsSettled, read, unread, spec_of, validate_one-IsSettled}

all_or_err :
    {A : Type 0} (rs : List (Session.Result A))
    → ((outs : List A) × (rs ≡ oks outs))
      ⊎ ((i : ℕ) × (e : Failure) × (get_elem? rs i ≡ some (err e)) × (i < length rs))
all_or_err [] = inl ([], refl)
all_or_err (err e ∷ rs) = inr (0, e, refl, omega arith)
all_or_err (ok a ∷ rs) = elim (all_or_err rs) [
  | inl (outs, h) ↦ inl (a ∷ outs, ap (λ (x : List (Session.Result _)). ok a ∷ x) h)
  | inr (i, e, h, b) ↦ inr (suc i, e, h, omega (arith, b))
]

module _ ⦃F : Float⦄ where
  -- The two keys between which a candidate claims a relationship.
  abbrev pub ends : Candidate → KeyRef × KeyRef
  ends c = (c.child, c.parent)

  abbrev pub pairs : List Candidate → List (KeyRef × KeyRef)
  pairs cs = map ends cs

  length-report : (outs : List Outcome) → length (report outs).candidates ≡ length outs
  unfolding report
  length-report [] = refl
  length-report ((c, hit) ∷ outs) = ap suc (length-report outs)

  length-oks :
      {A : Type 0} (f : Candidate → Session.Result A) (cs : List Candidate) (outs : List A)
      → map f cs ≡ oks outs
      → length cs ≡ length outs
  length-oks f cs outs h = sym (length-map f cs) ∙ ap length h ∙ length-map ok outs

module _ ⦃F : Float⦄ (sanitize : List Str → Str) (db : Session Validation) (ss : List Schema)
    (opts : Validating.Options) where
  abbrev one : Candidate → Session.Result Outcome
  one c = validate_one sanitize db c (row_estimates ss) opts

  run-settled :
      (cs : List Candidate) (order : List ℕ) (outs : List Outcome)
      → Covers order (length cs)
      → map one cs ≡ oks outs
      → run sanitize db ss cs opts order ≡ ok (report outs)
  unfolding run
  run-settled cs order outs covers h =
      let e = length-oks one cs outs h in rw (h, e, wait-finish_all outs order (rw e at covers))

  run-failed :
      (cs : List Candidate) (order : List ℕ) (i : ℕ) (e : Failure)
      → get_elem? (map one cs) i ≡ some (err e)
      → finishes i order ≡ true
      → (f : Failure) × (run sanitize db ss cs opts order ≡ err f)
  unfolding run
  run-failed cs order i e h c =
      let (f, k) = wait_fails (map one cs) order (length cs) i e h c in (f, rw k)

  settled-ends :
      (c : Candidate) (spec : SampleSpec) (out : Outcome)
      → IsSettled c spec opts out
      → ends out.0 ≡ ends c
  settled-ends c spec out (read v m t e) = ap ends e
  settled-ends c spec out (unread reason e) = ap ends e

  settled-pairs :
      (cs : List Candidate) (outs : List Outcome)
      → map one cs ≡ oks outs
      → pairs (report outs).candidates ≡ pairs cs
  unfolding report
  settled-pairs [] [] h = refl
  settled-pairs [] (o ∷ outs) h = cc
  settled-pairs (c ∷ cs) [] h = cc
  settled-pairs (c ∷ cs) ((o, hit) ∷ outs) h =
      rw
        (
          settled-ends c (spec_of sanitize db c (row_estimates ss) opts) (o, hit)
              (validate_one-IsSettled sanitize db c (row_estimates ss) opts (o, hit) (cc)),
          settled-pairs cs outs (cc),
        )
        refl

  -- A run of the validation that returns has one result for each candidate, between the same keys.
  pub pairs-run :
      (cs : List Candidate) (order : List ℕ) (r : Report)
      → Covers order (length cs)
      → run sanitize db ss cs opts order ≡ ok r
      → pairs r.candidates ≡ pairs cs
  pairs-run cs order r covers h = elim (all_or_err (map one cs)) [
    | inl (outs, e) ↦
        let k = run-settled cs order outs covers e in
        let same : report outs ≡ r = cc in rw (← same) (settled-pairs cs outs e)
    | inr (i, e, at_i, b) ↦
        let n = length-map one cs in
        let (f, k) = run-failed cs order i e at_i (covers i (omega (arith, n, b))) in absurd (cc)
  ]

  pub length-run :
      (cs : List Candidate) (order : List ℕ) (r : Report)
      → Covers order (length cs)
      → run sanitize db ss cs opts order ≡ ok r
      → length r.candidates ≡ length cs
  length-run cs order r covers h =
      sym (length-map ends r.candidates)
      ∙ ap length (pairs-run cs order r covers h)
      ∙ length-map ends cs

middle : {A : Type 0} (x : A) (xs ys : List A) → Perm (x ∷ (xs ++ ys)) (xs ++ x ∷ ys)
middle x [] ys = Perm.refl (x ∷ ys)
middle x (y ∷ xs) ys = Perm.trans (Perm.swap y x (xs ++ ys)) (Perm.cons y (middle x xs ys))

module _ ⦃F : Float⦄ where
  with_outcome-Perm :
      (os : List (Candidate × Evaluate.Outcome))
      → Perm
          (map (λ o. o.0) os)
          (with_outcome (λ o. not (is_rejected o)) os ++ with_outcome is_rejected os)
  unfolding with_outcome
  with_outcome-Perm [] = Perm.nil
  with_outcome-Perm ((c, Evaluate.Outcome.kept) ∷ os) = Perm.cons c (with_outcome-Perm os)
  with_outcome-Perm ((c, Evaluate.Outcome.no_stats) ∷ os) = Perm.cons c (with_outcome-Perm os)
  with_outcome-Perm ((c, Evaluate.Outcome.rejected) ∷ os) =
      Perm.trans (Perm.cons c (with_outcome-Perm os)) (middle c _ _)

  pairs-outcomes :
      (ss : List Schema) (cs : List Candidate) (st : Stats) (opts : Evaluate.Options)
      → pairs (map (λ o. o.0) (outcomes ss cs st opts)) ≡ pairs cs
  pairs-outcomes ss [] st opts = refl
  pairs-outcomes ss (c ∷ cs) st opts =
      let k = evaluate_one-KeepsFacts c (row_estimates ss) st (Evaluate.reject_factor opts) in
      rw (k.same_child, k.same_parent, pairs-outcomes ss cs st opts) refl

  pub filtered-Perm :
      (ss : List Schema) (cs discarded : List Candidate) (st : Stats) (opts : Evaluate.Options)
      → let out = evaluate ss cs st opts in
        Perm (pairs (cs ++ discarded)) (pairs (out.kept ++ (discarded ++ out.rejected)))
  filtered-Perm ss cs discarded st opts =
      let os = outcomes ss cs st opts in
      let f = evaluate-IsFunnel ss cs st opts in
      let k = with_outcome (λ o. not (is_rejected o)) os in
      let r = with_outcome is_rejected os in
      let moved : Perm ((k ++ r) ++ discarded) (k ++ (discarded ++ r)) =
        rw (append_assoc k r discarded) (Perm.append_left k (List.perm_append_comm r discarded)) in
      let whole =
        Perm.map ends (Perm.trans (Perm.append_right discarded (with_outcome-Perm os)) moved) in
      rw
        (
          f.kept,
          f.rejected,
          map-append ends cs discarded,
          sym (pairs-outcomes ss cs st opts),
          sym (map-append ends (map (λ o. o.0) os) discarded),
        )
        whole
