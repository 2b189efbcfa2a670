-- ===== src/Stats/Evaluate/Silence.antt =====
-- internal/stats/stats.go, evaluateOne: what a candidate comes back as.
use pgfathom.Base.{
  ℕ, ◌≡◌, refl, ◌≢◌, ◌⊎◌, inl, inr, true, Option, none, some, arith, text_eq, Dict, lookup, Float,
  ℤ, ltb_ℤ, Str, pos,
}
use pgfathom.Model.Refs.{KeyRef, column_ref_eq, table_ref}
use pgfathom.Model.Candidate.{Verdict, Candidate}
use pgfathom.Infer.Score.{rescore}
use pgfathom.Stats.Columns.{Stats}
use pgfathom.Stats.Evaluate.{
  Outcome, ref_of, lower_bound_distinct, evaluate_with, distinct_of, evaluate_one,
}

module _ ⦃F : Float⦄ where
  -- The two ends of the arithmetic, and that they are beyond the margin.
  pub record IsImpossible (c : Candidate) (rows : Dict Str ℕ) (st : Stats) (factor : F.F64)
      : Type 0 where
    pub child_rows : ℕ
    pub parent_rows : ℕ
    pub distinct : ℤ
    pub child_known : lookup (table_ref c.child.schema c.child.table) rows ≡ some child_rows
    pub parent_known : lookup (table_ref c.parent.schema c.parent.table) rows ≡ some parent_rows
    pub distinct_known : lower_bound_distinct c.child child_rows st ≡ some distinct
    pub too_many : ltb_ℤ (pos parent_rows) distinct ≡ true
    pub beyond_margin : F.lt (F.mul factor (F.of_int (pos parent_rows))) (F.of_int distinct) ≡ true

  evaluate_with-rejected :
      (st : Stats) (factor : F.F64) (c : Candidate) (d : Option ℤ) (p : Option ℕ)
      → (evaluate_with st factor c d p).1 ≡ Outcome.rejected
      → (distinct : ℤ) × (parent_rows : ℕ) × (d ≡ some distinct)
        × (p ≡ some parent_rows)
        × (ltb_ℤ (pos parent_rows) distinct ≡ true)
        × (F.lt (F.mul factor (F.of_int (pos parent_rows))) (F.of_int distinct) ≡ true)
  unfolding evaluate_with
  evaluate_with-rejected st factor c none none h = cc
  evaluate_with-rejected st factor c none (some p) h = cc
  evaluate_with-rejected st factor c (some d) none h = cc
  evaluate_with-rejected st factor c (some d) (some p) h =
      (d, p, refl, refl, ground arith, ground arith)

  distinct_of-known :
      (st : Stats) (child : KeyRef) (o : Option ℕ) (d : ℤ)
      → distinct_of st child o ≡ some d
      → (rows : ℕ) × (o ≡ some rows) × (lower_bound_distinct child rows st ≡ some d)
  unfolding distinct_of
  distinct_of-known st child none d h = cc
  distinct_of-known st child (some rows) d h = (rows, refl, h)

  -- A candidate is rejected only if the sizes of both tables and a distinct count for its columns
  -- are known, and the count exceeds the parent's rows and the margin too. Whatever is missing, the
  -- prefilter does not reject.
  pub evaluate_one-rejected :
      (c : Candidate) (rows : Dict Str ℕ) (st : Stats) (factor : F.F64)
      → (evaluate_one c rows st factor).1 ≡ Outcome.rejected
      → IsImpossible c rows st factor
  unfolding evaluate_one
  evaluate_one-rejected c rows st factor h =
      let (d, p, dk, pk, more, beyond) = evaluate_with-rejected st factor c _ _ h in
      let (n, nk, lk) = distinct_of-known st c.child _ d dk in
      record {
        child_rows = n;
        parent_rows = p;
        distinct = d;
        child_known = nk;
        parent_known = pk;
        distinct_known = lk;
        too_many = more;
        beyond_margin = beyond;
      }

  -- What the prefilter leaves of a candidate: the pair, the reading, and either the verdict and the
  -- reason or a rejection.
  pub record KeepsFacts (c : Candidate) (out : Candidate × Outcome) : Type 0 where
    pub same_child : out.0.child ≡ c.child
    pub same_parent : out.0.parent ≡ c.parent
    pub same_validation : out.0.validation ≡ c.validation
    pub fate :
        ((out.1 ≡ Outcome.rejected) × (out.0.verdict ≡ Verdict.rejected))
        ⊎ ((out.1 ≢ Outcome.rejected) × (out.0.verdict ≡ c.verdict) × (out.0.reason ≡ c.reason))
    pub score_silent : (out.1 ≢ Outcome.no_stats) ⊎ (out.0.meta_score ≡ c.meta_score)

  is_rejected_cases : (o : Outcome) → (o ≡ Outcome.rejected) ⊎ (o ≢ Outcome.rejected)
  is_rejected_cases Outcome.rejected = inl refl
  is_rejected_cases Outcome.kept = inr (λ e. cc)
  is_rejected_cases Outcome.no_stats = inr (λ e. cc)

  is_no_stats_cases : (o : Outcome) → (o ≡ Outcome.no_stats) ⊎ (o ≢ Outcome.no_stats)
  is_no_stats_cases Outcome.no_stats = inl refl
  is_no_stats_cases Outcome.kept = inr (λ e. cc)
  is_no_stats_cases Outcome.rejected = inr (λ e. cc)

  with-KeepsFacts :
      (c : Candidate) (st : Stats) (factor : F.F64) (d : Option ℤ) (p : Option ℕ)
      → KeepsFacts c (evaluate_with st factor c d p)
  unfolding evaluate_with rescore
  with-KeepsFacts c st factor d p = record {
    same_child = ground arith;
    same_parent = ground arith;
    same_validation = ground arith;
    fate = elim (is_rejected_cases (evaluate_with st factor c d p).1) [
      | inl e ↦ inl (e, ground arith)
      | inr e ↦ inr (e, ground arith, ground arith)
    ];
    score_silent = elim (is_no_stats_cases (evaluate_with st factor c d p).1) [
      | inl e ↦ inr (ground arith)
      | inr e ↦ inl e
    ];
  }

  -- Whatever the statistics say, a candidate keeps its two keys; it keeps its verdict and its reason
  -- unless it is rejected, which sets the verdict; and without statistics it keeps its score.
  pub evaluate_one-KeepsFacts :
      (c : Candidate) (rows : Dict Str ℕ) (st : Stats) (factor : F.F64)
      → KeepsFacts c (evaluate_one c rows st factor)
  unfolding evaluate_one
  evaluate_one-KeepsFacts c rows st factor =
      with-KeepsFacts c st factor (distinct_of st c.child (lookup (ref_of c.child) rows))
        (lookup (ref_of c.parent) rows)
