-- ===== src/Validate/Verdict/Dismissal.antt =====
-- internal/validate/validate.go, verdict: two readings of the same rows.
use pgfathom.Base.{◌≤◌, ◌<◌, ◌≡◌, true, arith, text_eq, Float, sub_ℕ, pos}
use pgfathom.Model.Candidate.{Verdict, Validation, containment_rows}
use pgfathom.Validate.Options.{Options, broken_threshold, reject_threshold}
use pgfathom.Validate.Verdict.{judge, verdict}

module _ ⦃F : Float⦄ where
  -- `w` is a reading of the same rows as `v`, with no fewer orphans; `v` has some.
  pub record MoreOrphans (v w : Validation) : Type 0 where
    pub same_sample : v.sampled_rows ≡ w.sampled_rows
    pub same_rows : v.not_null_rows ≡ w.not_null_rows
    pub same_values : v.distinct_vals ≡ w.distinct_vals
    pub some_orphans : 0 < v.orphan_rows
    pub more_orphans : v.orphan_rows ≤ w.orphan_rows

  containment_rows_mono :
      {v w : Validation} → MoreOrphans v w → F.le (containment_rows w) (containment_rows v) ≡ true
  unfolding containment_rows
  containment_rows_mono {v} {w} m = ground (
    arith,
    F.le-of_int (pos 0) (pos 0),
    F.le-div (sub_ℕ w.not_null_rows w.orphan_rows) (sub_ℕ v.not_null_rows v.orphan_rows)
        w.not_null_rows,
  )

  -- the rank of the verdicts on a reading with orphans
  judge-rejected :
      (x y : F.F64) (opts : Options)
      → F.le y x ≡ true
      → (judge x opts).0 ≡ Verdict.rejected
      → (judge y opts).0 ≡ Verdict.rejected
  unfolding judge
  judge-rejected x y opts h e =
      ground
        (arith, F.lt_of_le_lt y x (reject_threshold opts) h, F.le_trans (broken_threshold opts) y x)

  judge-broken :
      (x y : F.F64) (opts : Options)
      → F.le y x ≡ true
      → (judge y opts).0 ≡ Verdict.broken
      → (judge x opts).0 ≡ Verdict.broken
  unfolding judge
  judge-broken x y opts h e = ground (arith, F.le_trans (broken_threshold opts) y x)

  -- Of two readings of the same rows, both with orphans: if the one with fewer is rejected, so is
  -- the one with more.
  pub verdict_rejected-MoreOrphans :
      (v w : Validation) (opts : Options)
      → MoreOrphans v w
      → (verdict v opts).0 ≡ Verdict.rejected
      → (verdict w opts).0 ≡ Verdict.rejected
  unfolding verdict
  verdict_rejected-MoreOrphans v w opts m h = ground (
    arith,
    judge-rejected (containment_rows v) (containment_rows w) opts (containment_rows_mono m),
  )

  -- Of two readings of the same rows, both with orphans: if the one with more is broken, a
  -- relationship whose data was lost, so is the one with fewer.
  pub verdict_broken-MoreOrphans :
      (v w : Validation) (opts : Options)
      → MoreOrphans v w
      → (verdict w opts).0 ≡ Verdict.broken
      → (verdict v opts).0 ≡ Verdict.broken
  unfolding verdict
  verdict_broken-MoreOrphans v w opts m h =
      ground (
        arith,
        judge-broken (containment_rows v) (containment_rows w) opts (containment_rows_mono m),
      )
