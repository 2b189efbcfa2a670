-- ===== src/Validate/Verdict.antt =====
-- internal/validate/validate.go, verdict: the fixed rules, in order.
pub mod Confirmation
pub mod Dismissal
use pgfathom.Base.{◌&&◌, [], ◌++◌, text_eq, Float, ltb, leb, ◌==◌, if◌then◌else◌, Str, codes, pos}
use pgfathom.Model.Candidate.{Verdict, Validation, conclusive, containment_rows}
use pgfathom.Validate.Options.{Options, broken_threshold, reject_threshold, max_null_fraction}

module _ ⦃F : Float⦄ where
  pub null_fraction : Validation → F.F64
  null_fraction v =
      if v.sampled_rows == 0
      then F.of_int (pos 0)
      else F.sub (F.of_int (pos 1))
          (F.div (F.of_int (pos v.not_null_rows)) (F.of_int (pos v.sampled_rows)))

  -- the cases on the containment, where there are orphans
  pub judge : F.F64 → Options → Verdict × Str
  judge cr opts =
      if F.le (broken_threshold opts) cr
      then (Verdict.broken, [])
      else if F.lt cr (reject_threshold opts)
      then (Verdict.rejected, codes "low containment: the name match is a coincidence")
      else (
        Verdict.weak,
        codes "containment "
            ++ (F.format (F.mul (F.of_int (pos 100)) cr) 0
                ++ codes "% sits between rejection and breakage: a human call"),
      )

  -- the data supports some conclusion
  pub weigh : Validation → Options → Verdict × Str
  weigh v opts =
      if v.orphan_rows == 0 && v.orphan_vals == 0
      then if conclusive v then (Verdict.confirmed, []) else (
        Verdict.weak,
        codes "probable: no orphans in the sample, but only --full can prove absence",
      )
      else judge (containment_rows v) opts

  unfoldable pub verdict : Validation → Options → Verdict × Str
  unfolding weigh judge null_fraction
  verdict v opts =
      if v.not_null_rows == 0
      then (
        Verdict.weak,
        codes "empty child table or all-NULL column: nothing to evidence a relationship",
      )
      else if leb v.distinct_vals 1
      then (Verdict.weak, codes "a single distinct value cannot evidence a relationship")
      else if ltb 0 v.sampled_rows && F.lt (max_null_fraction opts) (null_fraction v)
      then (
        Verdict.weak,
        codes "NULLs dominate the column: containment over the remainder is noise",
      )
      else weigh v opts
