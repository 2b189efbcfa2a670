-- ===== src/Validate/Verdict/Confirmation.antt =====
-- internal/validate/validate.go, verdict: the confirmed ones.
use pgfathom.Base.{◌<◌, ◌≡◌, ◌↔◌, ◌⊎◌, false, arith, text_eq, Float}
use pgfathom.Model.Candidate.{ValidationMethod, Verdict, Validation, conclusive}
use pgfathom.Validate.Options.{Options, max_null_fraction}
use pgfathom.Validate.Verdict.{null_fraction, verdict}

module _ ⦃F : Float⦄ where
  -- The data can support a conclusion: rows with a key, more than one value among them, and NULLs
  -- that do not dominate the rows that were read.
  pub record IsEvidence (v : Validation) (opts : Options) : Type 0 where
    pub some_rows : 0 < v.not_null_rows
    pub some_variety : 1 < v.distinct_vals
    pub few_nulls : (v.sampled_rows ≡ 0) ⊎ (F.lt (max_null_fraction opts) (null_fraction v) ≡ false)

  -- No orphan in either unit.
  abbrev pub IsClean : Validation → Type 0
  IsClean v = (v.orphan_rows ≡ 0) × (v.orphan_vals ≡ 0)

  -- A relationship is confirmed exactly when every row was examined, the data can support a
  -- conclusion, and no orphan was found, in rows or in values.
  pub verdict-confirmed :
      (v : Validation) (opts : Options)
      → ((verdict v opts).0 ≡ Verdict.confirmed)
        ↔ ((v.method ≡ ValidationMethod.full) × IsEvidence v opts × IsClean v)
  unfolding verdict conclusive
  verdict-confirmed v opts = (
    λ h. (
      ground arith,
      record { some_rows = ground arith; some_variety = ground arith; few_nulls = ground arith },
      (ground arith, ground arith),
    ),
    λ (m, e, c). ground arith,
  )
