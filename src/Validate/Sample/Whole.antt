-- ===== src/Validate/Sample/Whole.antt =====
-- internal/validate/query.go, sampleFor: whether the whole table is read.
use pgfathom.Base.{ℕ, ◌<◌, ◌≡◌, ◌↔◌, false, Option, none, some, arith, text_eq, Float}
use pgfathom.Model.Candidate.{ValidationMethod}
use pgfathom.Validate.Options.{Options, target_rows}
use pgfathom.Validate.Sample.{method, sample_for}

module _ ⦃F : Float⦄ where
  -- The planner knows the table's size, and it is above the target.
  abbrev pub IsLarge : Option ℕ → Options → Type 0
  IsLarge none opts = ⊥
  IsLarge (some rows) opts = target_rows opts < rows

  -- A table is sampled exactly when the run is not a full one and the table is known to be larger
  -- than the target; in every other case the reading is the conclusive one.
  pub method-sample_for :
      (rows : Option ℕ) (opts : Options)
      → (method (sample_for rows opts) ≡ ValidationMethod.sampled)
        ↔ ((opts.full ≡ false) × IsLarge rows opts)
  unfolding method sample_for
  method-sample_for none opts = (λ e. cc, λ h. absurd h.1)
  method-sample_for (some rows) opts = (λ e. (ground arith, ground arith), λ h. ground arith)
