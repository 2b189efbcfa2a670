-- ===== src/Validate/Sample.antt =====
-- internal/validate/query.go, sampleFor: how the child table will be read.
pub mod Whole
use pgfathom.Base.{ℕ, ◌||◌, Option, none, some, text_eq, Float, ℤ, ltb, leb, if◌then◌else◌, pos}
use pgfathom.Model.Candidate.{ValidationMethod}
use pgfathom.Validate.Options.{Options, target_rows, bernoulli_ceiling}

pub data SampleMethod : Type 0 where
  whole bernoulli system : SampleMethod

module _ ⦃F : Float⦄ where
  pub record SampleSpec : Type 0 where
    pub kind : SampleMethod
    pub percent : F.F64
    pub seed : ℤ

  unfoldable pub method : SampleSpec → ValidationMethod
  method s = elim s.kind [ whole ↦ ValidationMethod.full | _ ↦ ValidationMethod.sampled ]

  -- sampleSpec{kind: sampleNone}
  abbrev pub read_whole : SampleSpec
  read_whole = record { kind = SampleMethod.whole; percent = F.of_int (pos 0); seed = pos 0 }

  abbrev at_least_least : F.F64 → F.F64
  at_least_least pct = if F.lt pct (F.lit (pos 1) 2) then F.lit (pos 1) 2 else pct

  -- A row count that is not known is `none`.
  unfoldable pub sample_for : Option ℕ → Options → SampleSpec
  sample_for none opts = read_whole
  sample_for (some rows) opts =
      if opts.full || leb rows (target_rows opts) then read_whole else record {
        kind = if ltb rows bernoulli_ceiling then SampleMethod.bernoulli else SampleMethod.system;
        percent = at_least_least (
            F.div (F.mul (F.of_int (pos 100)) (F.of_int (pos (target_rows opts))))
              (F.of_int (pos rows)));
        seed = opts.seed;
      }
