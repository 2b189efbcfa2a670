-- ===== src/Validate/Run/One.antt =====
-- internal/validate/validate.go, validateOne: what happens to one candidate.
use pgfathom.Base.{
  ℕ, ◌≡◌, refl, sym, ap, ◌∙◌, inl, inr, false, some, List, arith, text_eq, Dict, lookup, Float,
  Option-cases, Str,
}
use pgfathom.Model.Refs.{table_ref}
use pgfathom.Model.Candidate.{ValidationMethod, Verdict, Validation, Candidate}
use pgfathom.Validate.Options.{Options}
use pgfathom.Validate.Sample.{SampleSpec, method, sample_for}
use pgfathom.Validate.Sample.Whole.{IsLarge, method-sample_for}
use pgfathom.Validate.Session.{Result, ok, err, Session, resolve_error}
use pgfathom.Validate.Verdict.{verdict}
use pgfathom.Validate.Verdict.Confirmation.{IsEvidence, IsClean, verdict-confirmed}
use pgfathom.Validate.Run.{Outcome, settle, validate_one}

module _ ⦃F : Float⦄ where
  -- What a candidate comes back with: a reading and the verdict on it, or neither and a reason.
  pub data IsSettled (c : Candidate) (spec : SampleSpec) (opts : Options) (out : Outcome)
      : Type 0 where
    read :
        (v : Validation)
        → v.method ≡ method spec
        → out.1 ≡ false
        → out.0 ≡ record c {
          validation = some v;
          verdict = (verdict v opts).0;
          reason = (verdict v opts).1;
        }
        → IsSettled c spec opts out
    unread :
        (reason : Str)
        → out.0 ≡ record c { verdict = Verdict.unvalidated; reason = reason }
        → IsSettled c spec opts out

  settle-IsSettled :
      (c : Candidate) (spec : SampleSpec) (opts : Options) (reply : Result Validation)
      (out : Outcome)
      → settle c spec opts reply ≡ ok out
      → IsSettled c spec opts out
  settle-IsSettled c spec opts (ok v) out h =
      read (record v { method = method spec }) refl (unfold settle in ground arith)
        (unfold settle in ground arith)
  settle-IsSettled c spec opts (err e) out h = elim (Option-cases (resolve_error e)) [
    | inl n ↦ absurd (unfold settle in cc n)
    | inr (r, s) ↦ unread r.0 (unfold settle in ground arith)
  ]

module _ ⦃F : Float⦄ (sanitize : List Str → Str) (db : Session Validation) where
  -- How the child's table is read.
  abbrev pub spec_of : Candidate → Dict Str ℕ → Options → SampleSpec
  spec_of c rows opts = sample_for (lookup (table_ref c.child.schema c.child.table) rows) opts

  pub validate_one-IsSettled :
      (c : Candidate) (rows : Dict Str ℕ) (opts : Options) (out : Outcome)
      → validate_one sanitize db c rows opts ≡ ok out
      → IsSettled c (spec_of c rows opts) opts out
  unfolding validate_one
  validate_one-IsSettled c rows opts out h = settle-IsSettled c (spec_of c rows opts) opts _ out h

  -- The counts that support a confirmation, and why every row was examined.
  pub record IsProven (c : Candidate) (rows : Dict Str ℕ) (opts : Options) (v : Validation)
      : Type 0 where
    pub examined : v.method ≡ ValidationMethod.full
    pub not_sampled : ¬ (
        (opts.full ≡ false) × IsLarge (lookup (table_ref c.child.schema c.child.table) rows) opts)
    pub evidence : IsEvidence v opts
    pub clean : IsClean v

  confirmed-IsProven :
      (c : Candidate) (rows : Dict Str ℕ) (opts : Options) (out : Outcome)
      → IsSettled c (spec_of c rows opts) opts out
      → out.0.verdict ≡ Verdict.confirmed
      → (v : Validation) × (out.0.validation ≡ some v) × IsProven c rows opts v
  confirmed-IsProven c rows opts out (unread reason e) h = cc
  confirmed-IsProven c rows opts out (read v m t e) h =
      let (is_full, evidence, clean) =
        (verdict-confirmed v opts).0 (sym (ap (λ (o : Candidate). o.verdict) e) ∙ h) in
      (
        v,
        ap (λ (o : Candidate). o.validation) e,
        record {
          examined = is_full;
          not_sampled = λ large. cc ((method-sample_for _ opts).1 large);
          evidence = evidence;
          clean = clean;
        },
      )

  -- A candidate comes back confirmed only with a reading of every row of its table, in a full run or
  -- because the table is not known to exceed the target, whose counts can support a conclusion and
  -- hold no orphan.
  pub validate_one-confirmed :
      (c : Candidate) (rows : Dict Str ℕ) (opts : Options) (out : Outcome)
      → validate_one sanitize db c rows opts ≡ ok out
      → out.0.verdict ≡ Verdict.confirmed
      → (v : Validation) × (out.0.validation ≡ some v) × IsProven c rows opts v
  validate_one-confirmed c rows opts out h =
      confirmed-IsProven c rows opts out (validate_one-IsSettled c rows opts out h)
