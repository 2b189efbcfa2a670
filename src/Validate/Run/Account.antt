-- ===== src/Validate/Run/Account.antt =====
-- internal/validate/validate.go, Run: the account of a run.
use pgfathom.Base.{
  ℕ, suc, ◌+◌, ◌≡◌, refl, sym, ap, ◌∙◌, true, ◌||◌, none, List, [], ◌∷◌, map, arith, text_eq, Dict,
  Float, length, All, if◌then◌else◌, is_some, Str,
}
use pgfathom.Model.Candidate.{Validation, Candidate}
use pgfathom.Model.Table.{Schema, row_estimates}
use pgfathom.Validate.Options.{Options}
use pgfathom.Validate.Session.{Result, ok, Session}
use pgfathom.Validate.Group.Order.{Covers, oks, wait-finish_all}
use pgfathom.Validate.Run.{Outcome, report, run, validate_one}
use pgfathom.Validate.Run.One.{IsSettled, read, unread, spec_of, validate_one-IsSettled}
use pgfathom.Validate.Sample.{SampleSpec}

module _ ⦃F : Float⦄ where
  -- The candidates that could not be read for another reason than time.
  abbrev pub denied : List Outcome → ℕ
  denied [] = 0
  denied ((c, hit) ∷ outs) =
      let rest = denied outs in if is_some c.validation || hit then rest else rest + 1

  -- A candidate that hit the ceiling has no reading.
  abbrev pub OneFate : Outcome → Type 0
  OneFate (c, hit) = hit ≡ true → c.validation ≡ none

  report-account :
      (outs : List Outcome)
      → All OneFate outs
      → (report outs).validated + (report outs).timed_out + denied outs ≡ length outs
  unfolding report
  report-account [] h = refl
  report-account ((c, hit) ∷ outs) (h, rest) = ground (arith, report-account outs rest)

  report-candidates : (outs : List Outcome) → (report outs).candidates ≡ map (λ o. o.0) outs
  unfolding report
  report-candidates [] = refl
  report-candidates ((c, hit) ∷ outs) = rw (report-candidates outs)

  IsSettled-OneFate :
      (c : Candidate) (spec : SampleSpec) (opts : Options) (out : Outcome)
      → c.validation ≡ none
      → IsSettled c spec opts out
      → OneFate out
  IsSettled-OneFate c spec opts (o, hit) fresh (read v m t e) = λ h. cc
  IsSettled-OneFate c spec opts (o, hit) fresh (unread reason e) =
      λ h. ap (λ (x : Candidate). x.validation) e ∙ fresh

  length-oks :
      {A : Type 0} (f : Candidate → Result A) (cs : List Candidate) (outs : List A)
      → map f cs ≡ oks outs
      → length cs ≡ length outs
  length-oks f [] [] h = refl
  length-oks f [] (o ∷ outs) h = cc
  length-oks f (c ∷ cs) [] h = cc
  length-oks f (c ∷ cs) (o ∷ outs) h = ap suc (length-oks f cs outs (cc))

  abbrev pub IsFresh : Candidate → Type 0
  IsFresh c = c.validation ≡ none

module _ ⦃F : Float⦄ (sanitize : List Str → Str) (db : Session Validation) where
  All-OneFate :
      (rows : Dict Str ℕ) (opts : Options) (cs : List Candidate) (outs : List Outcome)
      → All IsFresh cs
      → map (λ c. validate_one sanitize db c rows opts) cs ≡ oks outs
      → All OneFate outs
  All-OneFate rows opts cs [] fresh h = tt
  All-OneFate rows opts [] (o ∷ outs) fresh h = cc
  All-OneFate rows opts (c ∷ cs) (o ∷ outs) (f, fresh) h = (
    IsSettled-OneFate c (spec_of sanitize db c rows opts) opts o f
        (validate_one-IsSettled sanitize db c rows opts o (cc)),
    All-OneFate rows opts cs outs fresh (cc),
  )

  -- If every candidate resolves, a run returns one result for each, in the order in which they were
  -- given and whatever the order in which they finished; and of fresh candidates so many are
  -- validated, timed out or denied as were given.
  pub run-report :
      (schemas : List Schema) (cs : List Candidate) (opts : Options) (order : List ℕ)
      (outs : List Outcome)
      → map (λ c. validate_one sanitize db c (row_estimates schemas) opts) cs ≡ oks outs
      → Covers order (length cs)
      → All IsFresh cs
      → (run sanitize db schemas cs opts order ≡ ok (report outs))
        × ((report outs).candidates ≡ map (λ o. o.0) outs)
        × ((report outs).validated + (report outs).timed_out + denied outs ≡ length cs)
  unfolding run
  run-report schemas cs opts order outs h covers fresh =
      let e = length-oks _ cs outs h in
      (
        rw (h, e, wait-finish_all outs order (rw e at covers)),
        report-candidates outs,
        report-account outs (All-OneFate (row_estimates schemas) opts cs outs fresh h) ∙ sym e,
      )
