-- ===== src/Witnesses/Validate.antt =====
-- The theorems on validation at concrete inputs.
use pgfathom.Base.{
  ℕ, zero, suc, ◌+◌, ◌*◌, ◌≤◌, ◌<◌, ◌≡◌, refl, ◌↔◌, ◌⊎◌, true, false, some, List, [], ◌∷◌, ◌++◌,
  map, arith, text_eq, lookup, put, any, leb, ◌==◌, is_some, Str, codes, pos,
}
use pgfathom.Model.Refs.{arity}
use pgfathom.Model.Usage.{estimated_row_count}
use pgfathom.Model.Table.{row_estimates}
use pgfathom.Model.Candidate.{Verdict, ValidationMethod, Validation, conclusive}
use pgfathom.Validate.Options.{Options, max_null_fraction, statement_timeout_millis}
use pgfathom.Validate.Options.Ceiling.{statement_timeout_millis_bounds}
use pgfathom.Validate.Sample.{method, sample_for, read_whole}
use pgfathom.Validate.Query.{build_query}
use pgfathom.Validate.Query.Totality.{build_query_total}
use pgfathom.Validate.Verdict.{verdict}
use pgfathom.Validate.Verdict.Confirmation.{IsEvidence, IsClean, verdict-confirmed}
use pgfathom.Validate.Session.{run_query, ok, Session}
use pgfathom.Validate.Group.Order.{oks}
use pgfathom.Validate.Run.{Outcome, report, run, validate_one}
use pgfathom.Validate.Run.One.{IsProven, validate_one-confirmed}
use pgfathom.Validate.Run.Account.{run-report, denied}
use pgfathom.Model.Finding.{KeyProbeVerdict}
use pgfathom.Validate.KeyProbe.{KeyProbeResult, KeyCounts}
use pgfathom.Model.Candidate.{containment_rows}
use pgfathom.Validate.Options.{broken_threshold}
use pgfathom.Validate.Verdict.Dismissal.{MoreOrphans, verdict_broken-MoreOrphans}
use pgfathom.Witnesses.Fixed.{fixed, ascii}
use pgfathom.Witnesses.Data.{schemas, candidate, reading, options}

verdict_example :
    ((verdict reading options).0 ≡ Verdict.confirmed)
    ↔ ((reading.method ≡ ValidationMethod.full) × IsEvidence reading options × IsClean reading)
verdict_example = verdict-confirmed reading options

abbrev few_lost : Validation
few_lost = record reading { orphan_rows = 9; orphan_vals = 2 }

abbrev few_more_lost : Validation
few_more_lost = record reading { orphan_rows = 18; orphan_vals = 2 }

few_more : MoreOrphans few_lost few_more_lost
few_more = record {
  same_sample = refl;
  same_rows = refl;
  same_values = refl;
  some_orphans = omega arith;
  more_orphans = omega arith;
}

few_more_broken : (verdict few_more_lost options).0 ≡ Verdict.broken
unfolding verdict conclusive containment_rows max_null_fraction broken_threshold
few_more_broken = refl

broken_example : (verdict few_lost options).0 ≡ Verdict.broken
broken_example = verdict_broken-MoreOrphans few_lost few_more_lost options few_more few_more_broken

abbrev sampled_options : Options
sampled_options = record options { full = false; target_rows = pos 50 }

timeout_example :
    (ms : ℕ) × (statement_timeout_millis (pos 1900000) ≡ pos ms)
    × (1 ≤ ms)
    × (((1900000 < 1000000) × (ms ≡ 1))
        ⊎ ((ms * 1000000 ≤ 1900000) × (1900000 < (ms + 1) * 1000000)))
timeout_example = statement_timeout_millis_bounds 1900000

-- "a"."b" for the names a and b
abbrev quote_all : List Str → Str
quote_all [] = []
quote_all (s ∷ rest) = b'"' ∷ (s ++ (b'"' ∷ b'.' ∷ quote_all rest))

query_example :
    is_some (build_query quote_all candidate read_whole)
    ≡ leb (arity candidate.child) (arity candidate.parent)
query_example = build_query_total quote_all candidate read_whole

-- A database that gives the same answer to every query.
abbrev answering : {A : Type 0} → A → Session A
answering a = record { begin = ok tt; exec = λ s. ok tt; query_row = λ before q. ok a }

abbrev settled : Outcome
settled = (record candidate { validation = some reading; verdict = Verdict.confirmed }, false)

validated :
    validate_one quote_all (answering reading) candidate (row_estimates schemas) options
    ≡ ok settled
unfolding validate_one build_query run_query method verdict sample_for conclusive max_null_fraction
    lookup row_estimates estimated_row_count put
validated = refl

confirmed_example :
    (v : Validation) × (settled.0.validation ≡ some v)
    × IsProven quote_all (answering reading) candidate (row_estimates schemas) options v
confirmed_example =
    validate_one-confirmed quote_all (answering reading) candidate (row_estimates schemas) options
      settled validated refl

both_finish : (i : ℕ) → i < 2 → any (λ j. j == i) (1 ∷ 0 ∷ []) ≡ true
both_finish zero h = refl
both_finish (suc zero) h = refl
both_finish (suc (suc i)) h = absurd (omega arith)

both_validated :
    map
      (λ c. validate_one quote_all (answering reading) c (row_estimates schemas) options)
      (candidate ∷ candidate ∷ [])
    ≡ oks (settled ∷ settled ∷ [])
both_validated = rw validated refl

run_example :
    (run quote_all (answering reading) schemas (candidate ∷ candidate ∷ []) options (1 ∷ 0 ∷ [])
      ≡ ok (report (settled ∷ settled ∷ [])))
    × ((report (settled ∷ settled ∷ [])).candidates ≡ map (λ o. o.0) (settled ∷ settled ∷ []))
    × ((report (settled ∷ settled ∷ [])).validated
          + (report (settled ∷ settled ∷ [])).timed_out
          + denied (settled ∷ settled ∷ [])
        ≡ 2)
run_example =
    run-report quote_all (answering reading) schemas (candidate ∷ candidate ∷ []) options
      (1 ∷ 0 ∷ []) (settled ∷ settled ∷ []) both_validated both_finish (refl, (refl, tt))

abbrev counts : KeyCounts
counts = record { total = 100; distinct = 100; nulls = 0 }

abbrev key_result : KeyProbeResult
key_result = record {
  columns = codes "email" ∷ [];
  verdict = KeyProbeVerdict.confirmed;
  reason = [];
}
