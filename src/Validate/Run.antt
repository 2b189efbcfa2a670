-- ===== src/Validate/Run.antt =====
-- internal/validate/validate.go, validateOne and Run. The order in which the goroutines of a run
-- finish is a parameter, as Group explains.
pub mod One
pub mod Account
use pgfathom.Base.{
  ℕ, ◌+◌, Bool, true, false, Option, none, some, List, [], ◌∷◌, map, text_eq, Dict, lookup, Float,
  ℤ, length, if◌then◌else◌, is_some, Str, codes,
}
use pgfathom.Model.Refs.{table_ref}
use pgfathom.Model.Table.{Schema, row_estimates}
use pgfathom.Model.Candidate.{Verdict, Validation, Candidate}
use pgfathom.Validate.Options.{Options}
use pgfathom.Validate.Sample.{SampleSpec, method, sample_for}
use pgfathom.Validate.Query.{build_query}
use pgfathom.Validate.Session.{Failure, Result, ok, err, ◌>>=◌, Session, run_query, resolve_error}
use pgfathom.Validate.Verdict.{verdict}
use pgfathom.Validate.Group.{finish_all, start, wait}

module _ ⦃F : Float⦄ where
  -- a candidate and whether it hit the ceiling
  abbrev pub Outcome : Type 0
  Outcome = Candidate × Bool

  judged : Candidate → SampleSpec → Options → Validation → Candidate
  judged c spec opts v =
      let v' = record v { method = method spec } in
      let (decided, reason) = verdict v' opts in
      record c { validation = some v'; verdict = decided; reason = reason }

  unresolved : Candidate → Failure → Option (Str × Bool) → Result Outcome
  unresolved c e none = err e
  unresolved c e (some (reason, timed_out)) =
      ok (record c { verdict = Verdict.unvalidated; reason = reason }, timed_out)

  -- after the query: `out, timedOut, err`
  pub settle : Candidate → SampleSpec → Options → Result Validation → Result Outcome
  unfolding judged unresolved
  settle c spec opts (err e) = unresolved c e (resolve_error e)
  settle c spec opts (ok v) = ok (judged c spec opts v, false)

module _ ⦃F : Float⦄ (sanitize : List Str → Str) (db : Session Validation) where
  query_with : Option Str → ℤ → Result Validation
  query_with none timeout =
      err (record { context_done = true; pg_code = none; message = codes "index out of range" })
  query_with (some query) timeout = run_query db query timeout

  -- A query that cannot be assembled is a panic in the source; it ends the run.
  unfoldable pub validate_one : Candidate → Dict Str ℕ → Options → Result Outcome
  unfolding settle query_with
  validate_one c rows opts =
      let spec = sample_for (lookup (table_ref c.child.schema c.child.table) rows) opts in
      settle c spec opts (query_with (build_query sanitize c spec) opts.timeout)

-- What Run returns.
module _ ⦃F : Float⦄ where
  pub record Report : Type 0 where
    pub candidates : List Candidate
    pub validated : ℕ
    pub timed_out : ℕ

  abbrev pub tick : Bool → ℕ → ℕ
  tick b n = if b then n + 1 else n

  -- the loop after Wait, over the slots
  unfoldable pub report : List Outcome → Report
  report [] = record { candidates = []; validated = 0; timed_out = 0 }
  report ((c, hit) ∷ outs) =
      let r = report outs in
      record {
        candidates = c ∷ r.candidates;
        validated = tick (is_some c.validation) r.validated;
        timed_out = tick hit r.timed_out;
      }

  or_failed : Result (List Outcome) → Result Report
  or_failed r = do outs ← r; ok (report outs)

  pub run_with : (Candidate → Result Outcome) → List Candidate → List ℕ → Result Report
  unfolding report or_failed
  run_with one cs order = or_failed (wait (length cs) (finish_all (map one cs) order start))

module _ ⦃F : Float⦄ (sanitize : List Str → Str) (db : Session Validation) where
  unfoldable pub run : List Schema → List Candidate → Options → List ℕ → Result Report
  unfolding run_with
  run schemas cs opts order =
      let rows = row_estimates schemas in
      run_with (λ c. validate_one sanitize db c rows opts) cs order
