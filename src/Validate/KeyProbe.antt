-- ===== src/Validate/KeyProbe.antt =====
-- internal/validate/keyprobe.go: is a set of columns a key? Three counts of a full scan decide.
-- How pgx quotes an identifier is a parameter.
pub mod Proof
use pgfathom.Base.{
  ℕ, Bool, ◌&&◌, Option, none, some, List, [], ◌∷◌, ◌++◌, map, text_eq, ℤ, ◌==◌, if◌then◌else◌, Str,
  codes,
}
use pgfathom.Model.Refs.{join}
use pgfathom.Model.Table.{Table}
use pgfathom.Model.Finding.{KeyProbeVerdict}
use pgfathom.Validate.Session.{Failure, Result, ok, err, ◌>>=◌, Session, run_query, resolve_error}

pub record KeyProbeResult : Type 0 where
  pub columns : List Str
  pub verdict : KeyProbeVerdict
  pub reason : Str

-- What the query's row is scanned into.
pub record KeyCounts : Type 0 where
  pub total : ℕ
  pub distinct : ℕ
  pub nulls : ℕ

module _ (sanitize : List Str → Str) where
  unfoldable pub build_key_probe_query : Table → List Str → Str
  build_key_probe_query t columns =
      let rel = sanitize (t.schema ∷ t.name ∷ []) in
      let quoted = map (λ c. sanitize (c ∷ [])) columns in
      let null_checks = map (λ c. sanitize (c ∷ []) ++ codes " IS NULL") columns in
      let tuple = codes "(" ++ (join (codes ", ") quoted ++ codes ")") in
      codes
        "\n\t\tSELECT\n\t\t    count(*)                                     AS total_rows,\n\t\t    count(DISTINCT "
      ++ (tuple
          ++ (codes ")                         AS distinct_vals,\n\t\t    count(*) FILTER (WHERE "
              ++ (join (codes " OR ") null_checks
                  ++ (codes ")                 AS null_rows\n\t\tFROM " ++ rel))))

conclude : List Str → KeyCounts → KeyProbeResult
conclude cols n =
    if n.total == n.distinct && n.nulls == 0
    then record { columns = cols; verdict = KeyProbeVerdict.confirmed; reason = [] }
    else record {
      columns = cols;
      verdict = KeyProbeVerdict.unverified;
      reason = codes "columns are not unique";
    }

give_up : List Str → Failure → Option (Str × Bool) → Result KeyProbeResult
give_up cols e none = err e
give_up cols e (some (reason, timed_out)) =
    ok (record { columns = cols; verdict = KeyProbeVerdict.unverified; reason = reason })

after_query : List Str → Result KeyCounts → Result KeyProbeResult
unfolding conclude give_up
after_query cols (err e) = give_up cols e (resolve_error e)
after_query cols (ok n) = ok (conclude cols n)

module _ (sanitize : List Str → Str) (db : Session KeyCounts) where
  pub probe_one : Table → List Str → ℤ → Result KeyProbeResult
  unfolding after_query
  probe_one t cols timeout =
      after_query cols (run_query db (build_key_probe_query sanitize t cols) timeout)

  -- one candidate at a time; a failure that is not resolved ends the loop
  unfoldable pub probe_uniqueness : Table → List (List Str) → ℤ → Result (List KeyProbeResult)
  unfolding probe_one
  probe_uniqueness t [] timeout = ok []
  probe_uniqueness t (cols ∷ rest) timeout = do
    res ← probe_one t cols timeout
    out ← probe_uniqueness t rest timeout
    ok (res ∷ out)
