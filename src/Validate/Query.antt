-- ===== src/Validate/Query.antt =====
-- internal/validate/query.go, buildQuery: the text of one candidate's aggregation. How pgx quotes
-- an identifier is a parameter. The indentation is the source's.
pub mod Totality
use pgfathom.Base.{
  ℕ, zero, suc, ◌+◌, Option, none, some, List, [], ◌∷◌, ◌++◌, itoa, format_int, text_eq, Float, ℤ,
  sub_ℕ, all, Str, codes, pos,
}
use pgfathom.Model.Refs.{arity, join}
use pgfathom.Model.Candidate.{Candidate}
use pgfathom.Validate.Sample.{SampleSpec, SampleMethod}

module _ ⦃F : Float⦄ where
  sample_method_clause : SampleMethod → Str → Str
  sample_method_clause SampleMethod.system rest = codes " TABLESAMPLE " ++ (codes "SYSTEM" ++ rest)
  sample_method_clause SampleMethod.bernoulli rest =
      codes " TABLESAMPLE " ++ (codes "BERNOULLI" ++ rest)
  sample_method_clause SampleMethod.whole rest = []

  seed_clause : ℤ → Str
  seed_clause (pos zero) = []
  seed_clause seed = codes " REPEATABLE (" ++ (format_int seed ++ codes ")")

  unfoldable pub sample_clause : SampleSpec → Str
  unfolding sample_method_clause seed_clause
  sample_clause spec =
      sample_method_clause spec.kind
        (codes " (" ++ (F.format spec.percent 4 ++ (codes ")" ++ seed_clause spec.seed)))

-- "1, 2, ..., n": the loop's numbers from `i` on, `k` of them
ordinals : ℕ → ℕ → List Str
ordinals i zero = []
ordinals i (suc k) = itoa i ∷ ordinals (suc i) k

unfoldable pub group_by : ℕ → Str
unfolding ordinals
group_by n = join (codes ", ") (ordinals 1 n)

-- the i-th position of the key, "v" + strconv.Itoa(i+1)
position_name : ℕ → Str
position_name i = codes "v" ++ itoa (i + 1)

module _ (sanitize : List Str → Str) where
  -- c."a" AS v1
  projection : ℕ → Str → Str
  unfolding position_name
  projection i c = codes "c." ++ (sanitize (c ∷ []) ++ (codes " AS " ++ position_name i))

  -- p."k1" = cv.v1
  comparison : ℕ → Str → Str
  unfolding position_name
  comparison i p = codes "p." ++ (sanitize (p ∷ []) ++ (codes " = cv." ++ position_name i))

  -- The loop over the child's columns with what it appends to `projected`, `positions` and
  -- `matched`. A parent key that is shorter is an index out of range, which panics.
  pub columns_loop : ℕ → List Str → List Str → Option (List Str × List Str × List Str)
  unfolding projection comparison
  columns_loop i [] ps = some ([], [], [])
  columns_loop i (c ∷ cs) [] = none
  columns_loop i (c ∷ cs) (p ∷ ps) = elim (columns_loop (suc i) cs ps) [
    | none ↦ none
    | some (projected, positions, matched) ↦
        some (projection i c ∷ projected, position_name i ∷ positions, comparison i p ∷ matched)
  ]

  -- The format string with its seven arguments put in.
  query_text : Str → Str → Str → Str → Str → Str → Str → Str
  query_text projected from all last groups parent matched =
      codes "\n\t\tWITH scanned AS (\n\t\t    SELECT "
      ++ (projected
          ++ (codes " FROM "
              ++ (from
                  ++ (codes
                        "\n\t\t),\n\t\ttotals AS (\n\t\t    SELECT count(*) AS rows_scanned,\n\t\t           count(*) FILTER (WHERE num_nulls("
                      ++ (all
                          ++ (codes ") BETWEEN 1 AND "
                              ++ (last
                                  ++ (codes
                                        ") AS partial_null\n\t\t    FROM scanned\n\t\t),\n\t\tchild_vals AS (\n\t\t    SELECT "
                                      ++ (all
                                          ++ (codes ", count(*) AS n FROM scanned WHERE num_nulls("
                                              ++ (all
                                                  ++ (codes ") = 0 GROUP BY "
                                                      ++ (groups
                                                          ++ (codes
                                                            "\n\t\t),\n\t\tmarked AS (\n\t\t    SELECT cv.n, EXISTS (SELECT 1 FROM "
                                                            ++ (parent
                                                            ++ (codes " p WHERE "
                                                            ++ (matched
                                                            ++ codes
                                                            ") AS matched\n\t\t    FROM child_vals cv\n\t\t)\n\t\tSELECT\n\t\t    (SELECT rows_scanned FROM totals)                         AS sampled_rows,\n\t\t    (SELECT partial_null FROM totals)                         AS partial_null_rows,\n\t\t    count(*)                                                  AS distinct_vals,\n\t\t    coalesce(sum(n), 0)::bigint                               AS not_null_rows,\n\t\t    count(*) FILTER (WHERE NOT matched)                       AS orphan_vals,\n\t\t    coalesce(sum(n) FILTER (WHERE NOT matched), 0)::bigint    AS orphan_rows,\n\t\t    coalesce(max(n), 0)::bigint                               AS max_rows_per_value\n\t\tFROM marked")))))))))))))))))

  module _ ⦃F : Float⦄ where
    unfoldable pub build_query : Candidate → SampleSpec → Option Str
    unfolding columns_loop query_text sample_clause group_by
    build_query c spec =
        let n = arity c.child in
        let parent = sanitize (c.parent.schema ∷ c.parent.table ∷ []) in
        let from =
          sanitize (c.child.schema ∷ c.child.table ∷ []) ++ (codes " AS c" ++ sample_clause spec) in
        elim (columns_loop 0 c.child.columns c.parent.columns) [
          | none ↦ none
          | some (projected, positions, matched) ↦ some (
              query_text (join (codes ", ") projected) from (join (codes ", ") positions)
                (format_int (sub_ℕ n 1)) (group_by n) parent (join (codes " AND ") matched))
        ]
