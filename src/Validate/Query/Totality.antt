-- ===== src/Validate/Query/Totality.antt =====
-- internal/validate/query.go, buildQuery: keys of different lengths.
use pgfathom.Base.{ℕ, suc, ◌≡◌, List, [], ◌∷◌, arith, text_eq, Float, length, leb, is_some, Str}
use pgfathom.Model.Refs.{arity}
use pgfathom.Model.Candidate.{Candidate}
use pgfathom.Validate.Sample.{SampleSpec}
use pgfathom.Validate.Query.{columns_loop, build_query}

module _ (sanitize : List Str → Str) where
  columns_loop_total :
      (i : ℕ) (cs ps : List Str)
      → is_some (columns_loop sanitize i cs ps) ≡ leb (length cs) (length ps)
  unfolding columns_loop
  columns_loop_total i [] ps = ground arith
  columns_loop_total i (c ∷ cs) [] = ground arith
  columns_loop_total i (c ∷ cs) (p ∷ ps) = ground (arith, columns_loop_total (suc i) cs ps)

  -- Assembling the query fails, by an index out of range, exactly when the parent's key has fewer
  -- columns than the child's.
  pub build_query_total :
      ⦃F : Float⦄ (c : Candidate) (spec : SampleSpec)
      → is_some (build_query sanitize c spec) ≡ leb (arity c.child) (arity c.parent)
  unfolding build_query
  build_query_total c spec = ground (arith, columns_loop_total 0 c.child.columns c.parent.columns)
