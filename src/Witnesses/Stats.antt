-- ===== src/Witnesses/Stats.antt =====
-- The theorems on the prefilter at concrete inputs.
use pgfathom.Base.{ℕ, ◌≡◌, refl, true, [], ◌∷◌, text_eq, Dict, lookup, put, ℤ, Str, codes, pos}
use pgfathom.Model.Refs.{ColumnRef, column_refs, column_ref_eq}
use pgfathom.Model.Usage.{estimated_distinct, ColumnStats}
use pgfathom.Stats.Columns.{Stats, add}
use pgfathom.Stats.Evaluate.{Options, Outcome, evaluate_one, lower_bound_distinct, evaluate}
use pgfathom.Stats.Evaluate.Funnel.{IsFunnel, outcomes, evaluate-IsFunnel}
use pgfathom.Stats.Evaluate.Silence.{
  IsImpossible, evaluate_one-rejected, KeepsFacts, evaluate_one-KeepsFacts,
}
use pgfathom.Witnesses.Fixed.{fixed, ascii}
use pgfathom.Witnesses.Data.{schemas, candidate}

abbrev child_column : ColumnRef
child_column = record {
  schema = codes "public";
  table = codes "orders";
  column = codes "customer_id";
}

-- 900 distinct values
abbrev estimates : ColumnStats
estimates = record {
  null_fraction = fixed.of_int (pos 0);
  n_distinct = fixed.of_int (pos 900);
  present = true;
}

abbrev statistics : Stats
statistics = add child_column estimates []

abbrev rows : Dict Str ℕ
rows = (codes "public.orders", 5000) ∷ (codes "public.customers", 100) ∷ []

abbrev factor : ℤ
factor = fixed.of_int (pos 2)

impossible : (evaluate_one candidate rows statistics factor).1 ≡ Outcome.rejected
unfolding evaluate_one lookup lower_bound_distinct column_refs add put estimated_distinct
impossible = refl

impossible_example : IsImpossible candidate rows statistics factor
impossible_example = evaluate_one-rejected candidate rows statistics factor impossible

keeps_example : KeepsFacts candidate (evaluate_one candidate rows statistics factor)
keeps_example = evaluate_one-KeepsFacts candidate rows statistics factor

abbrev options : Options
options = record { reject_factor = fixed.of_int (pos 0) }

evaluated_example :
    IsFunnel
      (outcomes schemas (candidate ∷ []) statistics options)
      (evaluate schemas (candidate ∷ []) statistics options)
evaluated_example = evaluate-IsFunnel schemas (candidate ∷ []) statistics options
