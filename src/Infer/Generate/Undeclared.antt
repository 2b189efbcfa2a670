-- ===== src/Infer/Generate/Undeclared.antt =====
-- internal/infer/generate.go, Generate: the columns that candidates are about.
use pgfathom.Base.{
  there, here, ◌≡◌, inl, inr, true, false, List, [], ◌∷◌, arith, text_eq, Float, IsIn, All,
  All-append, All-weaken, Bool-cases, Unicode,
}
use pgfathom.Model.Table.{Column, Table, Schema}
use pgfathom.Model.Candidate.{Candidate}
use pgfathom.Profile.{Profile}
use pgfathom.Infer.Signals.{Options}
use pgfathom.Infer.Matches.{
  TargetIndex, SimilarityTarget, eligible, build_target_index, flatten_tables, generate_for,
  is_declared,
}
use pgfathom.Infer.Matches.Hypothesis.{IsHypothesis, generate_for-IsHypothesis}
use pgfathom.Infer.Generate.{all_tables, from_column, from_columns, from_tables, raise_candidates}

module _ ⦃F : Float⦄ ⦃u : Unicode⦄ where
  -- The candidate is a hypothesis about a column of one of the tables that no declared foreign key
  -- of its table covers.
  pub record IsUndeclared (scope : List Table) (p : Profile) (opts : Options) (ts : List Table)
      (c : Candidate) : Type 0 where
    pub table : Table
    pub col : Column
    pub in_scope : IsIn table ts
    pub of_table : IsIn col table.columns
    pub undeclared : is_declared table.foreign_keys col.name ≡ false
    pub hypothesis : IsHypothesis scope p opts table col c

  -- The same, of a column among these of a table.
  abbrev IsOfColumn : List Table → Profile → Options → Table → List Column → Candidate → Type 0
  IsOfColumn scope p opts t cols c =
      (col : Column) × IsIn col cols
      × (is_declared t.foreign_keys col.name ≡ false)
      × IsHypothesis scope p opts t col c

  eligible-undeclared :
      (t : Table) (col : Column)
      → eligible t col ≡ true
      → is_declared t.foreign_keys col.name ≡ false
  unfolding eligible
  eligible-undeclared t col h = ground arith

  module _ (ss : List Schema) (p : Profile) (opts : Options) where
    abbrev scope : List Table
    scope = all_tables ss

    abbrev index : TargetIndex
    index = build_target_index p ss []

    abbrev targets : List SimilarityTarget
    targets = flatten_tables scope

    from_column-IsOfColumn :
        (t : Table) (col : Column) (cols : List Column)
        → All
            (IsOfColumn scope p opts t (col ∷ cols))
            (from_column index targets p opts t col).candidates
    unfolding from_column
    from_column-IsOfColumn t col cols = elim (Bool-cases (eligible t col)) [
      | inl e ↦ rw e (
          All-weaken (generate_for index targets t col p opts).0
            (λ c h. (col, here cols, eligible-undeclared t col e, h))
            (generate_for-IsHypothesis ss t col p opts))
      | inr e ↦ rw e tt
    ]

    from_columns-IsOfColumn :
        (t : Table) (cols : List Column)
        → All (IsOfColumn scope p opts t cols) (from_columns index targets p opts t cols).candidates
    unfolding from_columns
    from_columns-IsOfColumn t [] = tt
    from_columns-IsOfColumn t (col ∷ cols) =
        All-append (IsOfColumn scope p opts t (col ∷ cols))
          (from_column index targets p opts t col).candidates
          (from_columns index targets p opts t cols).candidates (from_column-IsOfColumn t col cols)
          (All-weaken (from_columns index targets p opts t cols).candidates
            (λ c (k, m, d, h). (k, there col cols m, d, h)) (from_columns-IsOfColumn t cols))

    from_tables-IsUndeclared :
        (ts : List Table)
        → All (IsUndeclared scope p opts ts) (from_tables index targets p opts ts).candidates
    unfolding from_tables
    from_tables-IsUndeclared [] = tt
    from_tables-IsUndeclared (t ∷ ts) =
        All-append (IsUndeclared scope p opts (t ∷ ts))
          (from_columns index targets p opts t t.columns).candidates
          (from_tables index targets p opts ts).candidates
          (All-weaken (from_columns index targets p opts t t.columns).candidates
            (λ c (k, m, d, h). record {
              table = t;
              col = k;
              in_scope = here ts;
              of_table = m;
              undeclared = d;
              hypothesis = h;
            })
            (from_columns-IsOfColumn t t.columns))
          (All-weaken (from_tables index targets p opts ts).candidates
            (λ c h. record {
              table = h.table;
              col = h.col;
              in_scope = there t ts h.in_scope;
              of_table = h.of_table;
              undeclared = h.undeclared;
              hypothesis = h.hypothesis;
            })
            (from_tables-IsUndeclared ts))

  -- Every candidate that the walk over the schemas raises is a hypothesis about a column of a table
  -- in scope that no declared foreign key of that table covers.
  pub raise_candidates-IsUndeclared :
      (schemas : List Schema) (p : Profile) (opts : Options)
      → All
          (IsUndeclared (all_tables schemas) p opts (all_tables schemas))
          (raise_candidates schemas p opts).candidates
  unfolding raise_candidates
  raise_candidates-IsUndeclared schemas p opts =
      from_tables-IsUndeclared schemas p opts (all_tables schemas)
