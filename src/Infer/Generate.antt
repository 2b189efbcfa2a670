-- ===== src/Infer/Generate.antt =====
-- internal/infer/generate.go: polymorphicPairs, and the walk of Generate over the schemas, tables and
-- columns. What each step appends to the result is returned and joined in the same order.
pub mod Undeclared
use pgfathom.Base.{
  ◌||◌, List, [], ◌∷◌, ◌++◌, text_eq, Float, length, ◌==◌, if◌then◌else◌, is_some, Unicode, Str,
  str_eq, equal_fold,
}
use pgfathom.Model.Table.{Column, Table, Schema, ref, column}
use pgfathom.Model.Candidate.{Candidate}
use pgfathom.Profile.{Profile}
use pgfathom.Profile.Normalize.{entity_name}
use pgfathom.Infer.Finalize.{Skip, PolymorphicPair}
use pgfathom.Infer.Signals.{Options}
use pgfathom.Infer.Matches.{
  TargetIndex, SimilarityTarget, eligible, build_target_index, flatten_tables, generate_for,
}

module _ ⦃u : Unicode⦄ where
  -- the loop over the suffixes, which breaks at the first that has a sibling
  pub pair_for : Table → Str → Str → List Str → List PolymorphicPair
  pair_for t name entity [] = []
  pair_for t name entity (suffix ∷ suffixes) =
      let rest = pair_for t name entity suffixes in
      let pair : PolymorphicPair = record {
        table = ref t;
        reference_column = name;
        type_column = entity ++ suffix;
      } in
      if is_some (column t (entity ++ suffix)) then pair ∷ [] else rest

  pub pairs_of : Table → Profile → List Column → List PolymorphicPair
  unfolding pair_for
  pairs_of t p [] = []
  pairs_of t p (col ∷ cols) =
      let entity = entity_name p col.name in
      let rest = pairs_of t p cols in
      if str_eq entity [] || equal_fold entity col.name
      then rest
      else pair_for t col.name entity p.type_suffixes ++ rest

  unfoldable pub polymorphic_pairs : Table → Profile → List PolymorphicPair
  unfolding pairs_of
  polymorphic_pairs t p = if length p.type_suffixes == 0 then [] else pairs_of t p t.columns

-- all the tables, in the order of the schemas
unfoldable pub all_tables : List Schema → List Table
all_tables [] = []
all_tables (s ∷ rest) = s.tables ++ all_tables rest

module _ ⦃F : Float⦄ ⦃u : Unicode⦄ where
  -- what a walk appended: candidates, skips and pairs
  pub record Raised : Type 0 where
    pub candidates : List Candidate
    pub skipped : List Skip
    pub polymorphic : List PolymorphicPair

  abbrev pub joined : Raised → Raised → Raised
  joined a b = record {
    candidates = a.candidates ++ b.candidates;
    skipped = a.skipped ++ b.skipped;
    polymorphic = a.polymorphic ++ b.polymorphic;
  }

  abbrev pub nothing_raised : Raised
  nothing_raised = record { candidates = []; skipped = []; polymorphic = [] }

  module _ (index : TargetIndex) (targets : List SimilarityTarget) (p : Profile)
      (opts : Options) where
    pub from_column : Table → Column → Raised
    from_column t col =
        let (cs, skips) = generate_for index targets t col p opts in
        if eligible t col
        then record { candidates = cs; skipped = skips; polymorphic = [] }
        else nothing_raised

    pub from_columns : Table → List Column → Raised
    unfolding from_column
    from_columns t [] = nothing_raised
    from_columns t (col ∷ cols) = joined (from_column t col) (from_columns t cols)

    pub from_tables : List Table → Raised
    unfolding from_columns
    from_tables [] = nothing_raised
    from_tables (t ∷ ts) =
        joined
          (joined (record nothing_raised { polymorphic = polymorphic_pairs t p })
            (from_columns t t.columns))
          (from_tables ts)

  -- the walk, before the composite pass and the evidence
  unfoldable pub raise_candidates : List Schema → Profile → Options → Raised
  unfolding from_tables all_tables
  raise_candidates schemas p opts =
      from_tables (build_target_index p schemas []) (flatten_tables (all_tables schemas)) p opts
        (all_tables schemas)
