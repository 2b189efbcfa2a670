-- ===== src/Infer/Matches/Hypothesis.antt =====
-- internal/infer/generate.go, generateFor: the candidates that a column raises.
use pgfathom.Base.{
  ◌≡◌, refl, sym, inl, inr, Bool, none, List, [], ◌∷◌, text_eq, lookup, Float, All, sort_stable-All,
  Bool-cases, Unicode, Str, str_eq, str_lt,
}
use pgfathom.Model.Refs.{KeyRef, single_key}
use pgfathom.Model.Table.{Column, Table, Schema}
use pgfathom.Model.Candidate.{Signal, Verdict, Candidate}
use pgfathom.Profile.{Profile}
use pgfathom.Profile.Normalize.{entity_name}
use pgfathom.Infer.Types.{compare_types, is_compatible}
use pgfathom.Infer.Types.Order.{Fits}
use pgfathom.Infer.Score.{score}
use pgfathom.Infer.Finalize.{Skip}
use pgfathom.Infer.Signals.{
  Target, Resolved, resolve_key_target, Options, min_name_similarity, name_signal_from_origin,
  name_signal_from_similarity,
}
use pgfathom.Infer.Signals.Keyed.{IsKeyed, IsKeyedIfFound, resolve_key-IsKeyed}
use pgfathom.Infer.Matches.{
  targets_or_none, IndexedTarget, NameMatch, SimilarityTarget, Scored, record_match, affix_matches,
  resolve_by_affix, scored_matches, resolve_by_similarity, match_candidates, finalize_matches,
  matches_of, generate_for, build_target_index, flatten_tables, above_cutoff, scored_less,
}
use pgfathom.Infer.Similarity.{trigram_set}
use pgfathom.Infer.Generate.{all_tables}
use pgfathom.Infer.Matches.Named.{
  IsMeant, best_by_table-All, flatten_tables-IsCompared, above_cutoff-IsMeant,
  build_target_index-IsMeant,
}

module _ ⦃F : Float⦄ ⦃u : Unicode⦄ (Q : Table → Type 0) where
  -- The matches all lead to keyed targets whose tables satisfy the predicate.
  abbrev AllKeyed : List NameMatch × List Skip → Type 0
  AllKeyed out = All (λ m. IsKeyed m.target × Q m.target.table) out.0

  record_match-AllKeyed :
      (t : Table) (r : Resolved) (signal : Signal) (out : List NameMatch × List Skip)
      → Q t
      → IsKeyedIfFound t r
      → AllKeyed out
      → AllKeyed (record_match r signal out)
  record_match-AllKeyed t (Resolved.found tgt) signal out q (keyed, e) h =
      ((keyed, rw (sym e) at q), h)
  record_match-AllKeyed t (Resolved.skipped s) signal out q keyed h = h
  record_match-AllKeyed t Resolved.nothing signal out q keyed h = h

  affix_matches-AllKeyed :
      (child : KeyRef) (its : List (Str × IndexedTarget))
      → All (λ x. Q x.1.table) its
      → AllKeyed (affix_matches child its)
  unfolding affix_matches
  affix_matches-AllKeyed child [] h = tt
  affix_matches-AllKeyed child ((name, it) ∷ rest) (q, h) =
      record_match-AllKeyed it.table (resolve_key_target child name it.table)
        (name_signal_from_origin it.origin it.table.name) (affix_matches child rest) q
        (resolve_key-IsKeyed child name it.table it.table.primary_key refl)
        (affix_matches-AllKeyed child rest h)

  scored_matches-AllKeyed :
      (child : KeyRef) (ts : List Scored) → All (λ x. Q x.0) ts → AllKeyed (scored_matches child ts)
  unfolding scored_matches
  scored_matches-AllKeyed child [] h = tt
  scored_matches-AllKeyed child ((t, similarity) ∷ rest) (q, h) =
      record_match-AllKeyed t _ (name_signal_from_similarity t.name similarity)
        (scored_matches child rest) q (resolve_key-IsKeyed child _ t t.primary_key refl)
        (scored_matches-AllKeyed child rest h)

  matches_of-AllKeyed :
      (its : List IndexedTarget) (child : KeyRef) (entity : Str) (ts : List SimilarityTarget)
      (opts : Options)
      → All (λ it. Q it.table) its
      → All (λ x. Q x.0) (above_cutoff (min_name_similarity opts) (trigram_set entity) ts)
      → AllKeyed (matches_of its child entity ts opts)
  unfolding matches_of resolve_by_affix resolve_by_similarity
  matches_of-AllKeyed [] child entity ts opts h k =
      scored_matches-AllKeyed child _ (sort_stable-All scored_less (λ x. Q x.0) _ k)
  matches_of-AllKeyed (it ∷ its) child entity ts opts h k = affix_matches-AllKeyed child _ (
      sort_stable-All (λ a b. str_lt a.0 b.0) (λ x. Q x.1.table) _
        (best_by_table-All Q (it ∷ its) [] h tt))

module _ ⦃F : Float⦄ ⦃u : Unicode⦄ where
  -- A hypothesis about this column: from the column to the key of a table in scope whose name means
  -- what the column's name does and whose primary key is one column, of a type that the column fits,
  -- with the score of its own signals, and undecided.
  pub record IsHypothesis (scope : List Table) (p : Profile) (opts : Options) (t : Table)
      (col : Column) (c : Candidate) : Type 0 where
    pub from_column : c.child ≡ single_key t.schema t.name col.name
    pub target : Target
    pub meant : IsMeant scope p opts (entity_name p col.name) target.table
    pub keyed : IsKeyed target
    pub to_key : c.parent ≡ single_key target.table.schema target.table.name target.pk_column.name
    pub fits : Fits col.base_type target.pk_column.base_type
    pub scored : c.meta_score ≡ score c.signals
    pub undecided : (c.verdict ≡ Verdict.unvalidated) × (c.validation ≡ none)

  match_candidates-IsHypothesis :
      (scope : List Table) (ambiguous : Bool) (ms : List NameMatch) (t : Table) (col : Column)
      (p : Profile) (opts : Options)
      → All
          (λ m. IsKeyed m.target × IsMeant scope p opts (entity_name p col.name) m.target.table)
          ms
      → All
          (IsHypothesis scope p opts t col)
          (match_candidates ambiguous ms t col (entity_name p col.name) p opts)
  unfolding match_candidates
  match_candidates-IsHypothesis scope ambiguous [] t col p opts h = tt
  match_candidates-IsHypothesis scope ambiguous (m ∷ ms) t col p opts ((k, n), h) =
      let rest = match_candidates-IsHypothesis scope ambiguous ms t col p opts h in
      elim (Bool-cases (is_compatible (compare_types col.base_type m.target.pk_column.base_type))) [
        | inl e ↦ rw e (
          record {
            from_column = refl;
            target = m.target;
            meant = n;
            keyed = k;
            to_key = refl;
            fits = e;
            scored = refl;
            undecided = (refl, refl);
          },
          rest,
        )
        | inr e ↦ rw e rest
      ]

  -- Every candidate that a column's name raises, by an affix rule or by similarity, goes from that
  -- column to a table of these schemas one of whose forms is the column's entity, or whose name is
  -- as similar to it as the options want; its end is that table's single-column primary key, a
  -- column of the table, of a type that the column fits; its score is that of its signals, and no
  -- verdict is given.
  pub generate_for-IsHypothesis :
      (ss : List Schema) (t : Table) (col : Column) (p : Profile) (opts : Options)
      → All
          (IsHypothesis (all_tables ss) p opts t col)
          (generate_for
            (build_target_index p ss [])
            (flatten_tables (all_tables ss))
            t
            col
            p
            opts).0
  unfolding generate_for finalize_matches
  generate_for-IsHypothesis ss t col p opts =
      let entity = entity_name p col.name in
      let scope = all_tables ss in
      let ts = flatten_tables scope in
      elim (Bool-cases (str_eq (entity_name p col.name) [])) [
        | inl e ↦ rw e tt
        | inr e ↦ rw e (
            match_candidates-IsHypothesis scope _ _ t col p opts (
              matches_of-AllKeyed (IsMeant scope p opts entity)
                (targets_or_none (lookup entity (build_target_index p ss [])))
                (single_key t.schema t.name col.name) entity ts opts
                (build_target_index-IsMeant ss p opts entity)
                (above_cutoff-IsMeant scope p opts entity ts (flatten_tables-IsCompared scope))))
      ]
