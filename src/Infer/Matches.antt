-- ===== src/Infer/Matches.antt =====
-- internal/infer/generate.go: the candidates that a column's name raises. What generateFor appends
-- to the result is returned, the candidates and the skipped targets.
pub mod Named
pub mod Hypothesis
use pgfathom.Base.{
  ℕ, Bool, false, not, Option, none, some, List, [], ◌∷◌, ◌++◌, text_eq, Dict, lookup, put, Float,
  length, any, sort_stable, ltb, if◌then◌else◌, Unicode, Str, codes, str_eq, str_lt, equal_fold,
}
use pgfathom.Model.Refs.{KeyRef, single_key, table_ref}
use pgfathom.Model.Table.{Column, ForeignKey, Table, Schema}
use pgfathom.Model.Candidate.{Signal, Verdict, Candidate}
use pgfathom.Profile.{Profile}
use pgfathom.Profile.Normalize.{Origin, Form, entity_name, table_forms}
use pgfathom.Infer.Types.{compare_types, is_compatible}
use pgfathom.Infer.Score.{score}
use pgfathom.Infer.Similarity.{dice, trigram_set}
use pgfathom.Infer.Finalize.{Skip}
use pgfathom.Infer.Signals.{
  Target, Resolved, resolve_key_target, Options, min_name_similarity, name_signal_from_origin,
  name_signal_from_similarity, build_signals,
}

module _ ⦃u : Unicode⦄ where
  abbrev is_sole_key : List Str → Str → Bool
  is_sole_key (k ∷ []) name = equal_fold k name
  is_sole_key keys name = false

  abbrev pub is_declared : List ForeignKey → Str → Bool
  is_declared fks name = any (λ fk. any (λ c. equal_fold c name) fk.columns) fks

  unfoldable pub eligible : Table → Column → Bool
  eligible t col =
      if is_sole_key t.primary_key col.name
      then false
      else not (is_declared t.foreign_keys col.name)

pub record IndexedTarget : Type 0 where
  pub table : Table
  pub origin : Origin

-- the order of the constants: a smaller origin is a stronger match
abbrev pub origin_rank : Origin → ℕ
origin_rank Origin.exact = 0
origin_rank Origin.prefix_stripped = 1
origin_rank Origin.depluralized = 2
origin_rank Origin.prefix_and_depluralized = 3

abbrev pub TargetIndex : Type 0
TargetIndex = Dict Str (List IndexedTarget)

abbrev pub targets_or_none : Option (List IndexedTarget) → List IndexedTarget
targets_or_none none = []
targets_or_none (some ts) = ts

-- index[form.Value] = append(index[form.Value], …)
pub index_forms : Table → List Form → TargetIndex → TargetIndex
index_forms t [] index = index
index_forms t (f ∷ fs) index = index_forms t fs (
    put f.value
      (targets_or_none (lookup f.value index) ++ record { table = t; origin = f.origin } ∷ [])
      index)

-- best[key], with the stronger of two matches of one table, and the first of two alike
pub keep_best : Str → IndexedTarget → List (Str × IndexedTarget) → List (Str × IndexedTarget)
keep_best key it [] = (key, it) ∷ []
keep_best key it ((k, prev) ∷ best) =
    let rest = keep_best key it best in
    if str_eq k key
    then (if ltb (origin_rank it.origin) (origin_rank prev.origin)
        then (key, it) ∷ best
        else (k, prev) ∷ best)
    else (k, prev) ∷ rest

pub best_by_table : List IndexedTarget → List (Str × IndexedTarget) → List (Str × IndexedTarget)
unfolding keep_best
best_by_table [] best = best
best_by_table (it ∷ its) best =
    best_by_table its (keep_best (table_ref it.table.schema it.table.name) it best)

module _ ⦃u : Unicode⦄ where
  pub index_tables : Profile → List Table → TargetIndex → TargetIndex
  unfolding index_forms
  index_tables p [] index = index
  index_tables p (t ∷ ts) index = index_tables p ts (index_forms t (table_forms p t.name) index)

  unfoldable pub build_target_index : Profile → List Schema → TargetIndex → TargetIndex
  unfolding index_tables
  build_target_index p [] index = index
  build_target_index p (s ∷ rest) index = build_target_index p rest (index_tables p s.tables index)

module _ ⦃F : Float⦄ where
  pub record NameMatch : Type 0 where
    pub target : Target
    pub signal : Signal

  pub record SimilarityTarget : Type 0 where
    pub table : Table
    pub trigrams : List Str

  abbrev pub Scored : Type 0
  Scored = Table × F.F64

  -- the stronger similarity first, ties by name
  abbrev pub scored_less : Scored → Scored → Bool
  scored_less a b = if F.eq a.1 b.1 then str_lt a.0.name b.0.name else F.lt b.1 a.1

  pub above_cutoff : F.F64 → List Str → List SimilarityTarget → List Scored
  above_cutoff cutoff entity [] = []
  above_cutoff cutoff entity (t ∷ ts) =
      let similarity = dice entity t.trigrams in
      let rest = above_cutoff cutoff entity ts in
      if F.le cutoff similarity then (t.table, similarity) ∷ rest else rest

  -- one pass of the loop after resolveKeyTarget: a match, a skip, or neither
  abbrev pub record_match :
      Resolved → Signal → List NameMatch × List Skip → List NameMatch × List Skip
  record_match (Resolved.found tgt) signal (ms, skips) =
      (record { target = tgt; signal = signal } ∷ ms, skips)
  record_match (Resolved.skipped s) signal (ms, skips) = (ms, s ∷ skips)
  record_match Resolved.nothing signal (ms, skips) = (ms, skips)

module _ ⦃F : Float⦄ ⦃u : Unicode⦄ where
  pub flatten_tables : List Table → List SimilarityTarget
  flatten_tables [] = []
  flatten_tables (t ∷ ts) = record { table = t; trigrams = trigram_set t.name } ∷ flatten_tables ts

  pub affix_matches : KeyRef → List (Str × IndexedTarget) → List NameMatch × List Skip
  affix_matches child [] = ([], [])
  affix_matches child ((name, it) ∷ rest) =
      record_match (resolve_key_target child name it.table)
        (name_signal_from_origin it.origin it.table.name) (affix_matches child rest)

  -- resolveByAffix, over the tables in the order of their names
  pub resolve_by_affix : KeyRef → List IndexedTarget → List NameMatch × List Skip
  unfolding affix_matches best_by_table
  resolve_by_affix child indexed =
      affix_matches child (sort_stable (λ a b. str_lt a.0 b.0) (best_by_table indexed []))

  pub scored_matches : KeyRef → List Scored → List NameMatch × List Skip
  scored_matches child [] = ([], [])
  scored_matches child ((t, similarity) ∷ rest) =
      record_match (resolve_key_target child (table_ref t.schema t.name) t)
        (name_signal_from_similarity t.name similarity) (scored_matches child rest)

  pub resolve_by_similarity :
      KeyRef → Str → List SimilarityTarget → Options → List NameMatch × List Skip
  unfolding scored_matches above_cutoff
  resolve_by_similarity child entity tables opts = scored_matches child (
      sort_stable scored_less (above_cutoff (min_name_similarity opts) (trigram_set entity) tables))

  pub match_candidates :
      Bool → List NameMatch → Table → Column → Str → Profile → Options → List Candidate
  match_candidates ambiguous [] t col entity p opts = []
  match_candidates ambiguous (m ∷ ms) t col entity p opts =
      let rest = match_candidates ambiguous ms t col entity p opts in
      let fit = compare_types col.base_type m.target.pk_column.base_type in
      let signals = build_signals m.signal t col m.target fit ambiguous entity p opts in
      if is_compatible fit
      then record {
        child = single_key t.schema t.name col.name;
        parent = single_key m.target.table.schema m.target.table.name m.target.pk_column.name;
        signals = signals;
        meta_score = score signals;
        validation = none;
        verdict = Verdict.unvalidated;
        reason = codes "not validated against data";
      }
        ∷ rest
      else rest

  pub finalize_matches : List NameMatch → Table → Column → Str → Profile → Options → List Candidate
  unfolding match_candidates
  finalize_matches ms t col entity p opts =
      match_candidates (ltb 1 (length ms)) ms t col entity p opts

  -- `if indexed := index[entity]; len(indexed) > 0`
  pub matches_of :
      List IndexedTarget
      → KeyRef
      → Str
      → List SimilarityTarget
      → Options
      → List NameMatch × List Skip
  unfolding resolve_by_affix resolve_by_similarity
  matches_of [] child entity tables opts = resolve_by_similarity child entity tables opts
  matches_of (it ∷ its) child entity tables opts = resolve_by_affix child (it ∷ its)

  unfoldable pub generate_for :
      TargetIndex
      → List SimilarityTarget
      → Table
      → Column
      → Profile
      → Options
      → List Candidate × List Skip
  unfolding finalize_matches matches_of
  generate_for index tables t col p opts =
      let entity = entity_name p col.name in
      let child = single_key t.schema t.name col.name in
      let (ms, skips) =
        matches_of (targets_or_none (lookup entity index)) child entity tables opts in
      if str_eq entity [] then ([], []) else (finalize_matches ms t col entity p opts, skips)
