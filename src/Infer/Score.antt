-- ===== src/Infer/Score.antt =====
-- internal/infer/score.go: signal weights and the rules that combine them.
pub mod Range
pub mod Cut
use pgfathom.Base.{ℕ, ◌-◌, List, [], ◌∷◌, text_eq, Float, ltb, if◌then◌else◌, pos}
use pgfathom.Model.Candidate.{SignalKind, Signal, Candidate, kind_eq}

module _ ⦃F : Float⦄ where
  -- n hundredths
  abbrev hundredths : ℕ → F.F64
  hundredths n = F.lit (pos n) 2

  abbrev pub zero_score : F.F64
  zero_score = F.of_int (pos 0)

  abbrev pub one_score : F.F64
  one_score = F.of_int (pos 1)

  abbrev pub weight_exact_name : F.F64
  weight_exact_name = hundredths 30

  abbrev pub weight_normalized_name : F.F64
  weight_normalized_name = hundredths 15

  abbrev pub weight_identical_type : F.F64
  weight_identical_type = hundredths 25

  abbrev pub weight_compatible_type : F.F64
  weight_compatible_type = hundredths 10

  abbrev pub weight_unique_target : F.F64
  weight_unique_target = hundredths 20

  abbrev pub weight_child_indexed : F.F64
  weight_child_indexed = hundredths 15

  abbrev pub weight_comment_mention : F.F64
  weight_comment_mention = hundredths 12

  abbrev pub weight_not_null : F.F64
  weight_not_null = hundredths 5

  abbrev pub weight_name_similarity_max : F.F64
  weight_name_similarity_max = hundredths 12

  abbrev pub weight_join_in_view : F.F64
  weight_join_in_view = hundredths 50

  abbrev pub weight_join_in_function : F.F64
  weight_join_in_function = hundredths 45

  abbrev pub weight_join_in_statements : F.F64
  weight_join_in_statements = hundredths 40

  abbrev pub penalty_ambiguous_target : F.F64
  penalty_ambiguous_target = F.neg (hundredths 25)

  abbrev pub penalty_generic_domain : F.F64
  penalty_generic_domain = F.neg (hundredths 30)

  abbrev pub weight_arity_base : F.F64
  weight_arity_base = hundredths 15

  abbrev pub weight_arity_step : F.F64
  weight_arity_step = hundredths 5

  abbrev pub weight_arity_max : F.F64
  weight_arity_max = hundredths 30

  unfoldable pub arity_weight : ℕ → F.F64
  arity_weight n =
      let w = F.add weight_arity_base (F.mul (F.of_int (pos (n - 2))) weight_arity_step) in
      if ltb n 2 then zero_score else if F.lt weight_arity_max w then weight_arity_max else w

  unfoldable pub name_similarity_weight : F.F64 → F.F64
  name_similarity_weight similarity = F.mul weight_name_similarity_max similarity

  abbrev pub default_min_score : F.F64
  default_min_score = F.lit (pos 5) 1

  abbrev pub default_min_name_similarity : F.F64
  default_min_name_similarity = hundredths 30

  unfoldable pub saturate : F.F64 → F.F64
  saturate total =
      if F.lt total zero_score
      then zero_score
      else if F.lt one_score total
      then one_score
      else total

  -- `total += s.Weight`, from the left
  pub total_from : F.F64 → List Signal → F.F64
  total_from total [] = total
  total_from total (s ∷ rest) = total_from (F.add total s.weight) rest

  unfoldable pub score : List Signal → F.F64
  unfolding saturate total_from
  score signals = saturate (total_from zero_score signals)

  -- the loop of cutScore, which continues past the generic-name penalty
  pub cut_from : F.F64 → List Signal → F.F64
  cut_from total [] = total
  cut_from total (s ∷ rest) =
      cut_from (if kind_eq s.kind SignalKind.generic_domain then total else F.add total s.weight)
        rest

  unfoldable pub cut_score : Candidate → F.F64
  unfolding saturate cut_from
  cut_score c = saturate (cut_from zero_score c.signals)

  unfoldable pub rescore : Candidate → Candidate
  rescore c = record c { meta_score = score c.signals }

abbrev pub default_small_table_rows : ℕ
default_small_table_rows = 1000
