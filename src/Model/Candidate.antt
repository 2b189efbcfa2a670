-- ===== src/Model/Candidate.antt =====
-- internal/model/candidate.go and internal/model/result.go: signals, verdicts, validations and
-- candidates, and what a run says of its candidates. The counts of a Validation are those of
-- `count(*)` and of sums of such counts, so they are natural numbers.
pub mod Kinds
pub mod Tallies
use pgfathom.Base.{
  ℕ, ◌+◌, Bool, true, false, not, ◌||◌, Option, none, some, List, [], ◌∷◌, text_eq, Float, ℤ, sub_ℕ,
  any, ◌==◌, if◌then◌else◌, Str, codes, str_eq, pos,
}
use pgfathom.Model.Refs.{KeyRef}

pub data SignalKind : Type 0 where
  exact_name normalized_name name_similarity : SignalKind
  identical_type compatible_type : SignalKind
  unique_target ambiguous_target : SignalKind
  composite_arity : SignalKind
  child_indexed comment_mention not_null : SignalKind
  join_in_view join_in_function join_in_statements : SignalKind
  generic_domain range_violation card_violation : SignalKind
  stats_unavailable : SignalKind

-- The strings that the constants stand for.
abbrev pub kind_name : SignalKind → Str
kind_name SignalKind.exact_name = codes "exact_name"
kind_name SignalKind.normalized_name = codes "normalized_name"
kind_name SignalKind.name_similarity = codes "name_similarity"
kind_name SignalKind.identical_type = codes "identical_type"
kind_name SignalKind.compatible_type = codes "compatible_type"
kind_name SignalKind.unique_target = codes "unique_target"
kind_name SignalKind.ambiguous_target = codes "ambiguous_target"
kind_name SignalKind.composite_arity = codes "composite_arity"
kind_name SignalKind.child_indexed = codes "child_indexed"
kind_name SignalKind.comment_mention = codes "comment_mention"
kind_name SignalKind.not_null = codes "not_null"
kind_name SignalKind.join_in_view = codes "join_in_view"
kind_name SignalKind.join_in_function = codes "join_in_function"
kind_name SignalKind.join_in_statements = codes "join_in_statements"
kind_name SignalKind.generic_domain = codes "generic_domain_name"
kind_name SignalKind.range_violation = codes "stats_range_violation"
kind_name SignalKind.card_violation = codes "stats_cardinality_violation"
kind_name SignalKind.stats_unavailable = codes "stats_unavailable"

-- `==` on two kinds compares those strings.
unfoldable pub kind_eq : SignalKind → SignalKind → Bool
kind_eq k l = str_eq (kind_name k) (kind_name l)

pub data Verdict : Type 0 where
  confirmed broken weak rejected unvalidated : Verdict

abbrev pub verdict_name : Verdict → Str
verdict_name Verdict.confirmed = codes "confirmed"
verdict_name Verdict.broken = codes "broken"
verdict_name Verdict.weak = codes "weak"
verdict_name Verdict.rejected = codes "rejected"
verdict_name Verdict.unvalidated = codes "unvalidated"

unfoldable pub verdict_eq : Verdict → Verdict → Bool
verdict_eq v w = str_eq (verdict_name v) (verdict_name w)

pub data ValidationMethod : Type 0 where
  full sampled : ValidationMethod

abbrev pub is_full : ValidationMethod → Bool
is_full ValidationMethod.full = true
is_full ValidationMethod.sampled = false

pub record Validation : Type 0 where
  pub method : ValidationMethod
  pub sampled_rows : ℕ
  pub not_null_rows : ℕ
  pub distinct_vals : ℕ
  pub partial_null_rows : ℕ
  pub orphan_rows : ℕ
  pub orphan_vals : ℕ
  pub max_rows_per_value : ℕ
  pub duration : ℤ

unfoldable pub conclusive : Validation → Bool
conclusive v = is_full v.method

module _ ⦃F : Float⦄ where
  -- the proportion of `whole` that `missing` leaves, or 0 where there is nothing
  abbrev share_present : ℕ → ℕ → F.F64
  share_present whole missing =
      if whole == 0
      then F.of_int (pos 0)
      else F.div (F.of_int (sub_ℕ whole missing)) (F.of_int (pos whole))

  unfoldable pub containment_rows : Validation → F.F64
  containment_rows v = share_present v.not_null_rows v.orphan_rows

  unfoldable pub containment_vals : Validation → F.F64
  containment_vals v = share_present v.distinct_vals v.orphan_vals

  pub record Signal : Type 0 where
    pub kind : SignalKind
    pub weight : F.F64
    pub detail : Str

  pub record Candidate : Type 0 where
    pub child : KeyRef
    pub parent : KeyRef
    pub signals : List Signal
    pub meta_score : F.F64
    pub validation : Option Validation
    pub verdict : Verdict
    pub reason : Str

  unfoldable pub has_signal : Candidate → SignalKind → Bool
  has_signal c k = any (λ s. kind_eq s.kind k) c.signals

  unfoldable pub evidenced_by_usage : Candidate → Bool
  evidenced_by_usage c =
      has_signal c SignalKind.join_in_view
      || (has_signal c SignalKind.join_in_function || has_signal c SignalKind.join_in_statements)

  unfoldable pub candidates_by_verdict : Verdict → List Candidate → List Candidate
  candidates_by_verdict v [] = []
  candidates_by_verdict v (c ∷ cs) =
      let rest = candidates_by_verdict v cs in if verdict_eq c.verdict v then c ∷ rest else rest

  abbrev was_sampled : Option Validation → Bool
  was_sampled none = false
  was_sampled (some v) = not (is_full v.method)

  unfoldable pub sampled_run : List Candidate → Bool
  sampled_run cs = any (λ c. was_sampled c.validation) cs

  -- CountByVerdict: the tally of one verdict after the loop; a Go map has 0 for a missing key.
  unfoldable pub count_by_verdict : List Candidate → Verdict → ℕ
  count_by_verdict [] v = 0
  count_by_verdict (c ∷ cs) v =
      let rest = count_by_verdict cs v in if verdict_eq c.verdict v then rest + 1 else rest
