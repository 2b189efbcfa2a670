-- ===== src/Stats/Evaluate.antt =====
-- internal/stats/stats.go, Evaluate: the two checks over the candidates.
pub mod Funnel
pub mod Silence
use pgfathom.Base.{
  ℕ, ◌+◌, Bool, false, not, ◌&&◌, ◌||◌, Option, none, some, List, [], ◌∷◌, ◌++◌, itoa, format_int,
  text_eq, Dict, lookup, Float, ℤ, ltb_ℤ, length, if◌then◌else◌, is_some, Str, codes, pos,
}
use pgfathom.Model.Refs.{ColumnRef, KeyRef, column_ref_eq, table_ref, key_string, column_refs}
use pgfathom.Model.Usage.{estimated_distinct}
use pgfathom.Model.Table.{Schema, row_estimates}
use pgfathom.Model.Candidate.{SignalKind, Verdict, Candidate}
use pgfathom.Infer.Score.{rescore}
use pgfathom.Stats.Columns.{Stats, ColumnEntry, entry_of}

abbrev ref_of : KeyRef → Str
ref_of k = table_ref k.schema k.table

module _ ⦃F : Float⦄ where
  pub record Options : Type 0 where
    pub reject_factor : F.F64

  unfoldable pub reject_factor : Options → F.F64
  reject_factor o =
      if F.le o.reject_factor (F.of_int (pos 0)) then F.lit (pos 20) 1 else o.reject_factor

  abbrev pub penalty_card_violation : F.F64
  penalty_card_violation = F.neg (F.lit (pos 40) 2)

  abbrev pub penalty_range_violation : F.F64
  penalty_range_violation = F.neg (F.lit (pos 30) 2)

  pub record Result : Type 0 where
    pub kept : List Candidate
    pub rejected : List Candidate
    pub checked : ℕ
    pub no_stats : ℕ

  -- the larger of what is known so far and one more estimate
  larger : Option ℤ → Option ℤ → Option ℤ
  larger best none = best
  larger none (some n) = some n
  larger (some b) (some n) = if ltb_ℤ b n then some n else some b

  -- the estimate for one column; a column that is not there has none
  estimate_at : Option ColumnEntry → ℕ → Option ℤ
  estimate_at none rows = none
  estimate_at (some e) rows = estimated_distinct e.estimates rows

  pub best_of : Stats → ℕ → List ColumnRef → Option ℤ → Option ℤ
  unfolding larger estimate_at
  best_of st rows [] best = best
  best_of st rows (r ∷ refs) best =
      best_of st rows refs (larger best (estimate_at (lookup r st) rows))

  unfoldable pub lower_bound_distinct : KeyRef → ℕ → Stats → Option ℤ
  unfolding best_of
  lower_bound_distinct key rows st = best_of st rows (column_refs key) none

  -- one position's bounds cannot overlap
  disjoint_at : ColumnEntry → ColumnEntry → Bool
  disjoint_at child parent =
      child.has_bounds
      && (parent.has_bounds && (F.lt parent.high child.low || F.lt child.high parent.low))

  -- the loop stops at the end of the shorter key
  pub any_disjoint : Stats → List ColumnRef → List ColumnRef → Bool
  unfolding disjoint_at
  any_disjoint st [] ps = false
  any_disjoint st (c ∷ cs) [] = false
  any_disjoint st (c ∷ cs) (p ∷ ps) =
      disjoint_at (entry_of c st) (entry_of p st) || any_disjoint st cs ps

  unfoldable pub range_disjoint : Stats → Candidate → Bool
  unfolding any_disjoint
  range_disjoint st c = any_disjoint st (column_refs c.child) (column_refs c.parent)

  pub no_stats_detail : Candidate → Bool → Bool → Str
  no_stats_detail c distinct_ok parent_ok =
      if not distinct_ok && not parent_ok
      then codes "no usable statistics for "
        ++ (ref_of c.child ++ (codes " or " ++ ref_of c.parent))
      else if not distinct_ok
      then codes "no usable statistics for " ++ key_string c.child
      else codes "no row estimate for " ++ ref_of c.parent

  pub data Outcome : Type 0 where
    kept rejected no_stats : Outcome

  -- c.Signals = append(c.Signals, …) and then infer.Rescore(&c)
  abbrev pub penalise : SignalKind → F.F64 → Candidate → Candidate
  penalise kind weight c = rescore (record c {
    signals = c.signals ++ record { kind = kind; weight = weight; detail = ref_of c.parent } ∷ [];
  })

  abbrev pub mark_silent : Bool → Bool → Candidate → Candidate
  mark_silent distinct_ok parent_ok c = record c {
    signals =
        c.signals
        ++ record {
          kind = SignalKind.stats_unavailable;
          weight = F.of_int (pos 0);
          detail = no_stats_detail c distinct_ok parent_ok;
        }
          ∷ [];
  }

  impossible_reason : Candidate → ℤ → ℕ → Str
  impossible_reason c distinct parent_rows =
      codes "estimated distinct values in "
      ++ (key_string c.child
          ++ (codes " (~"
              ++ (format_int distinct
                  ++ (codes ") exceed estimated rows in "
                      ++ (ref_of c.parent
                          ++ (codes " (~"
                              ++ (itoa parent_rows
                                  ++ codes
                                      ") beyond tolerance; total containment is arithmetically impossible")))))))

  -- the range check, which penalises and never rejects
  check_range : Stats → Candidate → Candidate × Outcome
  check_range st c = (
    if range_disjoint st c
        then penalise SignalKind.range_violation penalty_range_violation c
        else c,
    Outcome.kept,
  )

  -- both ends of the arithmetic are known
  check_cardinality : Stats → F.F64 → Candidate → ℤ → ℕ → Candidate × Outcome
  unfolding impossible_reason check_range
  check_cardinality st factor c distinct parent_rows =
      let penalised = penalise SignalKind.card_violation penalty_card_violation c in
      if ltb_ℤ (pos parent_rows) distinct
      then if F.lt (F.mul factor (F.of_int (pos parent_rows))) (F.of_int distinct)
        then (
          record penalised {
            verdict = Verdict.rejected;
            reason = impossible_reason c distinct parent_rows;
          },
          Outcome.rejected,
        )
        else check_range st penalised
      else check_range st c

  evaluate_with : Stats → F.F64 → Candidate → Option ℤ → Option ℕ → Candidate × Outcome
  unfolding check_cardinality
  evaluate_with st factor c (some distinct) (some parent_rows) =
      check_cardinality st factor c distinct parent_rows
  evaluate_with st factor c distinct parent_rows =
      (mark_silent (is_some distinct) (is_some parent_rows) c, Outcome.no_stats)

  distinct_of : Stats → KeyRef → Option ℕ → Option ℤ
  distinct_of st child none = none
  distinct_of st child (some rows) = lower_bound_distinct child rows st

  unfoldable pub evaluate_one : Candidate → Dict Str ℕ → Stats → F.F64 → Candidate × Outcome
  unfolding evaluate_with distinct_of
  evaluate_one c rows st factor =
      evaluate_with st factor c (distinct_of st c.child (lookup (ref_of c.child) rows))
        (lookup (ref_of c.parent) rows)

  -- Result.add
  pub add_outcome : Candidate × Outcome → Result → Result
  add_outcome (c, rejected) r = record r { rejected = r.rejected ++ c ∷ [] }
  add_outcome (c, no_stats) r = record r { no_stats = r.no_stats + 1; kept = r.kept ++ c ∷ [] }
  add_outcome (c, kept) r = record r { kept = r.kept ++ c ∷ [] }

  pub evaluate_loop : Dict Str ℕ → Stats → F.F64 → List Candidate → Result → Result
  unfolding add_outcome
  evaluate_loop rows st factor [] r = r
  evaluate_loop rows st factor (c ∷ cs) r =
      evaluate_loop rows st factor cs (add_outcome (evaluate_one c rows st factor) r)

  unfoldable pub evaluate : List Schema → List Candidate → Stats → Options → Result
  unfolding evaluate_loop
  evaluate schemas cs st opts =
      evaluate_loop (row_estimates schemas) st (reject_factor opts) cs
        (record { kept = []; rejected = []; checked = length cs; no_stats = 0 })
