-- ===== src/Model/Usage.antt =====
-- internal/model/stats.go: sizes, activity counters and planner statistics. An instant
-- (time.Time) is a number of nanoseconds; Go's zero instant is the start of the year 1.
use pgfathom.Base.{
  ℕ, Bool, true, false, not, ◌||◌, Option, none, some, text_eq, Float, ℤ, ◌==◌, if◌then◌else◌, pos,
  negsuc,
}

pub record UsageCounters : Type 0 where
  pub seq_scans : ℤ
  pub idx_scans : ℤ
  pub inserts : ℤ
  pub updates : ℤ
  pub deletes : ℤ

abbrev pub Instant : Type 0
Instant = ℤ

abbrev pub zero_instant : Instant
zero_instant = negsuc 62135596799999999999

pub record UsageStats : Type 0 where
  pub counters : UsageCounters
  pub reset_at : Instant
  pub reset_known : Bool

abbrev pub new_usage_stats : UsageCounters → Instant → UsageStats
new_usage_stats c at = record { counters = c; reset_at = at; reset_known = true }

abbrev pub new_usage_stats_unknown_reset : UsageCounters → UsageStats
new_usage_stats_unknown_reset c = record {
  counters = c;
  reset_at = zero_instant;
  reset_known = false;
}

abbrev pub interpretable : UsageStats → Bool
interpretable u = u.reset_known

pub record TableStats : Type 0 where
  pub estimated_rows : ℤ
  pub total_bytes : ℤ
  pub usage : UsageStats

unfoldable pub estimated_row_count : TableStats → Option ℕ
estimated_row_count s = elim s.estimated_rows [ pos n ↦ some n | negsuc n ↦ none ]

module _ ⦃F : Float⦄ where
  pub record ColumnStats : Type 0 where
    pub null_fraction : F.F64
    pub n_distinct : F.F64
    pub present : Bool

  -- `rows` is an estimate that the caller has, so it is not negative.
  unfoldable pub estimated_distinct : ColumnStats → ℕ → Option ℤ
  estimated_distinct c rows =
      let zero = F.of_int (pos 0) in
      if not c.present || F.eq c.n_distinct zero
      then none
      else if F.lt zero c.n_distinct
      then some (F.round c.n_distinct)
      else if rows == 0
      then none
      else some (F.round (F.mul (F.neg c.n_distinct) (F.of_int (pos rows))))
