-- ===== src/Stats/Columns.antt =====
-- internal/stats/stats.go, Stats: planner statistics by column. A column that was never added reads
-- as the zero value, which has no estimates and no bounds.
use pgfathom.Base.{
  ◌≡◌, refl, ◌∙◌, inl, inr, Bool, true, false, Option, none, some, arith, text_eq, Dict, lookup,
  put, lookup-put, Float, if◌then◌else◌, Bool-cases, pos,
}
use pgfathom.Model.Refs.{column_ref_beq_iff, ColumnRef, column_ref_eq}
use pgfathom.Model.Usage.{ColumnStats}

module _ ⦃F : Float⦄ where
  pub record ColumnEntry : Type 0 where
    pub estimates : ColumnStats
    pub has_bounds : Bool
    pub low : F.F64
    pub high : F.F64

  abbrev pub Stats : Type 0
  Stats = Dict ColumnRef ColumnEntry

  abbrev pub zero_entry : ColumnEntry
  zero_entry =
      let z = F.of_int (pos 0) in
      record {
        estimates = record { null_fraction = z; n_distinct = z; present = false };
        has_bounds = false;
        low = z;
        high = z;
      }

  -- s.columns[ref], the zero value on a missing key
  abbrev pub entry_or_zero : Option ColumnEntry → ColumnEntry
  entry_or_zero none = zero_entry
  entry_or_zero (some e) = e

  unfoldable pub entry_of : ColumnRef → Stats → ColumnEntry
  entry_of r st = entry_or_zero (lookup r st)

  unfoldable pub add : ColumnRef → ColumnStats → Stats → Stats
  add r estimates st = put r (record (entry_of r st) { estimates = estimates }) st

  unfoldable pub add_bounds : ColumnRef → F.F64 → F.F64 → Stats → Stats
  add_bounds r low high st =
      put r (record (entry_of r st) { has_bounds = true; low = low; high = high }) st

  entry-put :
      (r q : ColumnRef) (e : ColumnEntry) (st : Stats)
      → entry_of q (put r e st) ≡ (if column_ref_eq.beq r q then e else entry_of q st)
  unfolding entry_of
  entry-put r q e st = rw lookup-put (ground arith)

  entry-put_self : (r : ColumnRef) (e : ColumnEntry) (st : Stats) → entry_of r (put r e st) ≡ e
  entry-put_self r e st = rw (entry-put, (column_ref_beq_iff r r).1 refl)

  entry-put_ne :
      (r q : ColumnRef) (e : ColumnEntry) (st : Stats)
      → column_ref_eq.beq r q ≡ false
      → entry_of q (put r e st) ≡ entry_of q st
  entry-put_ne r q e st ne = rw (entry-put, ne)

  -- Once both are added, a column has the bounds and the estimates that were given for it, and no
  -- other column's entry has changed.
  pub add-add_bounds :
      (r q : ColumnRef) (estimates : ColumnStats) (low high : F.F64) (st : Stats)
      → entry_of q (add r estimates (add_bounds r low high st)) ≡ (
          if column_ref_eq.beq r q
          then record { estimates = estimates; has_bounds = true; low = low; high = high }
          else entry_of q st)
  unfolding add add_bounds
  add-add_bounds r q estimates low high st = elim (Bool-cases (column_ref_eq.beq r q)) [
    | inl e ↦ rw (e, ← (column_ref_beq_iff r q).0 e) (rw entry-put_self (rw entry-put_self refl))
    | inr e ↦ rw e (entry-put_ne r q _ _ e ∙ entry-put_ne r q _ st e)
  ]
