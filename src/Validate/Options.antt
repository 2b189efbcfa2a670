-- ===== src/Validate/Options.antt =====
-- internal/validate/validate.go, the options of a run, and the time ceiling of a query. A
-- time.Duration is a number of nanoseconds. `OnValidated` only draws, and is left out.
pub mod Ceiling
use pgfathom.Base.{
  ℕ, suc, ◌/◌, Bool, text_eq, Float, ℤ, pos_part, sub_ℕ, leb_ℤ, ltb_ℤ, if◌then◌else◌, pos, negsuc,
}

abbrev pub default_target_rows : ℕ
default_target_rows = 100000

abbrev pub bernoulli_ceiling : ℕ
bernoulli_ceiling = 100000

-- db.DefaultConcurrency
abbrev pub default_concurrency : ℕ
default_concurrency = 4

module _ ⦃F : Float⦄ where
  pub record Options : Type 0 where
    pub full : Bool
    pub target_rows : ℤ
    pub timeout : ℤ
    pub concurrency : ℤ
    pub seed : ℤ
    pub broken_threshold : F.F64
    pub reject_threshold : F.F64
    pub max_null_fraction : F.F64

  unfoldable pub target_rows : Options → ℕ
  target_rows o =
      if leb_ℤ o.target_rows (pos 0) then default_target_rows else pos_part o.target_rows

  unfoldable pub concurrency : Options → ℕ
  concurrency o =
      if ltb_ℤ o.concurrency (pos 1) then default_concurrency else pos_part o.concurrency

  -- a setting that is not positive means the default
  abbrev or_default : F.F64 → F.F64 → F.F64
  or_default setting default = if F.le setting (F.of_int (pos 0)) then default else setting

  unfoldable pub broken_threshold : Options → F.F64
  broken_threshold o = or_default o.broken_threshold (F.lit (pos 90) 2)

  unfoldable pub reject_threshold : Options → F.F64
  reject_threshold o = or_default o.reject_threshold (F.lit (pos 50) 2)

  unfoldable pub max_null_fraction : Options → F.F64
  max_null_fraction o = or_default o.max_null_fraction (F.lit (pos 95) 2)

-- Duration.Milliseconds truncates towards zero.
unfoldable pub milliseconds : ℤ → ℤ
milliseconds (pos n) = pos (n / 1000000)
milliseconds (negsuc n) = sub_ℕ 0 (suc n / 1000000)

unfoldable pub statement_timeout_millis : ℤ → ℤ
unfolding milliseconds
statement_timeout_millis timeout =
    let ms = milliseconds timeout in if ltb_ℤ ms (pos 1) then pos 1 else ms
