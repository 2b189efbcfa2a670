-- ===== src/Model/Coverage/Completeness.antt =====
-- internal/model/coverage.go: Coverage.Complete and Coverage.MateriallyIncomplete.
use pgfathom.Base.{
  ℕ, ◌<◌, ◌≡◌, refl, ◌↔◌, true, false, List, [], ◌∷◌, arith, text_eq, Float, length, Str, pos,
}
use pgfathom.Model.Coverage.{Coverage, complete, material_coverage, materially_incomplete}

length-zero : (l : List Str) → length l ≡ 0 → l ≡ []
length-zero [] h = refl
length-zero (s ∷ l) h = absurd (omega arith)

-- A run is complete exactly when every table in scope was analyzed, none was out of the role's
-- reach, no schema was left out of scope and no candidate ran into the time ceiling.
pub complete_iff :
    (c : Coverage)
    → (complete c ≡ true) ↔ (
        (c.tables_analyzed ≡ c.tables_total)
        × (c.tables_no_privilege ≡ [])
        × (c.schemas_not_analyzed ≡ [])
        × (c.candidates_timed_out ≡ 0))
unfolding complete
complete_iff c = (
  λ h. (
    ground arith,
    length-zero c.tables_no_privilege (ground arith),
    length-zero c.schemas_not_analyzed (ground arith),
    ground arith,
  ),
  λ (a, p, s, t). rw (a, p, s, t) (ground arith),
)

module _ ⦃F : Float⦄ where
  whole_share :
      (n : ℕ) → 0 < n → F.lt (F.div (F.of_int (pos n)) (F.of_int (pos n))) material_coverage ≡ false
  whole_share n h =
      rw (F.div_self n h, F.of_int-lit)
        (F.not_lt_of_le material_coverage (F.lit (pos 1) 0) (F.le-lit 80 1 2 0 (omega arith)))

  -- A complete run is never called materially incomplete.
  pub complete-materially_incomplete :
      (c : Coverage) → complete c ≡ true → materially_incomplete c ≡ false
  unfolding materially_incomplete
  complete-materially_incomplete c h =
      let (all_analyzed, _, _, _) = (complete_iff c).0 h in
      ground (arith, whole_share c.tables_total)
