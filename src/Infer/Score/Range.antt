-- ===== src/Infer/Score/Range.antt =====
-- internal/infer/score.go: the range of a score.
use pgfathom.Base.{ℕ, ◌-◌, ◌≡◌, inl, inr, false, arith, text_eq, Float, ltb, Bool-cases, pos}
use pgfathom.Model.Candidate.{Candidate}
use pgfathom.Infer.Score.{
  zero_score, one_score, weight_arity_max, arity_weight, saturate, score, cut_score,
  weight_arity_base, weight_arity_step,
}

module _ ⦃F : Float⦄ where
  -- Neither below 0 nor above 1. A sum that is not a number would pass both tests.
  abbrev pub IsScore : F.F64 → Type 0
  IsScore x = (F.lt x zero_score ≡ false) × (F.lt one_score x ≡ false)

  zero-IsScore : IsScore zero_score
  zero-IsScore = (
    F.lt_irrefl zero_score,
    F.not_lt_of_le zero_score one_score (F.le-of_int (pos 0) (pos 1) (omega arith)),
  )

  one-IsScore : IsScore one_score
  one-IsScore = (
    F.not_lt_of_le zero_score one_score (F.le-of_int (pos 0) (pos 1) (omega arith)),
    F.lt_irrefl one_score,
  )

  pub saturate-IsScore : (x : F.F64) → IsScore (saturate x)
  unfolding saturate
  saturate-IsScore x = elim (Bool-cases (F.lt x zero_score)) [
    | inl below ↦ rw below zero-IsScore
    | inr e ↦ elim (Bool-cases (F.lt one_score x)) [
      | inl above ↦ rw (e, above) one-IsScore
      | inr f ↦ rw (e, f) (e, f)
    ]
  ]

  -- A sum that is in range is kept as it is, so saturating twice is saturating once.
  pub saturate_idem : (x : F.F64) → saturate (saturate x) ≡ saturate x
  unfolding saturate
  saturate_idem x = let (a, b) = saturate-IsScore x in unfold saturate in rw (a, b)

  -- The score and the score that the threshold sees both lie between 0 and 1, for any signals.
  pub score-IsScore : (c : Candidate) → IsScore (score c.signals) × IsScore (cut_score c)
  unfolding score cut_score
  score-IsScore c = (saturate-IsScore _, saturate-IsScore _)

  -- The weight of an arity never passes its cap.
  pub arity_weight_capped : (n : ℕ) → F.lt weight_arity_max (arity_weight n) ≡ false
  unfolding arity_weight
  arity_weight_capped n = elim (Bool-cases (ltb n 2)) [
    | inl small ↦ rw small (
        rw F.of_int-lit
          (F.not_lt_of_le (F.lit (pos 0) 0) weight_arity_max (F.le-lit 0 30 0 2 (omega arith))))
    | inr e ↦
        elim (Bool-cases (
          F.lt weight_arity_max
            (F.add weight_arity_base (F.mul (F.of_int (pos (n - 2))) weight_arity_step)))) [
              | inl over ↦ rw (e, over) (F.lt_irrefl weight_arity_max)
              | inr f ↦ rw (e, f) f
            ]
  ]
