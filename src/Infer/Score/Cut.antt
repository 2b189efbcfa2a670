-- ===== src/Infer/Score/Cut.antt =====
-- internal/infer/score.go: cutScore beside score.
use pgfathom.Base.{
  ◌≡◌, refl, ap, ◌∙◌, inl, inr, false, List, [], ◌∷◌, arith, text_eq, Float, any, if◌then◌else◌,
  Bool-cases,
}
use pgfathom.Model.Candidate.{SignalKind, Signal, Candidate, kind_eq, has_signal}
use pgfathom.Infer.Score.{zero_score, saturate, total_from, score, cut_from, cut_score, rescore}

module _ ⦃F : Float⦄ where
  -- The signals without the generic-name penalties.
  abbrev pub without_generic : List Signal → List Signal
  without_generic [] = []
  without_generic (s ∷ rest) =
      let kept = without_generic rest in
      if kind_eq s.kind SignalKind.generic_domain then kept else s ∷ kept

  cut_from-total_from :
      (total : F.F64) (signals : List Signal)
      → cut_from total signals ≡ total_from total (without_generic signals)
  unfolding cut_from total_from
  cut_from-total_from total [] = refl
  cut_from-total_from total (s ∷ rest) =
      elim (Bool-cases (kind_eq s.kind SignalKind.generic_domain)) [
        | inl e ↦ rw e (cut_from-total_from total rest)
        | inr e ↦ rw e (cut_from-total_from (F.add total s.weight) rest)
      ]

  -- The threshold sees the score that the candidate would report had the generic-name penalty never
  -- fired.
  pub cut_score-score : (c : Candidate) → cut_score c ≡ score (without_generic c.signals)
  unfolding cut_score score
  cut_score-score c = ap saturate (cut_from-total_from zero_score c.signals)

  without_generic_id :
      (signals : List Signal)
      → any (λ s. kind_eq s.kind SignalKind.generic_domain) signals ≡ false
      → without_generic signals ≡ signals
  without_generic_id [] h = refl
  without_generic_id (s ∷ rest) h = ground (arith, without_generic_id rest)

  -- A candidate with no generic-name penalty is cut by the score it reports, once that is
  -- recomputed from its signals.
  pub cut_score-meta_score :
      (c : Candidate)
      → has_signal c SignalKind.generic_domain ≡ false
      → cut_score c ≡ (rescore c).meta_score
  unfolding has_signal rescore
  cut_score-meta_score c h = cut_score-score c ∙ ap score (without_generic_id c.signals h)
