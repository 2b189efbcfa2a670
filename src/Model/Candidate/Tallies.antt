-- ===== src/Model/Candidate/Tallies.antt =====
-- internal/model/result.go: CandidatesByVerdict and CountByVerdict.
use pgfathom.Base.{
  ℕ, ◌+◌, ◌≡◌, refl, inl, inr, List, [], ◌∷◌, arith, text_eq, Float, length, All, Bool-cases,
}
use pgfathom.Model.Candidate.{
  Verdict, Candidate, verdict_eq, candidates_by_verdict, count_by_verdict,
}
use pgfathom.Model.Candidate.Kinds.{verdict_eq_iff}

module _ ⦃F : Float⦄ where
  -- The tally of a verdict is the number of candidates listed under it, and every candidate listed
  -- under it has it.
  pub count_by_verdict-length :
      (cs : List Candidate) (v : Verdict)
      → (count_by_verdict cs v ≡ length (candidates_by_verdict v cs))
        × All (λ c. c.verdict ≡ v) (candidates_by_verdict v cs)
  unfolding count_by_verdict candidates_by_verdict
  count_by_verdict-length [] v = (refl, tt)
  count_by_verdict-length (c ∷ cs) v = elim (Bool-cases (verdict_eq c.verdict v)) [
    | inl e ↦
        let (n, rest) = count_by_verdict-length cs v in
        rw e (omega (arith, n), ((verdict_eq_iff c.verdict v).0 e, rest))
    | inr e ↦ rw e (count_by_verdict-length cs v)
  ]

  -- The number of candidates.
  abbrev pub tally : List Candidate → ℕ
  tally cs =
      count_by_verdict cs Verdict.confirmed
      + count_by_verdict cs Verdict.broken
      + count_by_verdict cs Verdict.weak
      + count_by_verdict cs Verdict.rejected
      + count_by_verdict cs Verdict.unvalidated

  -- The tallies of the five verdicts add up to the number of candidates: none is counted twice,
  -- and none is lost.
  pub tally-length : (cs : List Candidate) → tally cs ≡ length cs
  unfolding count_by_verdict verdict_eq
  tally-length [] = refl
  tally-length (c ∷ cs) = ground (arith, tally-length cs)
