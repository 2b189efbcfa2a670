-- ===== src/Infer/Finalize.antt =====
-- internal/infer/generate.go: what inference returns, and finalize, which splits the candidates at
-- the threshold and puts everything in order.
pub mod Split
use pgfathom.Base.{
  Bool, List, [], ◌∷◌, ◌++◌, text_eq, Float, sort_stable, if◌then◌else◌, Str, codes, str_eq, str_lt,
}
use pgfathom.Model.Refs.{KeyRef, key_string}
use pgfathom.Model.Candidate.{Candidate}
use pgfathom.Infer.Score.{cut_score}

pub data SkipReason : Type 0 where
  no_key arity_mismatch partial_key ambiguous_position ambiguous_signature : SkipReason

pub record Skip : Type 0 where
  pub child : KeyRef
  pub target : Str
  pub reason : SkipReason
  pub detail : Str

pub record PolymorphicPair : Type 0 where
  pub table : Str
  pub reference_column : Str
  pub type_column : Str

-- two texts to compare by, the second where the first are the same
abbrev pub pair_lt : Str × Str → Str × Str → Bool
pair_lt (a, b) (c, d) = if str_eq a c then str_lt b d else str_lt a c

abbrev pub skip_less : Skip → Skip → Bool
skip_less a b = pair_lt (key_string a.child, a.target) (key_string b.child, b.target)

abbrev pub polymorphic_less : PolymorphicPair → PolymorphicPair → Bool
polymorphic_less a b = pair_lt (a.table, a.reference_column) (b.table, b.reference_column)

module _ ⦃F : Float⦄ where
  pub record Result : Type 0 where
    pub candidates : List Candidate
    pub discarded : List Candidate
    pub skipped : List Skip
    pub polymorphic : List PolymorphicPair

  -- the function that sortCandidates sorts by: the higher score, then the names
  abbrev pub candidate_less : Candidate → Candidate → Bool
  candidate_less a b =
      if F.eq a.meta_score b.meta_score
      then pair_lt (key_string a.child, key_string a.parent)
          (key_string b.child, key_string b.parent)
      else F.lt b.meta_score a.meta_score

  unfoldable pub sort_candidates : List Candidate → List Candidate
  sort_candidates cs = sort_stable candidate_less cs

  -- cutScore(c) >= minScore
  abbrev pub passes : F.F64 → Candidate → Bool
  passes min_score c = F.le min_score (cut_score c)

  abbrev pub refused : F.F64 → Candidate → Candidate
  refused min_score c = record c {
    reason =
        codes "score "
        ++ (F.format c.meta_score 2 ++ (codes " below threshold " ++ F.format min_score 2));
  }

  -- the loop over the candidates, with the survivors and the discarded so far
  unfoldable pub cut_loop :
      F.F64 → List Candidate → List Candidate → List Candidate → List Candidate × List Candidate
  cut_loop min_score [] survivors discarded = (survivors, discarded)
  cut_loop min_score (c ∷ cs) survivors discarded =
      let kept = cut_loop min_score cs (survivors ++ c ∷ []) discarded in
      let cut = cut_loop min_score cs survivors (discarded ++ refused min_score c ∷ []) in
      if passes min_score c then kept else cut

  unfoldable pub finalize : Result → F.F64 → Result
  unfolding cut_loop
  finalize res min_score =
      let (survivors, discarded) = cut_loop min_score res.candidates [] res.discarded in
      record {
        candidates = sort_candidates survivors;
        discarded = sort_candidates discarded;
        skipped = sort_stable skip_less res.skipped;
        polymorphic = sort_stable polymorphic_less res.polymorphic;
      }
