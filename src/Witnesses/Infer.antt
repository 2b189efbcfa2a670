-- ===== src/Witnesses/Infer.antt =====
-- The theorems on inference at concrete inputs.
use pgfathom.Base.{◌≡◌, refl, ◌≢◌, ◌↔◌, ◌⊎◌, [], text_eq, Str, codes}
use pgfathom.Infer.Types.{compare_types, is_compatible}
use pgfathom.Infer.Types.Order.{Fits, Widens, Fits-iff}
use pgfathom.Infer.Score.{score, cut_score}
use pgfathom.Infer.Score.Cut.{without_generic, cut_score-score}
use pgfathom.Infer.Score.Range.{IsScore, score-IsScore}
use pgfathom.Infer.Similarity.{trigram_similarity}
use pgfathom.Infer.Similarity.Dice.{AtMostOne, trigram_similarity_comm}
use pgfathom.Witnesses.Fixed.{fixed, ascii}
use pgfathom.Witnesses.Data.{candidate}

abbrev int2 : Str
int2 = codes "int2"

abbrev int4 : Str
int4 = codes "int4"

abbrev int8 : Str
int8 = codes "int8"

Fits-iff_example : Fits int4 int8 ↔ ((int4 ≢ []) × (int8 ≢ []) × ((int4 ≡ int8) ⊎ Widens int4 int8))
Fits-iff_example = Fits-iff int4 int8

widens_once : Fits int2 int4
unfolding compare_types is_compatible
widens_once = refl

widens_twice : Fits int4 int8
unfolding compare_types is_compatible
widens_twice = refl

-- the candidate has a generic-name penalty
cut_score_example : cut_score candidate ≡ score (without_generic candidate.signals)
cut_score_example = cut_score-score candidate

score_example : IsScore (score candidate.signals) × IsScore (cut_score candidate)
score_example = score-IsScore candidate

trigram_similarity_example :
    (trigram_similarity (codes "customer") (codes "customers")
      ≡ trigram_similarity (codes "customers") (codes "customer"))
    × AtMostOne (trigram_similarity (codes "customer") (codes "customers"))
trigram_similarity_example = trigram_similarity_comm (codes "customer") (codes "customers")
