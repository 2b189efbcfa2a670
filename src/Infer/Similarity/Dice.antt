-- ===== src/Infer/Similarity/Dice.antt =====
-- internal/infer/similarity.go: dice and TrigramSimilarity.
use mathlib.Core.Path.{subst}
use pgfathom.Base.{
  ℕ, ◌+◌, ◌*◌, ◌≤◌, ◌<◌, ◌≡◌, sym, true, List, arith, text_eq, Float, length, Unicode, Str, pos,
}
use pgfathom.Infer.Similarity.{count_shared, trigram_set, coefficient, dice, trigram_similarity}
use pgfathom.Infer.Similarity.Members.{
  IsDistinct, trigram_set-IsDistinct, count_shared_comm, count_shared-le,
}

module _ ⦃F : Float⦄ where
  dice_comm : (ta tb : List Str) → IsDistinct ta → IsDistinct tb → dice ta tb ≡ dice tb ta
  unfolding dice
  dice_comm ta tb da db = ground (arith, count_shared_comm ta tb da db)

  -- `x` is a proportion: not above 1.
  abbrev pub AtMostOne : F.F64 → Type 0
  AtMostOne x = F.le x (F.of_int (pos 1)) ≡ true

  coefficient-AtMostOne : (s n : ℕ) → 2 * s ≤ n → 0 < n → AtMostOne (coefficient s n)
  unfolding coefficient
  coefficient-AtMostOne s n h p =
      subst (λ (x : F.F64). AtMostOne (F.div x (F.of_int (pos n)))) (sym (F.mul_two s))
        (rw (← F.div_self n p) (F.le-div (pos (2 * s)) (pos n) n (omega arith) p))

  dice-AtMostOne : (ta tb : List Str) → IsDistinct ta → IsDistinct tb → AtMostOne (dice ta tb)
  unfolding dice
  dice-AtMostOne ta tb da db = ground (
    arith,
    count_shared_comm ta tb da db,
    count_shared-le ta tb,
    count_shared-le tb ta,
    F.le-of_int (pos 0) (pos 1),
    coefficient-AtMostOne (count_shared ta tb) (length ta + length tb),
    coefficient-AtMostOne (count_shared tb ta) (length tb + length ta),
  )

  module _ ⦃u : Unicode⦄ where
    -- Two names are as similar as the same names the other way round, and never more than wholly
    -- similar.
    pub trigram_similarity_comm :
        (a b : Str)
        → (trigram_similarity a b ≡ trigram_similarity b a) × AtMostOne (trigram_similarity a b)
    unfolding trigram_similarity
    trigram_similarity_comm a b = (
      ground (
        arith,
        dice_comm (trigram_set a) (trigram_set b) (trigram_set-IsDistinct a)
            (trigram_set-IsDistinct b),
      ),
      ground (
        arith,
        F.le-of_int (pos 0) (pos 1),
        dice-AtMostOne (trigram_set a) (trigram_set b) (trigram_set-IsDistinct a)
            (trigram_set-IsDistinct b),
      ),
    )
