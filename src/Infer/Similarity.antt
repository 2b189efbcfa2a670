-- ===== src/Infer/Similarity.antt =====
-- internal/infer/similarity.go: trigram similarity. A set of trigrams is a list of its members,
-- each once.
pub mod Members
pub mod Dice
use pgfathom.Base.{
  ℕ, ◌+◌, Bool, ◌||◌, List, [], ◌∷◌, ◌++◌, text_eq, Float, length, any, ltb, ◌==◌, if◌then◌else◌,
  Unicode, Str, codes, str_eq, to_lower, pos,
}

pub is_member : Str → List Str → Bool
is_member t set = any (λ x. str_eq x t) set

-- set[t] = true
pub add_member : Str → List Str → List Str
unfolding is_member
add_member t set = if is_member t set then set else t ∷ set

-- the loop over padded[i:i+3]
pub add_trigrams : Str → List Str → List Str
unfolding add_member
add_trigrams (a ∷ b ∷ c ∷ rest) set = add_trigrams (b ∷ c ∷ rest) (add_member (a ∷ b ∷ c ∷ []) set)
add_trigrams _ set = set

-- the loop that counts the members of `ta` that `tb` has
pub count_shared : List Str → List Str → ℕ
unfolding is_member
count_shared [] tb = 0
count_shared (t ∷ ta) tb =
    let rest = count_shared ta tb in if is_member t tb then rest + 1 else rest

module _ ⦃u : Unicode⦄ where
  unfoldable pub trigram_set : Str → List Str
  unfolding add_trigrams
  trigram_set s = add_trigrams (codes "  " ++ (to_lower s ++ codes " ")) []

module _ ⦃F : Float⦄ where
  pub coefficient : ℕ → ℕ → F.F64
  coefficient shared total =
      F.div (F.mul (F.of_int (pos 2)) (F.of_int (pos shared))) (F.of_int (pos total))

  unfoldable pub dice : List Str → List Str → F.F64
  unfolding count_shared coefficient
  dice ta tb =
      if length ta == 0 || length tb == 0
      then F.of_int (pos 0)
      else if ltb (length tb) (length ta)
      then coefficient (count_shared tb ta) (length tb + length ta)
      else coefficient (count_shared ta tb) (length ta + length tb)

  module _ ⦃u : Unicode⦄ where
    unfoldable pub trigram_similarity : Str → Str → F.F64
    trigram_similarity a b =
        if str_eq a [] || str_eq b []
        then F.of_int (pos 0)
        else dice (trigram_set a) (trigram_set b)
