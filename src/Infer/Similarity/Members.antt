-- ===== src/Infer/Similarity/Members.antt =====
-- internal/infer/similarity.go: sets as lists, and how many members two of them share.
use pgfathom.Base.{
  ℕ, ◌+◌, ◌≤◌, ◌≡◌, refl, inl, inr, Bool, true, false, List, [], ◌∷◌, ◌++◌, arith, text_eq, length,
  Bool-cases, Unicode, Str, codes, str_eq_iff, to_lower,
}
use pgfathom.Infer.Similarity.{is_member, add_member, add_trigrams, count_shared, trigram_set}

-- Every member stands once.
abbrev pub IsDistinct : List Str → Type 0
IsDistinct [] = Unit
IsDistinct (t ∷ rest) = (is_member t rest ≡ false) × IsDistinct rest

add_member-IsDistinct : (t : Str) (set : List Str) → IsDistinct set → IsDistinct (add_member t set)
unfolding add_member
add_member-IsDistinct t set h = elim (Bool-cases (is_member t set)) [
  | inl e ↦ rw e h
  | inr e ↦ rw e (e, h)
]

add_trigrams-IsDistinct :
    (s : Str) (set : List Str) → IsDistinct set → IsDistinct (add_trigrams s set)
unfolding add_trigrams
add_trigrams-IsDistinct (a ∷ b ∷ c ∷ rest) set h =
    add_trigrams-IsDistinct (b ∷ c ∷ rest) _ (add_member-IsDistinct (a ∷ b ∷ c ∷ []) set h)
add_trigrams-IsDistinct _ set h = h

pub trigram_set-IsDistinct : ⦃u : Unicode⦄ (s : Str) → IsDistinct (trigram_set s)
unfolding trigram_set
trigram_set-IsDistinct s = add_trigrams-IsDistinct (codes "  " ++ (to_lower s ++ codes " ")) [] tt

abbrev one_if : Bool → ℕ
one_if true = 1
one_if false = 0

count_shared-cons :
    (y : Str) (ys xs : List Str)
    → is_member y ys ≡ false
    → IsDistinct xs
    → count_shared xs (y ∷ ys) ≡ count_shared xs ys + one_if (is_member y xs)
unfolding count_shared is_member
count_shared-cons y ys [] h d = refl
count_shared-cons y ys (x ∷ xs) h (dx, d) =
    ground (arith, count_shared-cons y ys xs h d, str_eq_iff x y, str_eq_iff y x)

count_shared-nil : (xs : List Str) → count_shared xs [] ≡ 0
unfolding count_shared is_member
count_shared-nil [] = refl
count_shared-nil (x ∷ xs) = count_shared-nil xs

-- Two sets share as many members whichever of them is walked.
pub count_shared_comm :
    (xs ys : List Str) → IsDistinct xs → IsDistinct ys → count_shared xs ys ≡ count_shared ys xs
unfolding count_shared
count_shared_comm xs [] dx dy = count_shared-nil xs
count_shared_comm xs (y ∷ ys) dx (h, dy) =
    ground (arith, count_shared-cons y ys xs h dx, count_shared_comm xs ys dx dy)

pub count_shared-le : (xs ys : List Str) → count_shared xs ys ≤ length xs
unfolding count_shared
count_shared-le [] ys = omega arith
count_shared-le (x ∷ xs) ys = ground (arith, count_shared-le xs ys)
