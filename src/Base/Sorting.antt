-- ===== src/Base/Sorting.antt =====
-- sort.SliceStable, as insertion from the last item to the first, each in front of the items that are
-- not less than it, so that items that are alike keep their order.
use mathlib.Core.Logic.{inl, inr}
use mathlib.Core.Path.{◌≡◌}
use mathlib.Core.Bool.{Bool, true, false}
use mathlib.Core.List.{List, [], ◌∷◌, Perm}
use mathlib.Core.List.Perm
use pgfathom.Base.Lists.{All}
use pgfathom.Base.Tests.{if◌then◌else◌, Bool-cases}

module _ {A : Type 0} (less : A → A → Bool) where
  -- in front of the items that are not less than `x`
  pub insert : A → List A → List A
  insert x [] = x ∷ []
  insert x (y ∷ ys) = let rest = insert x ys in if less y x then y ∷ rest else x ∷ y ∷ ys

  unfoldable pub sort_stable : List A → List A
  unfolding insert
  sort_stable [] = []
  sort_stable (x ∷ xs) = insert x (sort_stable xs)

  insert-Perm : (x : A) (xs : List A) → Perm (x ∷ xs) (insert x xs)
  unfolding insert
  insert-Perm x [] = Perm.refl (x ∷ [])
  insert-Perm x (y ∷ ys) = elim (Bool-cases (less y x)) [
    | inl e ↦ rw e (Perm.trans (Perm.swap y x ys) (Perm.cons y (insert-Perm x ys)))
    | inr e ↦ rw e (Perm.refl (x ∷ y ∷ ys))
  ]

  -- Sorting loses nothing and adds nothing.
  pub sort_stable-Perm : (xs : List A) → Perm xs (sort_stable xs)
  unfolding sort_stable
  sort_stable-Perm [] = Perm.nil
  sort_stable-Perm (x ∷ xs) =
      Perm.trans (Perm.cons x (sort_stable-Perm xs)) (insert-Perm x (sort_stable xs))

  insert-All : (P : A → Type 0) (x : A) (xs : List A) → P x → All P xs → All P (insert x xs)
  unfolding insert
  insert-All P x [] p h = (p, tt)
  insert-All P x (y ∷ ys) p (q, h) = elim (Bool-cases (less y x)) [
    | inl e ↦ rw e (q, insert-All P x ys p h)
    | inr e ↦ rw e (p, (q, h))
  ]

  pub sort_stable-All : (P : A → Type 0) (xs : List A) → All P xs → All P (sort_stable xs)
  unfolding sort_stable
  sort_stable-All P [] h = tt
  sort_stable-All P (x ∷ xs) (p, h) = insert-All P x (sort_stable xs) p (sort_stable-All P xs h)

  -- No item is less than the one directly in front of it.
  abbrev pub Below : A → List A → Type 0
  Below x [] = Unit
  Below x (y ∷ ys) = less y x ≡ false

  abbrev pub IsSorted : List A → Type 0
  IsSorted [] = Unit
  IsSorted (x ∷ xs) = Below x xs × IsSorted xs

  module _ (asymm : (x y : A) → less x y ≡ true → less y x ≡ false) where
    Below-insert : (x y : A) (ys : List A) → less y x ≡ true → Below y ys → Below y (insert x ys)
    unfolding insert
    Below-insert x y [] e b = asymm y x e
    Below-insert x y (z ∷ ys) e b = elim (Bool-cases (less z x)) [
      | inl f ↦ rw f b
      | inr f ↦ rw f (asymm y x e)
    ]

    insert-IsSorted : (x : A) (xs : List A) → IsSorted xs → IsSorted (insert x xs)
    unfolding insert
    insert-IsSorted x [] h = (tt, tt)
    insert-IsSorted x (y ∷ ys) h = elim (Bool-cases (less y x)) [
      | inl e ↦ rw e (Below-insert x y ys e h.0, insert-IsSorted x ys h.1)
      | inr e ↦ rw e (e, h)
    ]

    pub sort_stable-IsSorted : (xs : List A) → IsSorted (sort_stable xs)
    unfolding sort_stable
    sort_stable-IsSorted [] = tt
    sort_stable-IsSorted (x ∷ xs) = insert-IsSorted x (sort_stable xs) (sort_stable-IsSorted xs)
