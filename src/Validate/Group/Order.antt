-- ===== src/Validate/Group/Order.antt =====
-- internal/validate/validate.go, Run: the order in which the goroutines finish.
use pgfathom.Base.{
  ℕ, zero, suc, ◌+◌, ◌<◌, ◌≡◌, refl, sym, ap, ◌∙◌, inl, inr, Bool, true, Option, none, some, List,
  [], ◌∷◌, map, arith, text_eq, length, get_elem?, any, ◌==◌, if◌then◌else◌, ==_iff, Bool-cases,
  Option-cases, true≢false,
}
use pgfathom.Validate.Session.{Result, ok}
use pgfathom.Validate.Group.{err, Failure, Progress, start, finish, finish_all, read_slots, wait}

-- The goroutine `i` is among those that finish.
abbrev pub finishes : ℕ → List ℕ → Bool
finishes i order = any (λ j. j == i) order

-- Every one of the goroutines finishes: an order in which each stands at least once.
abbrev pub Covers : List ℕ → ℕ → Type 0
Covers order n = (i : ℕ) → i < n → finishes i order ≡ true

module _ {A : Type 0} where
  abbrev pub oks : List A → List (Result A)
  oks = map ok

  abbrev as_ok : Option A → Option (Result A)
  as_ok none = none
  as_ok (some a) = some (ok a)

  get_elem?-oks : (outs : List A) (i : ℕ) → get_elem? (oks outs) i ≡ as_ok (get_elem? outs i)
  get_elem?-oks [] i = refl
  get_elem?-oks (a ∷ outs) zero = refl
  get_elem?-oks (a ∷ outs) (suc i) = get_elem?-oks outs i

  slots-finish :
      (o : Option A) (i j : ℕ) (p : Progress A) (a : A)
      → (i ≡ j → o ≡ some a)
      → (finish i (as_ok o) p).slots j ≡ (if i == j then some a else p.slots j)
  unfolding finish
  slots-finish none i j p a h = ground (arith, h)
  slots-finish (some b) i j p a h = ground (arith, h)

  slots_after :
      (outs : List A) (order : List ℕ) (p : Progress A) (j : ℕ) (a : A)
      → get_elem? outs j ≡ some a
      → (finish_all (oks outs) order p).slots j ≡ (if finishes j order then some a else p.slots j)
  slots_after outs [] p j a h = unfold finish_all in refl
  slots_after outs (i ∷ order) p j a h =
      slots_step outs i order p j a
        (slots_after outs order (finish i (get_elem? (oks outs) i) p) j a h)
        (rw (get_elem?-oks outs i) (slots-finish (get_elem? outs i) i j p a (λ e. rw e h)))
    where
      slots_step :
          (outs : List A) (i : ℕ) (order : List ℕ) (p : Progress A) (j : ℕ) (a : A)
          → (finish_all (oks outs) order (finish i (get_elem? (oks outs) i) p)).slots j
            ≡ (if finishes j order then some a else (finish i (get_elem? (oks outs) i) p).slots j)
          → (finish i (get_elem? (oks outs) i) p).slots j ≡ (if i == j then some a else p.slots j)
          → (finish_all (oks outs) (i ∷ order) p).slots j
            ≡ (if finishes j (i ∷ order) then some a else p.slots j)
      slots_step outs i order p j a ih st = unfold finish_all in ground arith

  failed-finish : (o : Option A) (i : ℕ) (p : Progress A) → (finish i (as_ok o) p).failed ≡ p.failed
  unfolding finish
  failed-finish none i p = refl
  failed-finish (some a) i p = refl

  failed_after :
      (outs : List A) (order : List ℕ) (p : Progress A)
      → (finish_all (oks outs) order p).failed ≡ p.failed
  unfolding finish_all
  failed_after outs [] p = refl
  failed_after outs (i ∷ order) p =
      failed_after outs order _ ∙ rw (get_elem?-oks outs i) (failed-finish (get_elem? outs i) i p)

  -- Slots that hold a list from `i` on are read back as that list.
  read_slots_all :
      (slots : ℕ → Option A) (outs : List A) (i : ℕ)
      → ((j : ℕ) (a : A) → get_elem? outs j ≡ some a → slots (i + j) ≡ some a)
      → read_slots slots i (length outs) ≡ outs
  unfolding read_slots
  read_slots_all slots [] i h = refl
  read_slots_all slots (a ∷ outs) i h =
      rw (here, read_slots)
        (ap (λ (rest : List A). a ∷ rest)
          (read_slots_all slots outs (suc i) (λ j b e. rw (shift j) (h (suc j) b e))))
    where
      shift : (j : ℕ) → suc i + j ≡ i + suc j
      shift j = omega arith

      zero_lem : i + 0 ≡ i
      zero_lem = omega arith

      here : slots i ≡ some a
      here = rw zero_lem at (h zero a refl)

  get_elem?-lt : (outs : List A) (j : ℕ) (a : A) → get_elem? outs j ≡ some a → j < length outs
  get_elem?-lt [] j a h = cc
  get_elem?-lt (b ∷ outs) zero a h = omega arith
  get_elem?-lt (b ∷ outs) (suc j) a h = omega (arith, get_elem?-lt outs j a h)

  -- If every goroutine succeeds, the group returns the results in the order of the candidates,
  -- whatever the order in which the goroutines finished.
  pub wait-finish_all :
      (outs : List A) (order : List ℕ)
      → Covers order (length outs)
      → wait (length outs) (finish_all (oks outs) order start) ≡ ok outs
  unfolding wait
  wait-finish_all outs order covers =
      rw (failed_after outs order start)
        (ap ok (read_slots_all _ outs 0 (λ j a e. rw zero_add (slot j a e))))
    where
      zero_add : {j : ℕ} → 0 + j ≡ j
      zero_add = omega arith

      slot :
          (j : ℕ) (a : A)
          → get_elem? outs j ≡ some a
          → (finish_all (oks outs) order start).slots j ≡ some a
      slot j a e = slots_after outs order start j a e ∙ rw (covers j (get_elem?-lt outs j a e))

  -- The first error stays.
  failed_stays :
      (results : List (Result A)) (order : List ℕ) (p : Progress A) (e : Failure)
      → p.failed ≡ some e
      → (finish_all results order p).failed ≡ some e
  unfolding finish_all
  failed_stays results [] p e h = h
  failed_stays results (i ∷ order) p e h =
      failed_stays results order (finish i (get_elem? results i) p) e (keep (get_elem? results i) h)
    where
      keep : (o : Option (Result A)) → p.failed ≡ some e → (finish i o p).failed ≡ some e
      keep none h = unfold finish in h
      keep (some (ok a)) h = unfold finish in h
      keep (some (err f)) h = unfold finish in rw h refl

  failed-finish_err :
      (e : Failure) (i : ℕ) (p : Progress A)
      → (f : Failure) × ((finish i (some (err e)) p).failed ≡ some f)
  unfolding finish
  failed-finish_err e i p = elim (Option-cases p.failed) [
    | inl h ↦ (e, rw h)
    | inr (f, h) ↦ (f, rw h)
  ]

  failed_found :
      (results : List (Result A)) (order : List ℕ) (p : Progress A) (i : ℕ) (e : Failure)
      → get_elem? results i ≡ some (err e)
      → finishes i order ≡ true
      → (f : Failure) × ((finish_all results order p).failed ≡ some f)
  unfolding finish_all
  failed_found results [] p i e h c = absurd (true≢false (sym c))
  failed_found results (j ∷ order) p i e h c = elim (Bool-cases (j == i)) [
    | inl same ↦
        let (f, here) = failed-finish_err e j p in
        (
          f,
          failed_stays results order (finish j (get_elem? results j) p) f
              (rw ((==_iff j i).0 same, h) (rw ((==_iff j i).0 same) at here)),
        )
    | inr other ↦
        failed_found results order (finish j (get_elem? results j) p) i e h (rw other at c)
  ]

  -- If a goroutine that finishes has failed, the group returns an error and no result, whatever the
  -- order and whatever the others did.
  pub wait_fails :
      (results : List (Result A)) (order : List ℕ) (n i : ℕ) (e : Failure)
      → get_elem? results i ≡ some (err e)
      → finishes i order ≡ true
      → (f : Failure) × (wait n (finish_all results order start) ≡ err f)
  unfolding wait
  wait_fails results order n i e h c =
      let (f, failed) = failed_found results order start i e h c in (f, rw failed)
