-- ===== src/Validate/Group.antt =====
-- A run's goroutines, in internal/validate/validate.go, Run: one for each index, so many in flight
-- as the limit allows, each writing its own slot, and `Wait`, which gives the first error. What the
-- group leaves behind depends on the order in which the goroutines finish: a list of indices.
pub mod Order
use pgfathom.Base.{
  ℕ, zero, suc, ◌+◌, Option, none, some, List, [], ◌∷◌, text_eq, get_elem?, ◌==◌, if◌then◌else◌,
}
use pgfathom.Validate.Session.{Failure, Result, ok, err}

-- The shared state: the slots written, how many goroutines reported, and the first error.
pub record Progress (A : Type 0) : Type 0 where
  pub slots : ℕ → Option A
  pub done : ℕ
  pub failed : Option Failure

abbrev pub start : {A : Type 0} → Progress A
start = record { slots = λ i. none; done = 0; failed = none }

abbrev first_error : Option Failure → Failure → Option Failure
first_error none e = some e
first_error (some old) e = some old

module _ {A : Type 0} where
  -- goroutine `i` finishes with its result; there is none past the last candidate
  pub finish : ℕ → Option (Result A) → Progress A → Progress A
  finish i none p = p
  finish i (some (err e)) p = record p { failed = first_error p.failed e }
  finish i (some (ok out)) p = record p {
    slots = λ j. if i == j then some out else p.slots j;
    done = p.done + 1;
  }

  -- the goroutines finish in this order
  unfoldable pub finish_all : List (Result A) → List ℕ → Progress A → Progress A
  unfolding finish
  finish_all results [] p = p
  finish_all results (i ∷ order) p = finish_all results order (finish i (get_elem? results i) p)

  -- the slots from `i` on, `n` of them
  read_slots : (ℕ → Option A) → ℕ → ℕ → List A
  read_slots slots i zero = []
  read_slots slots i (suc n) = elim (slots i) [
    | none ↦ read_slots slots (suc i) n
    | some a ↦ a ∷ read_slots slots (suc i) n
  ]

  or_first_error : Option Failure → List A → Result (List A)
  or_first_error none slots = ok slots
  or_first_error (some e) slots = err e

  -- Wait, and then the slice of results. A slot that nobody wrote holds a zero
  -- candidate in the source and is left out here: Wait returns when every goroutine has finished,
  -- and each writes its slot or fails.
  unfoldable pub wait : ℕ → Progress A → Result (List A)
  unfolding read_slots or_first_error
  wait n p = or_first_error p.failed (read_slots p.slots 0 n)
