-- ===== src/Base/Dicts.antt =====
-- Decidable equality as an interface, and Go maps that the program only writes and looks up: an
-- association list whose newest entry for a key wins.
use mathlib.Core.Path.{◌≡◌, refl}
use mathlib.Core.Bool.{Bool, true}
use mathlib.Core.List.{List, [], ◌∷◌}
use mathlib.Core.Logic.{◌↔◌}
use mathlib.Core.Option.{Option, none, some}
use pgfathom.Base.Tests.{if◌then◌else◌}
use pgfathom.Base.Text.{Str, str_eq, str_eq_iff}

pub record Eq {ℓ} (A : Type ℓ) : Type ℓ where
  pub beq : A → A → Bool
  pub beq_iff : (a b : A) → (beq a b ≡ true) ↔ (a ≡ b)

instance abbrev pub text_eq : Eq Str
text_eq = record { beq = str_eq; beq_iff = str_eq_iff }

abbrev pub Dict {ℓ κ} : Type ℓ → Type κ → Type (ℓ ⊔ κ)
Dict K V = List (K × V)

module _ {ℓ κ} {K : Type ℓ} {V : Type κ} ⦃e : Eq K⦄ where
  -- v, ok := m[k]
  unfoldable pub lookup : K → Dict K V → Option V
  lookup k [] = none
  lookup k ((j, v) ∷ m) = if e.beq j k then some v else lookup k m

  -- m[k] = v
  unfoldable pub put : K → V → Dict K V → Dict K V
  put k v m = (k, v) ∷ m

  pub lookup-put :
      (j k : K) (v : V) (m : Dict K V)
      → lookup k (put j v m) ≡ (if e.beq j k then some v else lookup k m)
  unfolding lookup put
  lookup-put j k v m = refl

  pub lookup-put_self : (k : K) (v : V) (m : Dict K V) → lookup k (put k v m) ≡ some v
  unfolding lookup put
  lookup-put_self k v m = rw ((e.beq_iff k k).1 refl)
