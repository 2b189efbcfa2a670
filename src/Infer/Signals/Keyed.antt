-- ===== src/Infer/Signals/Keyed.antt =====
-- internal/infer/generate.go, resolveKeyTarget: the key of a target.
use pgfathom.Base.{◌≡◌, refl, Option, none, some, List, [], ◌∷◌, text_eq, Unicode, Str}
use pgfathom.Model.Refs.{KeyRef}
use pgfathom.Model.Table.{Column, Table, column}
use pgfathom.Infer.Signals.{Target, Resolved, at_key, skip_of, resolve_key}

module _ ⦃u : Unicode⦄ where
  -- The target's column is the only one of its table's primary key, and the table has it.
  abbrev pub IsKeyed : Target → Type 0
  IsKeyed tgt =
      (k : Str) × (tgt.table.primary_key ≡ k ∷ []) × (column tgt.table k ≡ some tgt.pk_column)

  -- A target, if there is one, is keyed and leads to this table.
  abbrev pub IsKeyedIfFound : Table → Resolved → Type 0
  IsKeyedIfFound t (Resolved.found tgt) = IsKeyed tgt × (tgt.table ≡ t)
  IsKeyedIfFound t r = Unit

  at_key-IsKeyed :
      (t : Table) (k : Str) (o : Option Column)
      → t.primary_key ≡ k ∷ []
      → column t k ≡ o
      → IsKeyedIfFound t (at_key t o)
  unfolding at_key
  at_key-IsKeyed t k none e f = tt
  at_key-IsKeyed t k (some c) e f = ((k, e, f), refl)

  pub resolve_key-IsKeyed :
      (child : KeyRef) (name : Str) (t : Table) (keys : List Str)
      → t.primary_key ≡ keys
      → IsKeyedIfFound t (resolve_key child name t keys)
  unfolding resolve_key skip_of
  resolve_key-IsKeyed child name t [] e = tt
  resolve_key-IsKeyed child name t (k ∷ []) e = at_key-IsKeyed t k (column t k) e refl
  resolve_key-IsKeyed child name t (k ∷ l ∷ rest) e = tt
