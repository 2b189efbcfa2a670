-- ===== src/Infer/Keys/Fit.antt =====
-- internal/infer/composite.go, compareKeys: what a verdict on a whole key says of its positions.
use pgfathom.Base.{
  ◌≡◌, inl, inr, none, some, List, [], ◌∷◌, arith, text_eq, length, ◌==◌, ==_iff, Bool-cases,
}
use pgfathom.Model.Table.{Column}
use pgfathom.Infer.Types.{TypeMatch, compare_types, is_compatible}
use pgfathom.Infer.Types.Order.{Fits}
use pgfathom.Infer.Keys.{compare_loop, compare_keys, worse}

-- The two keys have the same number of columns, and each child column fits its counterpart.
abbrev pub FitsAll : List Column → List Column → Type 0
FitsAll [] [] = Unit
FitsAll [] (p ∷ ps) = ⊥
FitsAll (c ∷ cs) [] = ⊥
FitsAll (c ∷ cs) (p ∷ ps) = Fits c.base_type p.base_type × FitsAll cs ps

compare_loop-FitsAll :
    (worst m : TypeMatch) (cs ps : List Column)
    → length cs ≡ length ps
    → compare_loop worst cs ps ≡ some m
    → FitsAll cs ps
unfolding compare_loop
compare_loop-FitsAll worst m [] [] l h = tt
compare_loop-FitsAll worst m [] (p ∷ ps) l h = absurd (omega arith)
compare_loop-FitsAll worst m (c ∷ cs) [] l h = absurd (omega arith)
compare_loop-FitsAll worst m (c ∷ cs) (p ∷ ps) l h =
    let t = compare_types c.base_type p.base_type in
    elim (Bool-cases (is_compatible t)) [
      | inl e ↦ (e, compare_loop-FitsAll (worse t worst) m cs ps (omega arith) (rw e at h))
      | inr e ↦ absurd (none_some (rw e at h))
    ]
  where
    none_some : none ≡ some m → ⊥
    none_some k = cc k

pub compare_keys-FitsAll :
    (cs ps : List Column) (m : TypeMatch) → compare_keys cs ps ≡ some m → FitsAll cs ps
unfolding compare_keys
compare_keys-FitsAll cs ps m h = elim (Bool-cases (length cs == length ps)) [
  | inl e ↦
      compare_loop-FitsAll TypeMatch.identical m cs ps ((==_iff (length cs) (length ps)).0 e)
        (rw e at h)
  | inr e ↦ absurd (none_some (rw e at h))
]
  where
    none_some : none ≡ some m → ⊥
    none_some k = cc k
