-- ===== src/Infer/Keys.antt =====
-- internal/infer/composite.go, the helpers on keys: columns by name, the type verdict of a whole key,
-- and the names and types of columns.
pub mod Fit
use pgfathom.Base.{
  ℕ, Bool, true, false, not, ◌&&◌, Option, none, some, List, [], ◌∷◌, map, text_eq, length, all,
  ltb, ◌==◌, if◌then◌else◌, Unicode, Str, codes, equal_fold,
}
use pgfathom.Model.Refs.{join}
use pgfathom.Model.Table.{Column, Table, column}
use pgfathom.Infer.Types.{TypeMatch, compare_types, is_compatible}

-- the column, in front of the others, if both are there
abbrev pub with_column : Option Column → Option (List Column) → Option (List Column)
with_column none rest = none
with_column (some c) none = none
with_column (some c) (some cs) = some (c ∷ cs)

module _ ⦃u : Unicode⦄ where
  unfoldable pub key_columns : Table → List Str → Option (List Column)
  key_columns t [] = some []
  key_columns t (name ∷ names) = with_column (column t name) (key_columns t names)

  unfoldable pub same_names : List Str → List Str → Bool
  same_names [] [] = true
  same_names (a ∷ xs) (b ∷ ys) = equal_fold a b && same_names xs ys
  same_names xs ys = false

-- the order of the constants: TypeIncompatible, TypeCompatible, TypeIdentical
abbrev pub match_rank : TypeMatch → ℕ
match_rank TypeMatch.incompatible = 0
match_rank TypeMatch.compatible = 1
match_rank TypeMatch.identical = 2

abbrev pub worse : TypeMatch → TypeMatch → TypeMatch
worse m worst = if ltb (match_rank m) (match_rank worst) then m else worst

-- the loop of compareKeys, over keys of one length
pub compare_loop : TypeMatch → List Column → List Column → Option TypeMatch
compare_loop worst [] ps = some worst
compare_loop worst (c ∷ cs) [] = some worst
compare_loop worst (c ∷ cs) (p ∷ ps) =
    let m = compare_types c.base_type p.base_type in
    let rest = compare_loop (worse m worst) cs ps in if is_compatible m then rest else none

unfoldable pub compare_keys : List Column → List Column → Option TypeMatch
unfolding compare_loop
compare_keys child parent =
    if length child == length parent then compare_loop TypeMatch.identical child parent else none

abbrev pub column_names : List Column → List Str
column_names cs = map (λ (c : Column). c.name) cs

abbrev pub base_types : List Column → Str
base_types cs = join (codes ", ") (map (λ (c : Column). c.base_type) cs)

abbrev pub none_nullable : List Column → Bool
none_nullable cs = all (λ (c : Column). not c.nullable) cs
