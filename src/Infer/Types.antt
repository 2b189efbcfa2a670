-- ===== src/Infer/Types.antt =====
-- internal/infer/types.go: how well a child column's type fits a target key's type.
pub mod Order
use pgfathom.Base.{
  ℕ, Bool, true, false, ◌&&◌, ◌||◌, Option, none, some, [], text_eq, leb, if◌then◌else◌, Str, codes,
  str_eq,
}

pub data TypeMatch : Type 0 where
  incompatible compatible identical : TypeMatch

pub integer_width : Str → Option ℕ
integer_width t =
    if str_eq t (codes "int2")
    then some 1
    else if str_eq t (codes "int4")
    then some 2
    else if str_eq t (codes "int8")
    then some 3
    else none

pub is_textual : Str → Bool
is_textual t = str_eq t (codes "text") || (str_eq t (codes "varchar") || str_eq t (codes "bpchar"))

-- the test on the widths, after `cw, ok := integerWidth[child]` succeeded
pub compare_widths : ℕ → Option ℕ → TypeMatch
compare_widths cw none = TypeMatch.incompatible
compare_widths cw (some pw) = if leb cw pw then TypeMatch.compatible else TypeMatch.incompatible

pub compare_families : Option ℕ → Str → Str → TypeMatch
unfolding compare_widths
compare_families (some cw) child parent = compare_widths cw (integer_width parent)
compare_families none child parent =
    if is_textual child && is_textual parent then TypeMatch.compatible else TypeMatch.incompatible

unfoldable pub compare_types : Str → Str → TypeMatch
unfolding compare_families integer_width is_textual
compare_types child parent =
    if str_eq child [] || str_eq parent []
    then TypeMatch.incompatible
    else if str_eq child parent
    then TypeMatch.identical
    else compare_families (integer_width child) child parent

unfoldable pub is_compatible : TypeMatch → Bool
is_compatible TypeMatch.incompatible = false
is_compatible TypeMatch.compatible = true
is_compatible TypeMatch.identical = true

unfoldable pub match_string : TypeMatch → Str
match_string TypeMatch.identical = codes "identical"
match_string TypeMatch.compatible = codes "compatible"
match_string TypeMatch.incompatible = codes "incompatible"
