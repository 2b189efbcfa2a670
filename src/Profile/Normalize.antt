-- ===== src/Profile/Normalize.antt =====
-- internal/profile/normalize.go: the entity that a column names, and the forms that a table answers
-- to.
pub mod Entity
pub mod Forms
use pgfathom.Base.{
  ◌-◌, Bool, true, false, not, ◌||◌, Option, none, some, List, [], ◌∷◌, ◌++◌, text_eq, length, take,
  drop, any, ◌==◌, if◌then◌else◌, Unicode, Str, codes, str_eq, has_prefix, has_suffix, trim,
  to_lower, trim_space,
}
use pgfathom.Profile.{PluralRule, Profile}

pub data Origin : Type 0 where
  exact prefix_stripped depluralized prefix_and_depluralized : Origin

unfoldable pub origin_string : Origin → Str
origin_string Origin.exact = codes "exact"
origin_string Origin.prefix_stripped = codes "prefix_stripped"
origin_string Origin.depluralized = codes "depluralized"
origin_string Origin.prefix_and_depluralized = codes "prefix_stripped+depluralized"

unfoldable pub is_exact : Origin → Bool
is_exact Origin.exact = true
is_exact o = false

pub record Form : Type 0 where
  pub value : Str
  pub origin : Origin

-- strings.Trim(s, "_")
abbrev pub trim_underscores : Str → Str
trim_underscores s = trim (λ c. c == b'_') s

-- `trimmed`, if it is not empty up to underscores
abbrev unless_empty : Str → Option Str
unless_empty trimmed = if str_eq (trim_underscores trimmed) [] then none else some trimmed

pub trim_suffix : Str → Str → Option Str
trim_suffix name suffix =
    if str_eq suffix [] || not (has_suffix name suffix)
    then none
    else unless_empty (take (length name - length suffix) name)

pub trim_prefix : Str → Str → Option Str
trim_prefix name prefix =
    if str_eq prefix [] || not (has_prefix name prefix)
    then none
    else unless_empty (drop (length prefix) name)

abbrev pub or_later : Option Str → Option Str → Option Str
or_later none later = later
or_later (some trimmed) later = some trimmed

-- `if trimmed, ok := …; ok { …; break }`: the first that succeeds, over a list of affixes
pub first_trimmed : (Str → Str → Option Str) → Str → List Str → Option Str
first_trimmed try name [] = none
first_trimmed try name (affix ∷ rest) = or_later (try name affix) (first_trimmed try name rest)

pub or_name : Str → Option Str → Str
or_name name none = name
or_name name (some trimmed) = trimmed

-- each rule that applies, in order
pub depluralize : List PluralRule → Str → List Str
depluralize [] name = []
depluralize (rule ∷ rules) name =
    let stem = take (length name - length rule.suffix) name in
    let rest = depluralize rules name in
    if not (has_suffix name rule.suffix) || str_eq stem []
    then rest
    else (stem ++ rule.singular) ∷ rest

abbrev pub has_form : Str → List Form → Bool
has_form value forms = any (λ f. str_eq f.value value) forms

-- the closure `add`
pub add_form : List Form → Origin → Str → List Form
add_form forms origin value =
    if str_eq value [] || has_form value forms
    then forms
    else forms ++ record { value = value; origin = origin } ∷ []

pub add_forms : List Form → Origin → List Str → List Form
unfolding add_form
add_forms forms origin [] = forms
add_forms forms origin (v ∷ vs) = add_forms (add_form forms origin v) origin vs

-- after the loop over the table prefixes, with what it stripped
pub with_stripped : Profile → Str → List Form → Option Str → List Form
unfolding add_forms add_form depluralize
with_stripped p name forms none = add_forms forms Origin.depluralized (depluralize p.plural name)
with_stripped p name forms (some stripped) =
    add_forms
      (add_forms (add_form forms Origin.prefix_stripped stripped) Origin.depluralized
        (depluralize p.plural name))
      Origin.prefix_and_depluralized (depluralize p.plural stripped)

pub first_form : Str → List Form → Option Form
first_form entity [] = none
first_form entity (f ∷ fs) = if str_eq f.value entity then some f else first_form entity fs

module _ ⦃u : Unicode⦄ where
  abbrev pub folded : Str → Str
  folded name = to_lower (trim_space name)

  unfoldable pub entity_name : Profile → Str → Str
  unfolding first_trimmed or_name trim_suffix trim_prefix
  entity_name p column =
      let name = folded column in
      let base = or_name name (first_trimmed trim_suffix name p.column_suffixes) in
      if str_eq name []
      then []
      else trim_underscores (or_name base (first_trimmed trim_prefix base p.column_prefixes))

  unfoldable pub table_forms : Profile → Str → List Form
  unfolding first_trimmed trim_prefix with_stripped add_form
  table_forms p table =
      let name = folded table in
      if str_eq name []
      then []
      else with_stripped p name (add_form [] Origin.exact name)
          (first_trimmed trim_prefix name p.table_prefixes)

  unfoldable pub match_table : Profile → Str → Str → Option Form
  unfolding first_form
  match_table p entity table =
      if str_eq (folded entity) [] then none else first_form (folded entity) (table_forms p table)
