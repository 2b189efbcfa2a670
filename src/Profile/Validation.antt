-- ===== src/Profile/Validation.antt =====
-- internal/profile/profile.go, Validate: the profiles that would misbehave silently. An error is a
-- value of a type of its own in place of its text; none is the nil error.
pub mod Order
use pgfathom.Base.{
  ℕ, ◌+◌, Bool, ◌&&◌, Option, none, some, List, [], ◌∷◌, text_eq, length, any, ltb, ◌==◌,
  if◌then◌else◌, Unicode, Str, codes, str_eq, has_prefix, has_suffix, trim_space,
}
use pgfathom.Profile.{PluralRule, Profile}

pub data ProfileError : Type 0 where
  name_required no_plural_rule : ProfileError
  empty_entry : Str → ProfileError
  duplicate_entry : Str → Str → ProfileError
  shadowed : Str → Str → Str → ProfileError
  empty_plural_suffix : ℕ → ProfileError
  duplicate_plural_suffix : ℕ → Str → ProfileError

-- if err != nil { return err }, and then the next check
infixr 5 ◌then_check◌
abbrev pub ◌then_check◌ : Option ProfileError → Option ProfileError → Option ProfileError
none then_check next = next
some e then_check next = some e

abbrev pub is_seen : Str → List Str → Bool
is_seen s seen = any (λ t. str_eq t s) seen

-- checkNoDuplicates, with the items seen so far
pub check_no_duplicates : Str → List Str → List Str → Option ProfileError
check_no_duplicates field seen [] = none
check_no_duplicates field seen (it ∷ items) =
    let rest = check_no_duplicates field (it ∷ seen) items in
    if str_eq it []
    then some (ProfileError.empty_entry field)
    else if is_seen it seen
    then some (ProfileError.duplicate_entry field it)
    else rest

-- the inner loop of the two order checks: `has` is strings.HasSuffix or strings.HasPrefix
pub check_shadowed : (Str → Str → Bool) → Str → Str → List Str → Option ProfileError
check_shadowed has field short [] = none
check_shadowed has field short (long ∷ items) =
    let rest = check_shadowed has field short items in
    if ltb (length short) (length long) && has long short
    then some (ProfileError.shadowed field short long)
    else rest

pub check_order : (Str → Str → Bool) → Str → List Str → Option ProfileError
unfolding check_shadowed
check_order has field [] = none
check_order has field (short ∷ items) =
    check_shadowed has field short items then_check check_order has field items

-- the loop over the plural rules, from rule number `i` on
pub check_plural : ℕ → List Str → List PluralRule → Option ProfileError
check_plural i seen [] = none
check_plural i seen (r ∷ rules) =
    let rest = check_plural (i + 1) (r.suffix ∷ seen) rules in
    if str_eq r.suffix []
    then some (ProfileError.empty_plural_suffix (i + 1))
    else if is_seen r.suffix seen
    then some (ProfileError.duplicate_plural_suffix (i + 1) r.suffix)
    else rest

pub check_lists : Profile → Option ProfileError
unfolding check_no_duplicates check_order check_plural
check_lists p =
    check_no_duplicates (codes "column_suffixes") [] p.column_suffixes
    then_check check_no_duplicates (codes "column_prefixes") [] p.column_prefixes
    then_check check_no_duplicates (codes "table_prefixes") [] p.table_prefixes
    then_check check_no_duplicates (codes "type_suffixes") [] p.type_suffixes
    then_check check_no_duplicates (codes "generic_entities") [] p.generic_entities
    then_check check_order has_suffix (codes "column_suffixes") p.column_suffixes
    then_check check_order has_prefix (codes "column_prefixes") p.column_prefixes
    then_check check_order has_prefix (codes "table_prefixes") p.table_prefixes
    then_check check_plural 0 [] p.plural

module _ ⦃u : Unicode⦄ where
  unfoldable pub validate : Profile → Option ProfileError
  unfolding check_lists
  validate p =
      if str_eq (trim_space p.name) []
      then some ProfileError.name_required
      else if length p.plural == 0
      then some ProfileError.no_plural_rule
      else check_lists p
