-- ===== src/Profile.antt =====
-- internal/profile/profile.go: a naming profile, the rules that turn the names of a schema into the
-- names of entities. Loading one from a TOML file is I/O and is left out.
pub mod Normalize
pub mod Validation
use pgfathom.Base.{List, text_eq, Str}

pub record PluralRule : Type 0 where
  pub suffix : Str
  pub singular : Str

pub record Profile : Type 0 where
  pub name : Str
  pub column_suffixes : List Str
  pub column_prefixes : List Str
  pub table_prefixes : List Str
  pub type_suffixes : List Str
  pub generic_entities : List Str
  pub plural : List PluralRule
