-- ===== src/Infer/Composite.antt =====
-- internal/infer/composite.go: the readings of a target's key in a child table, and what happens when
-- several targets share one. What a step appends to the result is returned.
pub mod Usable
use pgfathom.Base.{
  ℕ, ◌+◌, Bool, false, not, ◌&&◌, Option, none, some, List, [], ◌∷◌, ◌++◌, itoa, text_eq, length,
  any, all, sort_stable, ltb, leb, ◌==◌, if◌then◌else◌, is_some, Unicode, Str, codes, str_eq,
  str_lt, to_lower,
}
use pgfathom.Model.Refs.{join}
use pgfathom.Model.Table.{Column, Table, ref, column}
use pgfathom.Profile.{Profile}
use pgfathom.Profile.Normalize.{Origin, Form, table_forms}
use pgfathom.Infer.Finalize.{Skip, SkipReason}
use pgfathom.Infer.Matches.{eligible}
use pgfathom.Infer.Keys.{key_columns, same_names, compare_keys}

abbrev pub min_partial_match : ℕ
min_partial_match = 2

-- derivMirror, and derivAnchored with the origin of the form
pub data Derivation : Type 0 where
  mirror : Derivation
  anchored : Origin → Derivation

pub record KeyMatch : Type 0 where
  pub target : Table
  pub columns : List Str
  pub derivation : Derivation

pub record CompositeTarget : Type 0 where
  pub table : Table
  pub forms : List Form

-- the columns that resolve a key, and how many of them are anchors
abbrev pub Anchors : Type 0
Anchors = List Str × ℕ

abbrev pub add_name : Option Column → List Str → List Str
add_name none rest = rest
add_name (some c) rest = c.name ∷ rest

-- one position: the anchor if the child has it, or else the mirror
abbrev pub add_position : Option Column → Option Column → Anchors → Anchors
add_position (some c) other (cols, n) = (c.name ∷ cols, n + 1)
add_position none other (cols, n) = (add_name other cols, n)

-- what matchKey has collected: the complete readings and the best incomplete one
pub record Readings : Type 0 where
  pub complete : List KeyMatch
  pub partial : List Str

-- The two lists that compositeFor builds: readings to emit and targets to skip.
abbrev pub Matched : Type 0
Matched = List KeyMatch × List Skip

pub skip_for : Table → Table → List Str → SkipReason → Str → Skip
skip_for child target cols reason detail = record {
  child = record { schema = child.schema; table = child.name; columns = cols };
  target = ref target;
  reason = reason;
  detail = detail;
}

module _ ⦃u : Unicode⦄ where
  abbrev pub signature : List Str → Str
  signature cols = to_lower (join (codes ",") cols)

  pub resolve_mirror : Table → List Str → List Str
  resolve_mirror child [] = []
  resolve_mirror child (k ∷ keys) = add_name (column child k) (resolve_mirror child keys)

  pub resolve_anchored : Table → Str → List Str → Anchors
  resolve_anchored child form [] = ([], 0)
  resolve_anchored child form (k ∷ keys) =
      add_position (column child (form ++ (codes "_" ++ k))) (column child k)
        (resolve_anchored child form keys)

  abbrev pub fitting : Table → Option (List Column) → Option (List Column) → Bool
  fitting child none parent_cols = false
  fitting child (some cs) none = false
  fitting child (some cs) (some ps) = all (λ c. eligible child c) cs && is_some (compare_keys cs ps)

  unfoldable pub usable : Table → Table → List Str → Bool
  usable child target cols =
      fitting child (key_columns child cols) (key_columns target target.primary_key)

  -- `seen` holds the signatures of the complete readings
  abbrev pub is_read : List Str → List KeyMatch → Bool
  is_read cols ms = any (λ m. str_eq (signature m.columns) (signature cols)) ms

  -- the closure `add`
  pub add_reading : Table → Table → Derivation → List Str → Readings → Readings
  add_reading child target d cols r =
      if ltb (length cols) (length target.primary_key)
      then record r { partial = if ltb (length r.partial) (length cols) then cols else r.partial }
      else if str_eq (ref child) (ref target) && same_names cols target.primary_key
      then r
      else if not (usable child target cols)
      then r
      else if is_read cols r.complete
      then r
      else record r {
        complete = r.complete ++ record { target = target; columns = cols; derivation = d } ∷ [];
      }

  -- one form; one without an anchor is passed over
  pub read_form : Table → Table → Form → Readings → Readings
  unfolding add_reading
  read_form child target f r =
      let (cols, anchors) = resolve_anchored child f.value target.primary_key in
      let read = add_reading child target (anchored f.origin) cols r in
      if anchors == 0 then r else read

  pub read_forms : Table → Table → List Form → Readings → Readings
  unfolding read_form
  read_forms child target [] r = r
  read_forms child target (f ∷ fs) r = read_forms child target fs (read_form child target f r)

  unfoldable pub match_key : Table → CompositeTarget → Readings
  unfolding read_forms add_reading resolve_mirror resolve_anchored
  match_key child t = read_forms child t.table t.forms (
      add_reading child t.table mirror (resolve_mirror child t.table.primary_key)
        (record { complete = []; partial = [] }))

  -- the switch of compositeFor, on the complete readings of one target
  pub sort_readings : Table → Table → List Str → List KeyMatch → Matched → Matched
  unfolding skip_for
  sort_readings child target partial (m ∷ []) (ms, skips) = (m ∷ ms, skips)
  sort_readings child target partial (m ∷ n ∷ more) (ms, skips) =
      (ms, skip_for child target m.columns SkipReason.ambiguous_position [] ∷ skips)
  sort_readings child target partial [] (ms, skips) =
      if leb min_partial_match (length partial) && ltb (length partial) (length target.primary_key)
      then (
        ms,
        skip_for child target partial SkipReason.partial_key (
              itoa (length partial)
              ++ (codes " of " ++ (itoa (length target.primary_key) ++ codes " positions")))
            ∷ skips,
      )
      else (ms, skips)

  pub match_targets : Table → List CompositeTarget → Matched
  unfolding match_key sort_readings
  match_targets child [] = ([], [])
  match_targets child (t ∷ ts) =
      let r = match_key child t in
      sort_readings child t.table r.partial r.complete (match_targets child ts)

  -- the tables with a key of several columns that it has, with their forms
  unfoldable pub composite_of : Profile → Table → List CompositeTarget → List CompositeTarget
  composite_of p t rest =
      if not (ltb (length t.primary_key) 2) && is_some (key_columns t t.primary_key)
      then record { table = t; forms = table_forms p t.name } ∷ rest
      else rest

  unfoldable pub collect_targets : Profile → List Table → List CompositeTarget
  unfolding composite_of
  collect_targets p [] = []
  collect_targets p (t ∷ ts) = composite_of p t (collect_targets p ts)

  unfoldable pub composite_targets : Profile → List Table → List CompositeTarget
  unfolding collect_targets
  composite_targets p ts =
      sort_stable (λ a b. str_lt (ref a.table) (ref b.table)) (collect_targets p ts)
