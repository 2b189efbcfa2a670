-- ===== src/Infer/Emission.antt =====
-- internal/infer/composite.go: resolveAmbiguity, the signals of a composite candidate, and the pass
-- over the child tables.
pub mod Whole
use pgfathom.Base.{
  ℕ, Bool, true, false, Option, none, some, List, [], ◌∷◌, ◌++◌, itoa, text_eq, Float, length, any,
  ◌==◌, if◌then◌else◌, Unicode, Str, codes, str_eq,
}
use pgfathom.Model.Refs.{join}
use pgfathom.Model.Table.{Column, Table, ref, index_leads}
use pgfathom.Model.Candidate.{SignalKind, Signal, Verdict, Candidate}
use pgfathom.Profile.{Profile}
use pgfathom.Infer.Types.{TypeMatch}
use pgfathom.Infer.Score.{
  score, arity_weight, weight_child_indexed, weight_comment_mention, weight_not_null,
}
use pgfathom.Infer.Finalize.{Skip, SkipReason}
use pgfathom.Infer.Signals.{
  mentions, name_signal_from_origin, signal_if, type_signal, target_signal,
}
use pgfathom.Infer.Keys.{key_columns, compare_keys, column_names, base_types, none_nullable}
use pgfathom.Infer.Composite.{
  Derivation, mirror, anchored, KeyMatch, skip_for, signature, CompositeTarget, match_targets,
  composite_targets,
}

-- a match and whether its target had company
pub record Scoped : Type 0 where
  pub match : KeyMatch
  pub ambiguous : Bool

-- bySignature and order together: the groups in the order in which they were first seen
abbrev pub Groups : Type 0
Groups = List (Str × List KeyMatch)

pub add_to_group : Str → KeyMatch → Groups → Groups
add_to_group sig m [] = (sig, m ∷ []) ∷ []
add_to_group sig m ((s, ms) ∷ groups) =
    let rest = add_to_group sig m groups in
    if str_eq s sig then (s, ms ++ m ∷ []) ∷ groups else (s, ms) ∷ rest

abbrev pub is_mirror : Derivation → Bool
is_mirror mirror = true
is_mirror (anchored o) = false

abbrev pub has_mirror : List KeyMatch → Bool
has_mirror ms = any (λ m. is_mirror m.derivation) ms

abbrev pub scope_all : Bool → List KeyMatch → List Scoped
scope_all ambiguous [] = []
scope_all ambiguous (m ∷ ms) = record { match = m; ambiguous = ambiguous } ∷ scope_all ambiguous ms

pub skip_group : Table → ℕ → List KeyMatch → List Skip
skip_group child n [] = []
skip_group child n (m ∷ ms) =
    skip_for child m.target m.columns SkipReason.ambiguous_signature
      (itoa n ++ codes " tables share this key signature")
    ∷ skip_group child n ms

pub resolve_groups : Table → Groups → List Scoped × List Skip
unfolding skip_group
resolve_groups child [] = ([], [])
resolve_groups child ((sig, ms) ∷ groups) =
    let (out, skips) = resolve_groups child groups in
    if length ms == 1
    then (scope_all false ms ++ out, skips)
    else if has_mirror ms
    then (out, skip_group child (length ms) ms ++ skips)
    else (scope_all true ms ++ out, skips)

module _ ⦃u : Unicode⦄ where
  pub group_matches : List KeyMatch → Groups → Groups
  unfolding add_to_group
  group_matches [] groups = groups
  group_matches (m ∷ ms) groups = group_matches ms (add_to_group (signature m.columns) m groups)

  unfoldable pub resolve_ambiguity : Table → List KeyMatch → List Scoped × List Skip
  unfolding group_matches resolve_groups
  resolve_ambiguity child ms = resolve_groups child (group_matches ms [])

module _ ⦃F : Float⦄ where
  abbrev pub derivation_signals : Derivation → Str → List Signal
  derivation_signals mirror name = []
  derivation_signals (anchored o) name = name_signal_from_origin o name ∷ []

  -- the ambiguous target's detail is its key, the unique target's is its table
  abbrev pub company_signal : Bool → Table → Signal
  company_signal true t = target_signal true (join (codes ", ") t.primary_key)
  company_signal false t = target_signal false (ref t)

module _ ⦃F : Float⦄ ⦃u : Unicode⦄ where
  unfoldable pub composite_signals :
      Table → List Column → KeyMatch → List Column → TypeMatch → Bool → List Signal
  composite_signals child ccs m pcs fit ambiguous =
      record {
        kind = SignalKind.composite_arity;
        weight = arity_weight (length ccs);
        detail = ref m.target;
      }
      ∷ (derivation_signals m.derivation m.target.name
          ++ (type_signal fit (base_types ccs) (base_types pcs)
              ∷ company_signal ambiguous m.target
              ∷ (signal_if (index_leads child.indexes (column_names ccs)) SignalKind.child_indexed
                    weight_child_indexed (join (codes ", ") (column_names ccs))
                  ++ (signal_if (mentions child.comment m.target.name) SignalKind.comment_mention
                        weight_comment_mention m.target.name
                      ++ signal_if (none_nullable ccs) SignalKind.not_null weight_not_null []))))

  abbrev pub composite_candidate : Table → KeyMatch → List Signal → Candidate
  composite_candidate child m signals = record {
    child = record { schema = child.schema; table = child.name; columns = m.columns };
    parent = record {
      schema = m.target.schema;
      table = m.target.name;
      columns = m.target.primary_key;
    };
    signals = signals;
    meta_score = score signals;
    validation = none;
    verdict = Verdict.unvalidated;
    reason = codes "not validated against data";
  }

  pub emit_fit :
      Table
      → Scoped
      → List Column
      → List Column
      → Option TypeMatch
      → List Candidate
      → List Candidate
  emit_fit child s ccs pcs none rest = rest
  emit_fit child s ccs pcs (some fit) rest =
      composite_candidate child s.match (composite_signals child ccs s.match pcs fit s.ambiguous)
      ∷ rest

  -- after both keys are resolved
  pub emit_with :
      Table → Scoped → Option (List Column) → Option (List Column) → List Candidate → List Candidate
  unfolding emit_fit
  emit_with child s none pcs rest = rest
  emit_with child s (some ccs) none rest = rest
  emit_with child s (some ccs) (some pcs) rest =
      emit_fit child s ccs pcs (compare_keys ccs pcs) rest

  pub emit_composite : Table → List Scoped → List Candidate
  unfolding emit_with
  emit_composite child [] = []
  emit_composite child (s ∷ out) =
      emit_with child s (key_columns child s.match.columns)
        (key_columns s.match.target s.match.target.primary_key) (emit_composite child out)

  pub composite_for : Table → List CompositeTarget → List Candidate × List Skip
  unfolding emit_composite
  composite_for child targets =
      let (ms, skips) = match_targets child targets in
      let (out, more) = resolve_ambiguity child ms in (emit_composite child out, skips ++ more)

  pub composite_tables : List Table → List CompositeTarget → List Candidate × List Skip
  unfolding composite_for
  composite_tables [] targets = ([], [])
  composite_tables (t ∷ ts) targets =
      let here = composite_for t targets in
      let rest = composite_tables ts targets in (here.0 ++ rest.0, here.1 ++ rest.1)

  -- with no target the walk appends nothing, as the early return does
  unfoldable pub generate_composite : List Table → Profile → List Candidate × List Skip
  unfolding composite_tables
  generate_composite ts p = composite_tables ts (composite_targets p ts)
