-- ===== src/Infer/Emission/Whole.antt =====
-- internal/infer/composite.go, GenerateComposite: from the readings of a child table to the candidates.
use pgfathom.Base.{
  ◌≤◌, ◌≡◌, refl, ◌⊎◌, inl, inr, true, false, not, ◌&&◌, Option, none, some, List, [], ◌∷◌, arith,
  text_eq, Float, IsIn, length, all, All, All-append, All-IsIn, sort_stable-All, ltb, ◌==◌,
  Bool-cases, is_some, Unicode, Str, str_eq,
}
use pgfathom.Model.Table.{Column, Table, ref}
use pgfathom.Model.Candidate.{Verdict, Candidate}
use pgfathom.Profile.{Profile}
use pgfathom.Infer.Types.{TypeMatch}
use pgfathom.Infer.Score.{score}
use pgfathom.Infer.Matches.{eligible}
use pgfathom.Infer.Keys.{key_columns, compare_keys, same_names}
use pgfathom.Infer.Keys.Fit.{FitsAll, compare_keys-FitsAll}
use pgfathom.Infer.Composite.{
  KeyMatch, CompositeTarget, composite_of, collect_targets, composite_targets, fitting, usable,
  match_targets, signature,
}
use pgfathom.Infer.Composite.Usable.{IsReading, match_targets-IsReading}
use pgfathom.Infer.Emission.{
  Scoped, Groups, add_to_group, is_mirror, has_mirror, scope_all, resolve_groups, group_matches,
  resolve_ambiguity, emit_fit, emit_with, emit_composite, composite_for, composite_tables,
  generate_composite,
}

-- A table among these with a key of two columns or more.
abbrev IsTarget : List Table → Table → Type 0
IsTarget ts t = IsIn t ts × (2 ≤ length t.primary_key)

module _ (P : KeyMatch → Type 0) where
  abbrev AllGroups : Groups → Type 0
  AllGroups groups = All (λ (s, ms). All P ms) groups

  add_to_group-AllGroups :
      (sig : Str) (m : KeyMatch) (groups : Groups)
      → P m
      → AllGroups groups
      → AllGroups (add_to_group sig m groups)
  unfolding add_to_group
  add_to_group-AllGroups sig m [] p h = ((p, tt), tt)
  add_to_group-AllGroups sig m ((s, ms) ∷ groups) p (q, h) = elim (Bool-cases (str_eq s sig)) [
    | inl e ↦ rw e (All-append P ms (m ∷ []) q (p, tt), h)
    | inr e ↦ rw e (q, add_to_group-AllGroups sig m groups p h)
  ]

  group_matches-AllGroups :
      ⦃u : Unicode⦄ (ms : List KeyMatch) (groups : Groups)
      → All P ms
      → AllGroups groups
      → AllGroups (group_matches ms groups)
  unfolding group_matches
  group_matches-AllGroups [] groups h k = k
  group_matches-AllGroups (m ∷ ms) groups (p, h) k =
      group_matches-AllGroups ms (add_to_group (signature m.columns) m groups) h
        (add_to_group-AllGroups (signature m.columns) m groups p k)

  -- A match that shares its signature with others is emitted only if it is not a mirror.
  pub record IsScoped (s : Scoped) : Type 0 where
    pub read : P s.match
    pub lone_mirror : (s.ambiguous && is_mirror s.match.derivation) ≡ false

  alone-IsScoped : (ms : List KeyMatch) → All P ms → All IsScoped (scope_all false ms)
  alone-IsScoped [] h = tt
  alone-IsScoped (m ∷ ms) (p, h) = (record { read = p; lone_mirror = refl }, alone-IsScoped ms h)

  shared-IsScoped :
      (ms : List KeyMatch) → has_mirror ms ≡ false → All P ms → All IsScoped (scope_all true ms)
  shared-IsScoped [] e h = tt
  shared-IsScoped (m ∷ ms) e (p, h) =
      (record { read = p; lone_mirror = ground arith }, shared-IsScoped ms (ground arith) h)

  resolve_groups-IsScoped :
      (child : Table) (groups : Groups)
      → AllGroups groups
      → All IsScoped (resolve_groups child groups).0
  unfolding resolve_groups
  resolve_groups-IsScoped child [] h = tt
  resolve_groups-IsScoped child ((sig, ms) ∷ groups) (p, h) = elim (Bool-cases (length ms == 1)) [
    | inl e ↦ rw e (
        All-append IsScoped (scope_all false ms) _ (alone-IsScoped ms p)
          (resolve_groups-IsScoped child groups h))
    | inr e ↦ elim (Bool-cases (has_mirror ms)) [
      | inl f ↦ rw (e, f) (resolve_groups-IsScoped child groups h)
      | inr f ↦
          rw (e, f)
            (All-append IsScoped (scope_all true ms) _ (shared-IsScoped ms f p)
              (resolve_groups-IsScoped child groups h))
    ]
  ]

  pub resolve_ambiguity-IsScoped :
      ⦃u : Unicode⦄ (child : Table) (ms : List KeyMatch)
      → All P ms
      → All IsScoped (resolve_ambiguity child ms).0
  unfolding resolve_ambiguity
  resolve_ambiguity-IsScoped child ms h =
      resolve_groups-IsScoped child (group_matches ms []) (group_matches-AllGroups ms [] h tt)

module _ ⦃F : Float⦄ ⦃u : Unicode⦄ where
  -- The candidate pairs the whole primary key of one table in scope with as many columns of another,
  -- each of them eligible and of a fitting type, and nothing has judged it yet.
  pub record IsWholeKey (ts : List Table) (c : Candidate) : Type 0 where
    pub child : Table
    pub target : Table
    pub child_columns : List Column
    pub key : List Column
    pub child_in_scope : IsIn child ts
    pub target_in_scope : IsIn target ts
    pub composite : 2 ≤ length target.primary_key
    pub in_child : key_columns child c.child.columns ≡ some child_columns
    pub in_target : key_columns target target.primary_key ≡ some key
    pub from_child :
        c.child ≡ record { schema = child.schema; table = child.name; columns = c.child.columns }
    pub to_whole_key :
        c.parent
        ≡ record { schema = target.schema; table = target.name; columns = target.primary_key }
    pub all_eligible : all (λ k. eligible child k) child_columns ≡ true
    pub all_fit : FitsAll child_columns key
    pub no_tautology :
        (str_eq (ref child) (ref target) && same_names c.child.columns target.primary_key) ≡ false
    pub scored : c.meta_score ≡ score c.signals
    pub not_judged : c.verdict ≡ Verdict.unvalidated

  -- What is known of a match when its columns are looked up.
  abbrev IsReadable : List Table → Table → Scoped → Type 0
  IsReadable ts child s = IsScoped (IsReading (IsTarget ts) child) s

  eligible-all :
      (child : Table) (ccs pcs : List Column)
      → fitting child (some ccs) (some pcs) ≡ true
      → all (λ c. eligible child c) ccs ≡ true
  eligible-all child ccs pcs h = ground arith

  emit_with-IsWholeKey :
      (ts : List Table) (child : Table) (s : Scoped) (c p : Option (List Column))
      (rest : List Candidate)
      → IsIn child ts
      → IsReadable ts child s
      → key_columns child s.match.columns ≡ c
      → key_columns s.match.target s.match.target.primary_key ≡ p
      → All (IsWholeKey ts) rest
      → All (IsWholeKey ts) (emit_with child s c p rest)
  unfolding emit_with emit_fit usable
  emit_with-IsWholeKey ts child s none p rest i r e f h = h
  emit_with-IsWholeKey ts child s (some ccs) none rest i r e f h = h
  emit_with-IsWholeKey ts child s (some ccs) (some pcs) rest i r e f h =
      elim (fit_cases (compare_keys ccs pcs)) [
        | inl n ↦ rw n h
        | inr (fit, k) ↦ rw k (
          record {
            child = child;
            target = s.match.target;
            child_columns = ccs;
            key = pcs;
            child_in_scope = i;
            target_in_scope = r.read.possible.0;
            composite = r.read.possible.1;
            in_child = e;
            in_target = f;
            from_child = refl;
            to_whole_key = refl;
            all_eligible = eligible-all child ccs pcs (rw (e, f) at r.read.offered);
            all_fit = compare_keys-FitsAll ccs pcs fit k;
            no_tautology = r.read.no_tautology;
            scored = refl;
            not_judged = refl;
          },
          h,
        )
      ]
    where
      fit_cases : (m : Option TypeMatch) → (m ≡ none) ⊎ ((fit : TypeMatch) × (m ≡ some fit))
      fit_cases none = inl refl
      fit_cases (some fit) = inr (fit, refl)

  emit_composite-IsWholeKey :
      (ts : List Table) (child : Table) (out : List Scoped)
      → IsIn child ts
      → All (IsReadable ts child) out
      → All (IsWholeKey ts) (emit_composite child out)
  unfolding emit_composite
  emit_composite-IsWholeKey ts child [] i h = tt
  emit_composite-IsWholeKey ts child (s ∷ out) i (r, h) =
      emit_with-IsWholeKey ts child s (key_columns child s.match.columns)
        (key_columns s.match.target s.match.target.primary_key) (emit_composite child out) i r refl
        refl (emit_composite-IsWholeKey ts child out i h)

  -- The tables that are read for their keys.
  abbrev AllTargets : List Table → List CompositeTarget → Type 0
  AllTargets ts targets = All (λ t. IsTarget ts t.table) targets

  composite_for-IsWholeKey :
      (ts : List Table) (child : Table) (targets : List CompositeTarget)
      → IsIn child ts
      → AllTargets ts targets
      → All (IsWholeKey ts) (composite_for child targets).0
  unfolding composite_for
  composite_for-IsWholeKey ts child targets i h =
      emit_composite-IsWholeKey ts child (resolve_ambiguity child (match_targets child targets).0).0
        i
        (resolve_ambiguity-IsScoped (IsReading (IsTarget ts) child) child
          (match_targets child targets).0 (match_targets-IsReading (IsTarget ts) child targets h))

  composite_tables-IsWholeKey :
      (ts children : List Table) (targets : List CompositeTarget)
      → All (λ t. IsIn t ts) children
      → AllTargets ts targets
      → All (IsWholeKey ts) (composite_tables children targets).0
  unfolding composite_tables
  composite_tables-IsWholeKey ts [] targets i h = tt
  composite_tables-IsWholeKey ts (t ∷ children) targets (i, is) h =
      All-append (IsWholeKey ts) (composite_for t targets).0 (composite_tables children targets).0
        (composite_for-IsWholeKey ts t targets i h)
        (composite_tables-IsWholeKey ts children targets is h)

  collect_targets-AllTargets :
      (ts : List Table) (p : Profile) (more : List Table)
      → All (λ t. IsIn t ts) more
      → AllTargets ts (collect_targets p more)
  unfolding collect_targets composite_of
  collect_targets-AllTargets ts p [] i = tt
  collect_targets-AllTargets ts p (t ∷ more) (i, is) =
      elim (Bool-cases
        (not (ltb (length t.primary_key) 2) && is_some (key_columns t t.primary_key))) [
          | inl e ↦ rw e ((i, ground arith), collect_targets-AllTargets ts p more is)
          | inr e ↦ rw e (collect_targets-AllTargets ts p more is)
        ]

  -- Every candidate of the composite pass pairs the whole primary key, of two columns or more, of a
  -- table in scope with as many columns of a table in scope: each of those can take part in a
  -- reference and has a type that fits its counterpart, the two keys are not the same one, the score
  -- is that of the signals and no verdict has been given.
  pub generate_composite-IsWholeKey :
      (ts : List Table) (p : Profile) → All (IsWholeKey ts) (generate_composite ts p).0
  unfolding generate_composite composite_targets
  generate_composite-IsWholeKey ts p =
      composite_tables-IsWholeKey ts ts (composite_targets p ts) (All-IsIn ts) (
        sort_stable-All _ (λ t. IsTarget ts t.table) (collect_targets p ts)
          (collect_targets-AllTargets ts p ts (All-IsIn ts)))
