-- ===== src/Infer/Composite/Usable.antt =====
-- internal/infer/composite.go, matchKey: the readings that are collected.
use pgfathom.Base.{
  ◌≤◌, ◌≡◌, refl, ◌⊎◌, inl, inr, true, false, ◌&&◌, List, [], ◌∷◌, ◌++◌, arith, text_eq, length,
  All, All-append, ltb, leb, ◌==◌, Bool-cases, Unicode, Str, str_eq,
}
use pgfathom.Model.Table.{Table, ref}
use pgfathom.Profile.Normalize.{Form}
use pgfathom.Infer.Keys.{same_names}
use pgfathom.Infer.Composite.{
  min_partial_match, read_form, Derivation, mirror, anchored, KeyMatch, CompositeTarget, Readings,
  Matched, is_read, resolve_mirror, resolve_anchored, usable, add_reading, read_forms, match_key,
  sort_readings, match_targets,
}

module _ ⦃u : Unicode⦄ (Possible : Table → Type 0) where
  -- The child can offer the reading, for every position of the target's key, and a table does not
  -- read its own key in itself.
  pub record IsReading (child : Table) (m : KeyMatch) : Type 0 where
    pub possible : Possible m.target
    pub every_position : length m.target.primary_key ≤ length m.columns
    pub offered : usable child m.target m.columns ≡ true
    pub no_tautology :
        (str_eq (ref child) (ref m.target) && same_names m.columns m.target.primary_key) ≡ false

  add_reading_cases :
      (child target : Table) (d : Derivation) (cols : List Str) (r : Readings)
      → Possible target
      → ((add_reading child target d cols r).complete ≡ r.complete)
        ⊎ (((add_reading child target d cols r).complete
              ≡ r.complete ++ record { target = target; columns = cols; derivation = d } ∷ [])
            × IsReading child (record { target = target; columns = cols; derivation = d }))
  unfolding add_reading
  add_reading_cases child target d cols r q =
      elim (Bool-cases (ltb (length cols) (length target.primary_key))) [
        | inl short ↦ inl (rw short refl)
        | inr long ↦
            elim (Bool-cases
              (str_eq (ref child) (ref target) && same_names cols target.primary_key)) [
                | inl own ↦ inl (rw (long, own) refl)
                | inr other ↦ elim (Bool-cases (usable child target cols)) [
                  | inr unfit ↦ inl (rw (long, other, unfit) refl)
                  | inl fits ↦ elim (Bool-cases (is_read cols r.complete)) [
                    | inl seen ↦ inl (rw (long, other, fits, seen) refl)
                    | inr new ↦ inr (
                      rw (long, other, fits, new) refl,
                      record {
                        possible = q;
                        every_position = ground arith;
                        offered = fits;
                        no_tautology = other;
                      },
                    )
                  ]
                ]
              ]
      ]

  add_reading-IsReading :
      (child target : Table) (d : Derivation) (cols : List Str) (r : Readings)
      → Possible target
      → All (IsReading child) r.complete
      → All (IsReading child) (add_reading child target d cols r).complete
  add_reading-IsReading child target d cols r q h =
      elim (add_reading_cases child target d cols r q) [
        | inl e ↦ rw e h
        | inr (e, k) ↦ rw e (All-append (IsReading child) r.complete _ h (k, tt))
      ]

  read_form-IsReading :
      (child target : Table) (f : Form) (r : Readings)
      → Possible target
      → All (IsReading child) r.complete
      → All (IsReading child) (read_form child target f r).complete
  unfolding read_form
  read_form-IsReading child target f r q h =
      let a = resolve_anchored child f.value target.primary_key in
      elim (Bool-cases (a.1 == 0)) [
        | inl e ↦ rw e h
        | inr e ↦ rw e (add_reading-IsReading child target (anchored f.origin) a.0 r q h)
      ]

  read_forms-IsReading :
      (child target : Table) (fs : List Form) (r : Readings)
      → Possible target
      → All (IsReading child) r.complete
      → All (IsReading child) (read_forms child target fs r).complete
  unfolding read_forms
  read_forms-IsReading child target [] r q h = h
  read_forms-IsReading child target (f ∷ fs) r q h =
      read_forms-IsReading child target fs (read_form child target f r) q
        (read_form-IsReading child target f r q h)

  match_key-IsReading :
      (child : Table) (t : CompositeTarget)
      → Possible t.table
      → All (IsReading child) (match_key child t).complete
  unfolding match_key
  match_key-IsReading child t q = read_forms-IsReading child t.table t.forms _ q (
      add_reading-IsReading child t.table mirror (resolve_mirror child t.table.primary_key)
        (record { complete = []; partial = [] }) q tt)

  sort_readings-IsReading :
      (child target : Table) (partial : List Str) (complete : List KeyMatch) (out : Matched)
      → All (IsReading child) complete
      → All (IsReading child) out.0
      → All (IsReading child) (sort_readings child target partial complete out).0
  unfolding sort_readings
  sort_readings-IsReading child target partial (m ∷ []) out h k = (h.0, k)
  sort_readings-IsReading child target partial (m ∷ n ∷ more) out h k = k
  sort_readings-IsReading child target partial [] out h k =
      elim (Bool-cases (
        leb min_partial_match (length partial)
        && ltb (length partial) (length target.primary_key))) [ inl e ↦ rw e k | inr e ↦ rw e k ]

  -- Every reading that a child table contributes is one that it can offer.
  pub match_targets-IsReading :
      (child : Table) (ts : List CompositeTarget)
      → All (λ t. Possible t.table) ts
      → All (IsReading child) (match_targets child ts).0
  unfolding match_targets
  match_targets-IsReading child [] q = tt
  match_targets-IsReading child (t ∷ ts) (q, qs) =
      sort_readings-IsReading child t.table (match_key child t).partial (match_key child t).complete
        (match_targets child ts) (match_key-IsReading child t q)
        (match_targets-IsReading child ts qs)
