-- ===== src/Infer/Finalize/Split.antt =====
-- internal/infer/generate.go, finalize: where each candidate goes.
use mathlib.Core.List.{Perm}
use pgfathom.Base.{
  sort_stable-IsSorted, ◌≡◌, inl, inr, true, false, not, List, [], ◌∷◌, ◌++◌, map, append-nil,
  append_assoc, arith, text_eq, Float, filter, sort_stable-Perm, IsSorted, Bool-cases, Str,
  str_eq_iff, str_lt_asymm,
}
use pgfathom.Model.Refs.{key_string}
use pgfathom.Model.Candidate.{Candidate}
use pgfathom.Infer.Finalize.{
  Result, passes, refused, pair_lt, candidate_less, skip_less, polymorphic_less, sort_candidates,
  cut_loop, finalize,
}

pair_lt_asymm : (p q : Str × Str) → pair_lt p q ≡ true → pair_lt q p ≡ false
pair_lt_asymm (a, b) (c, d) h =
    ground (arith, str_eq_iff a c, str_eq_iff c a, str_lt_asymm a c, str_lt_asymm b d)

module _ ⦃F : Float⦄ where
  candidate_less_asymm : (a b : Candidate) → candidate_less a b ≡ true → candidate_less b a ≡ false
  candidate_less_asymm a b h = ground (
    arith,
    F.eq_comm a.meta_score b.meta_score,
    F.lt_asymm b.meta_score a.meta_score,
    pair_lt_asymm (key_string a.child, key_string a.parent)
        (key_string b.child, key_string b.parent),
  )

  cut_loop-filter :
      (m : F.F64) (cs survivors discarded : List Candidate)
      → cut_loop m cs survivors discarded ≡ (
        survivors ++ filter (passes m) cs,
        discarded ++ map (refused m) (filter (λ c. not (passes m c)) cs),
      )
  unfolding cut_loop
  cut_loop-filter m [] survivors discarded = rw (append-nil survivors, append-nil discarded)
  cut_loop-filter m (c ∷ cs) survivors discarded = elim (Bool-cases (passes m c)) [
    | inl e ↦ rw (e, cut_loop-filter m cs (survivors ++ c ∷ []) discarded, append_assoc survivors)
    | inr e ↦
        rw (
          e,
          cut_loop-filter m cs survivors (discarded ++ refused m c ∷ []),
          append_assoc discarded,
        )
  ]

  -- The outcome of the cut: the candidates that pass the threshold are all kept, and the others all
  -- end among the discarded, with the reason and nothing else changed; both lists, the skipped
  -- targets and the polymorphic pairs are in order.
  pub record IsSplit (res : Result) (m : F.F64) (out : Result) : Type 0 where
    pub kept : Perm (filter (passes m) res.candidates) out.candidates
    pub cut :
        Perm
          (res.discarded ++ map (refused m) (filter (λ c. not (passes m c)) res.candidates))
          out.discarded
    pub skipped_kept : Perm res.skipped out.skipped
    pub polymorphic_kept : Perm res.polymorphic out.polymorphic
    pub candidates_sorted : IsSorted candidate_less out.candidates
    pub discarded_sorted : IsSorted candidate_less out.discarded
    pub skipped_sorted : IsSorted skip_less out.skipped
    pub polymorphic_sorted : IsSorted polymorphic_less out.polymorphic

  -- finalize loses no candidate and invents none: those whose cut score reaches the threshold are
  -- returned, the others are discarded with their reason beside those discarded before, and all
  -- four lists are sorted.
  pub finalize-IsSplit : (res : Result) (m : F.F64) → IsSplit res m (finalize res m)
  unfolding finalize sort_candidates
  finalize-IsSplit res m =
      let e = cut_loop-filter m res.candidates [] res.discarded in
      record {
        kept = rw e (sort_stable-Perm candidate_less _);
        cut = rw e (sort_stable-Perm candidate_less _);
        skipped_kept = sort_stable-Perm skip_less res.skipped;
        polymorphic_kept = sort_stable-Perm polymorphic_less res.polymorphic;
        candidates_sorted = sort_stable-IsSorted candidate_less candidate_less_asymm _;
        discarded_sorted = sort_stable-IsSorted candidate_less candidate_less_asymm _;
        skipped_sorted =
            sort_stable-IsSorted skip_less
              (λ a b. pair_lt_asymm (key_string a.child, a.target) (key_string b.child, b.target))
              _;
        polymorphic_sorted =
            sort_stable-IsSorted polymorphic_less
              (λ a b. pair_lt_asymm (a.table, a.reference_column) (b.table, b.reference_column)) _;
      }
