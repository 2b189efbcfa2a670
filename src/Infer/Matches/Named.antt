-- ===== src/Infer/Matches/Named.antt =====
-- internal/infer/generate.go: which tables the index and the list for similarity lead to.
use pgfathom.Base.{
  there, here, ◌≡◌, refl, ◌⊎◌, inl, inr, true, List, [], ◌∷◌, ◌++◌, arith, text_eq, lookup, put,
  lookup-put, Float, IsIn, All, All-append, All-weaken, Bool-cases, Unicode, Str, str_eq,
  str_eq_sound,
}
use pgfathom.Model.Table.{Table, Schema}
use pgfathom.Profile.{Profile}
use pgfathom.Profile.Normalize.{Form, table_forms}
use pgfathom.Infer.Similarity.{dice, trigram_set}
use pgfathom.Infer.Signals.{Options, min_name_similarity}
use pgfathom.Infer.Generate.{all_tables}
use pgfathom.Infer.Matches.{
  targets_or_none, IndexedTarget, TargetIndex, index_forms, keep_best, best_by_table, index_tables,
  build_target_index, SimilarityTarget, Scored, above_cutoff, flatten_tables,
}

module _ (P : Table → Str → Type 0) where
  -- Every entry of the index satisfies the predicate at its key.
  abbrev pub IsIndexed : TargetIndex → Type 0
  IsIndexed index =
      (k : Str) → All (λ (it : IndexedTarget). P it.table k) (targets_or_none (lookup k index))

  index_forms-IsIndexed :
      (t : Table) (fs : List Form) (index : TargetIndex)
      → ((f : Form) → IsIn f fs → P t f.value)
      → IsIndexed index
      → IsIndexed (index_forms t fs index)
  unfolding index_forms
  index_forms-IsIndexed t [] index h inv = inv
  index_forms-IsIndexed t (f ∷ fs) index h inv =
      index_forms-IsIndexed t fs _ (λ g m. h g (there f fs m)) (λ k. entry k)
    where
      entry :
          (k : Str)
          → All
              (λ (it : IndexedTarget). P it.table k)
              (targets_or_none (
                lookup k (
                  put f.value
                    (targets_or_none (lookup f.value index)
                      ++ record { table = t; origin = f.origin } ∷ [])
                    index)))
      entry k = elim (Bool-cases (str_eq f.value k)) [
        | inl e ↦
            let it : IndexedTarget = record { table = t; origin = f.origin } in
            let there_now =
              All-append (λ (x : IndexedTarget). P x.table f.value)
                (targets_or_none (lookup f.value index)) (it ∷ []) (inv f.value)
                (h f (here fs), tt) in
            rw (lookup-put f.value k _ index, e)
              (All-weaken _ (λ (x : IndexedTarget) m. rw (str_eq_sound f.value k e) at m) there_now)
        | inr e ↦ rw (lookup-put f.value k _ index, e) (inv k)
      ]

  module _ ⦃u : Unicode⦄ (p : Profile) where
    index_tables-IsIndexed :
        (ts : List Table) (index : TargetIndex)
        → ((t : Table) → IsIn t ts → (f : Form) → IsIn f (table_forms p t.name) → P t f.value)
        → IsIndexed index
        → IsIndexed (index_tables p ts index)
    unfolding index_tables
    index_tables-IsIndexed [] index h inv = inv
    index_tables-IsIndexed (t ∷ ts) index h inv =
        index_tables-IsIndexed ts (index_forms t (table_forms p t.name) index)
          (λ v m. h v (there t ts m))
          (index_forms-IsIndexed t (table_forms p t.name) index (h t (here ts)) inv)

IsIn-left : {A : Type 0} (x : A) (xs ys : List A) → IsIn x xs → IsIn x (xs ++ ys)
IsIn-left x [] ys m = elim m [ ]
IsIn-left x (y ∷ xs) ys (here zs) = here (xs ++ ys)
IsIn-left x (y ∷ xs) ys (there z zs m) = there y (xs ++ ys) (IsIn-left x xs ys m)

IsIn-right : {A : Type 0} (x : A) (xs ys : List A) → IsIn x ys → IsIn x (xs ++ ys)
IsIn-right x [] ys m = m
IsIn-right x (y ∷ xs) ys m = there y (xs ++ ys) (IsIn-right x xs ys m)

build_target_index-IsIndexed :
    (P : Table → Str → Type 0) ⦃u : Unicode⦄ (p : Profile) (ss : List Schema) (index : TargetIndex)
    → ((t : Table)
        → IsIn t (all_tables ss)
        → (f : Form) → IsIn f (table_forms p t.name)
        → P t f.value)
    → IsIndexed P index
    → IsIndexed P (build_target_index p ss index)
unfolding build_target_index all_tables
build_target_index-IsIndexed P p [] index h inv = inv
build_target_index-IsIndexed P p (s ∷ ss) index h inv =
    build_target_index-IsIndexed P p ss (index_tables p s.tables index)
      (λ t m. h t (IsIn-right t s.tables (all_tables ss) m))
      (index_tables-IsIndexed P p s.tables index
        (λ t m. h t (IsIn-left t s.tables (all_tables ss) m)) inv)

-- One match a table is kept of those that there are.
module _ (Q : Table → Type 0) where
  abbrev AllTables : List (Str × IndexedTarget) → Type 0
  AllTables best = All (λ x. Q x.1.table) best

  keep_best-All :
      (key : Str) (it : IndexedTarget) (best : List (Str × IndexedTarget))
      → Q it.table
      → AllTables best
      → AllTables (keep_best key it best)
  unfolding keep_best
  keep_best-All key it [] q h = (q, tt)
  keep_best-All key it ((k, prev) ∷ best) q (r, h) =
      ground (arith, keep_best-All key it best q h, q, r, h)

  pub best_by_table-All :
      (its : List IndexedTarget) (best : List (Str × IndexedTarget))
      → All (λ it. Q it.table) its
      → AllTables best
      → AllTables (best_by_table its best)
  unfolding best_by_table
  best_by_table-All [] best h k = k
  best_by_table-All (it ∷ its) best (q, h) k =
      best_by_table-All its _ h (keep_best-All _ it best q k)

module _ ⦃F : Float⦄ ⦃u : Unicode⦄ where
  -- The name of the table means the entity: one of its forms is the entity, or the two are as
  -- similar as the options want.
  abbrev pub IsNamed : Profile → Options → Str → Table → Type 0
  IsNamed p opts entity t =
      ((f : Form) × IsIn f (table_forms p t.name) × (f.value ≡ entity))
      ⊎ (F.le (min_name_similarity opts) (dice (trigram_set entity) (trigram_set t.name)) ≡ true)

  -- A table in scope whose name means the entity.
  abbrev pub IsMeant : List Table → Profile → Options → Str → Table → Type 0
  IsMeant scope p opts entity t = IsIn t scope × IsNamed p opts entity t

  abbrev pub IsCompared : List Table → SimilarityTarget → Type 0
  IsCompared scope st = IsIn st.table scope × (st.trigrams ≡ trigram_set st.table.name)

  pub flatten_tables-IsCompared : (ts : List Table) → All (IsCompared ts) (flatten_tables ts)
  unfolding flatten_tables
  flatten_tables-IsCompared [] = tt
  flatten_tables-IsCompared (t ∷ ts) = (
    (here ts, refl),
    All-weaken (flatten_tables ts) (λ st (m, e). (there t ts m, e)) (flatten_tables-IsCompared ts),
  )

  pub above_cutoff-IsMeant :
      (scope : List Table) (p : Profile) (opts : Options) (entity : Str)
      (ts : List SimilarityTarget)
      → All (IsCompared scope) ts
      → All
          (λ (x : Scored). IsMeant scope p opts entity x.0)
          (above_cutoff (min_name_similarity opts) (trigram_set entity) ts)
  unfolding above_cutoff
  above_cutoff-IsMeant scope p opts entity [] h = tt
  above_cutoff-IsMeant scope p opts entity (st ∷ ts) ((m, e), h) =
      let rest = above_cutoff-IsMeant scope p opts entity ts h in
      elim (Bool-cases (F.le (min_name_similarity opts) (dice (trigram_set entity) st.trigrams))) [
        | inl c ↦ rw c ((m, inr (rw e at c)), rest)
        | inr c ↦ rw c rest
      ]

  pub build_target_index-IsMeant :
      (ss : List Schema) (p : Profile) (opts : Options)
      → IsIndexed (λ t k. IsMeant (all_tables ss) p opts k t) (build_target_index p ss [])
  unfolding lookup
  build_target_index-IsMeant ss p opts =
      build_target_index-IsIndexed (λ t k. IsMeant (all_tables ss) p opts k t) p ss []
        (λ t m f n. (m, inl (f, n, refl))) (λ k. tt)
