-- ===== src/Sqlprobe/Resolve/Real.antt =====
-- internal/sqlprobe/probe.go, resolveAgainstCatalog: the joins that are kept.
use pgfathom.Base.{
  str_eq_iff, sort_stable-IsSorted, true, IsSorted, Str, ◌≡◌, inl, inr, false, Option, none, some,
  List, [], ◌∷◌, arith, text_eq, any, All, All-append, All-IsIn, sort_stable-All, Bool-cases,
  Unicode, str_lt, str_lt_asymm,
}
use pgfathom.Model.Refs.{ColumnRef, column_string, column_ref_eq}
use pgfathom.Model.Table.{Schema}
use pgfathom.Model.Evidence.{JoinEvidence}
use pgfathom.Sqlprobe.Extract.{RawRef}
use pgfathom.Sqlprobe.Resolve.{
  SourcedJoin, join_texts, texts_lt, join_less, same_join, add_join, resolve_ref, resolve_joins,
  resolve_against_catalog,
}
use pgfathom.Sqlprobe.Resolve.Matching.{
  only, matching, resolve_ref-matching, IsColumn, matching-IsColumn,
}

texts_lt_asymm : (p q : Str × Str × Str) → texts_lt p q ≡ true → texts_lt q p ≡ false
texts_lt_asymm (a, b, c) (d, e, f) h = ground (
  arith,
  str_eq_iff a d,
  str_eq_iff d a,
  str_eq_iff b e,
  str_eq_iff e b,
  str_lt_asymm a d,
  str_lt_asymm b e,
  str_lt_asymm c f,
)

module _ ⦃u : Unicode⦄ where
  -- Both sides are columns that the catalog has, they are two columns, and the smaller text is left.
  pub record IsRealJoin (ss : List Schema) (e : JoinEvidence) : Type 0 where
    pub left_real : IsColumn ss e.left
    pub right_real : IsColumn ss e.right
    pub two_columns : column_ref_eq.beq e.left e.right ≡ false
    pub in_order : str_lt (column_string e.right) (column_string e.left) ≡ false

  abbrev IfReal : List Schema → Option ColumnRef → Type 0
  IfReal ss none = Unit
  IfReal ss (some c) = IsColumn ss c

  only-IfReal :
      (ss : List Schema) (cs : List ColumnRef) → All (IsColumn ss) cs → IfReal ss (only cs)
  only-IfReal ss [] h = tt
  only-IfReal ss (c ∷ []) h = h.0
  only-IfReal ss (c ∷ d ∷ cs) h = tt

  resolve_ref-IfReal : (r : RawRef) (ss : List Schema) → IfReal ss (resolve_ref r ss)
  resolve_ref-IfReal r ss =
      rw (resolve_ref-matching r ss)
        (only-IfReal ss (matching r ss) (matching-IsColumn r ss ss (All-IsIn ss)))

  beq_comm : (l r : ColumnRef) → column_ref_eq.beq l r ≡ false → column_ref_eq.beq r l ≡ false
  beq_comm l r h = ground (arith, column_ref_eq.beq_iff l r, column_ref_eq.beq_iff r l)

  add_join-All :
      (ss : List Schema) (sj : SourcedJoin) (l r : Option ColumnRef) (out : List JoinEvidence)
      → IfReal ss l
      → IfReal ss r
      → All (IsRealJoin ss) out
      → All (IsRealJoin ss) (add_join sj l r out)
  unfolding add_join
  add_join-All ss sj none r out hl hr h = h
  add_join-All ss sj (some l) none out hl hr h = h
  add_join-All ss sj (some l) (some r) out hl hr h = elim (Bool-cases (column_ref_eq.beq l r)) [
    | inl e ↦ rw e h
    | inr e ↦ elim (Bool-cases (str_lt (column_string r) (column_string l))) [
      | inl f ↦
          let kept : JoinEvidence = record {
            left = r;
            right = l;
            source = sj.source;
            object = sj.object;
          } in
          elim (Bool-cases (any (λ o. same_join o kept) out)) [
            | inl g ↦ rw (e, f, g) h
            | inr g ↦
                rw (e, f, g)
                  (All-append (IsRealJoin ss) out (kept ∷ []) h (
                    record {
                      left_real = hr;
                      right_real = hl;
                      two_columns = beq_comm l r e;
                      in_order = str_lt_asymm (column_string r) (column_string l) f;
                    },
                    tt,
                  ))
          ]
      | inr f ↦
          let kept : JoinEvidence = record {
            left = l;
            right = r;
            source = sj.source;
            object = sj.object;
          } in
          elim (Bool-cases (any (λ o. same_join o kept) out)) [
            | inl g ↦ rw (e, f, g) h
            | inr g ↦
                rw (e, f, g)
                  (All-append (IsRealJoin ss) out (kept ∷ []) h
                    (record { left_real = hl; right_real = hr; two_columns = e; in_order = f }, tt))
          ]
    ]
  ]

  resolve_joins-All :
      (ss : List Schema) (raw : List SourcedJoin) (out : List JoinEvidence)
      → All (IsRealJoin ss) out
      → All (IsRealJoin ss) (resolve_joins raw ss out)
  unfolding resolve_joins
  resolve_joins-All ss [] out h = h
  resolve_joins-All ss (sj ∷ raw) out h = resolve_joins-All ss raw _ (
      add_join-All ss sj (resolve_ref sj.join.left ss) (resolve_ref sj.join.right ss) out
        (resolve_ref-IfReal sj.join.left ss) (resolve_ref-IfReal sj.join.right ss) h)

  -- Every join that is kept is between two different columns of tables in scope, its sides in the
  -- order of their texts, and the joins are in order.
  pub resolve_against_catalog-IsRealJoin :
      (ss : List Schema) (raw : List SourcedJoin)
      → All (IsRealJoin ss) (resolve_against_catalog raw ss)
        × IsSorted join_less (resolve_against_catalog raw ss)
  unfolding resolve_against_catalog
  resolve_against_catalog-IsRealJoin ss raw = (
    sort_stable-All join_less (IsRealJoin ss) (resolve_joins raw ss [])
        (resolve_joins-All ss raw [] tt),
    sort_stable-IsSorted join_less (λ e f. texts_lt_asymm (join_texts e) (join_texts f))
        (resolve_joins raw ss []),
  )
