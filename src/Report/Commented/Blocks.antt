-- ===== src/Report/Commented/Blocks.antt =====
-- internal/report/sql.go: the blocks of suggestedKeysFile and suggestedIndexesFile.
use pgfathom.Base.{
  refl, inl, inr, Bool, Option, none, some, List, [], ◌∷◌, text_eq, All, Bool-cases, Unicode, Str,
  codes, to_lower,
}
use pgfathom.Model.Table.{
  all_not_null, first_promotable, promotable_unique, UniqueConstraint, Table,
}
use pgfathom.Model.Finding.{KeyProbeVerdict, SuggestionKind, Suggestion}
use pgfathom.Report.Suggestions.{
  is_confirmed, confirmed_block, promote_block, synthetic_block, key_block, method_or_btree,
  index_block, write_confirmed_primary_key, write_synthetic_primary_key, index_name,
  write_promote_unique,
}
use pgfathom.Report.Commented.{
  Plain, IsCommented, comments-IsCommented, IsCommented-append, Plain-join,
}
use pgfathom.Report.Commented.Pieces.{
  IsPlainTable, IsPlainSuggestion, ref-Plain, blank-IsCommented, shortened-IsCommented,
  noted-IsCommented, index_name-Plain, ident-Plain, ident_table-Plain, columns-Plain,
  promotion-IsCommented, method-Plain, extension-IsCommented, with_opclass-Plain,
}

-- What a block is, if there is one.
abbrev pub IfCommented : Option Str → Type 0
IfCommented none = Unit
IfCommented (some s) = IsCommented s

module _ ⦃u : Unicode⦄ (hash : Str → Str) (valid : Str → Bool) (sanitize : List Str → Str)
    (hash_plain : (s : Str) → Plain (hash s))
    (lower_plain : (s : Str) → Plain s → Plain (to_lower s))
    (sanitize_plain : (ns : List Str) → All Plain ns → Plain (sanitize ns)) where
  write_promote_unique-IsCommented :
      (t : Table) (k : UniqueConstraint)
      → IsPlainTable t
      → Plain k.name
      → All Plain k.columns
      → IsCommented (write_promote_unique hash valid sanitize t k)
  unfolding write_promote_unique
  write_promote_unique-IsCommented t k h n cols =
      let (v, f) =
        index_name-Plain hash valid sanitize hash_plain lower_plain sanitize_plain (codes "ux_") t
          k.columns refl h cols in
      let r = ref-Plain t h in
      let i = ident-Plain hash valid sanitize hash_plain lower_plain sanitize_plain k.name n in
      let o = ident_table-Plain hash valid sanitize hash_plain lower_plain sanitize_plain t h in
      let idx = index_name hash valid sanitize (codes "ux_") t k.columns in
      IsCommented-append _ _
        (comments-IsCommented _ (
          (
            refl,
            (
              r,
              (
                refl,
                (
                  refl,
                  (
                    refl,
                    (
                      i,
                      (
                        refl,
                        (
                          columns-Plain hash valid sanitize hash_plain lower_plain sanitize_plain
                              k.columns cols,
                          (refl, tt),
                        ),
                      ),
                    ),
                  ),
                ),
              ),
            ),
          ),
          (
            (refl, tt),
            (
              (refl, tt),
              ((refl, (refl, (refl, (refl, (refl, tt))))), ((refl, tt), ((refl, tt), tt))),
            ),
          ),
        ))
        (IsCommented-append _ _ (shortened-IsCommented idx f) (
          IsCommented-append _ _
            (promotion-IsCommented hash valid sanitize hash_plain lower_plain sanitize_plain idx t
              k.columns v h cols)
            (IsCommented-append _ _
              (comments-IsCommented _ ((refl, (o, (refl, (i, (refl, tt))))), tt))
              blank-IsCommented)))

  write_confirmed_primary_key-IsCommented :
      (t : Table) (cols : List Str)
      → IsPlainTable t
      → All Plain cols
      → IsCommented (write_confirmed_primary_key hash valid sanitize t cols)
  unfolding write_confirmed_primary_key
  write_confirmed_primary_key-IsCommented t cols h k =
      let (v, f) =
        index_name-Plain hash valid sanitize hash_plain lower_plain sanitize_plain (codes "ux_") t
          cols refl h k in
      let idx = index_name hash valid sanitize (codes "ux_") t cols in
      IsCommented-append _ _
        (comments-IsCommented _ (
          (refl, (ref-Plain t h, (refl, (refl, (refl, tt))))),
          (
            (refl, (Plain-join (codes ", ") cols refl k, (refl, tt))),
            (tt, ((refl, tt), ((refl, tt), ((refl, (refl, (refl, tt))), tt)))),
          ),
        ))
        (IsCommented-append _ _ (shortened-IsCommented idx f) (
          IsCommented-append _ _
            (promotion-IsCommented hash valid sanitize hash_plain lower_plain sanitize_plain idx t
              cols v h k)
            blank-IsCommented))

  write_synthetic_primary_key-IsCommented :
      (t : Table) (column note : Str)
      → IsPlainTable t
      → Plain column
      → Plain note
      → IsCommented (write_synthetic_primary_key hash valid sanitize t column note)
  unfolding write_synthetic_primary_key
  write_synthetic_primary_key-IsCommented t column note h c n =
      let (v, f) =
        index_name-Plain hash valid sanitize hash_plain lower_plain sanitize_plain (codes "ux_") t
          (column ∷ []) refl h (c, tt) in
      let idx = index_name hash valid sanitize (codes "ux_") t (column ∷ []) in
      IsCommented-append _ _
        (comments-IsCommented _ ((refl, (ref-Plain t h, (refl, (refl, (refl, tt))))), tt))
        (IsCommented-append _ _ (noted-IsCommented note n) (
          IsCommented-append _ _
            (comments-IsCommented _
              (tt, ((refl, tt), ((refl, (refl, (refl, tt))), ((refl, tt), ((refl, tt), tt))))))
            (IsCommented-append _ _ (shortened-IsCommented idx f) (
              IsCommented-append _ _
                (comments-IsCommented _ (
                  (
                    refl,
                    (
                      ident_table-Plain hash valid sanitize hash_plain lower_plain sanitize_plain t
                          h,
                      (
                        refl,
                        (
                          ident-Plain hash valid sanitize hash_plain lower_plain sanitize_plain
                              column c,
                          (refl, tt),
                        ),
                      ),
                    ),
                  ),
                  tt,
                ))
                (IsCommented-append _ _
                  (promotion-IsCommented hash valid sanitize hash_plain lower_plain sanitize_plain
                    idx t (column ∷ []) v h (c, tt))
                  blank-IsCommented)))))

  pub index_block-IsCommented :
      (t : Table) (object : Str) (s : Suggestion)
      → IsPlainTable t
      → Plain object
      → IsPlainSuggestion s
      → IsCommented (index_block hash valid sanitize t object s)
  index_block-IsCommented t object s h o k =
      let cols = s.columns in
      let method = method_or_btree s.index_method in
      let (v, f) =
        index_name-Plain hash valid sanitize hash_plain lower_plain sanitize_plain (codes "ix_") t
          cols refl h k.columns_plain in
      let idx = index_name hash valid sanitize (codes "ix_") t cols in
      IsCommented-append _ _ (comments-IsCommented _ ((refl, (o, (refl, (refl, (refl, tt))))), tt))
        (IsCommented-append _ _ (noted-IsCommented s.note k.note_plain) (
          IsCommented-append _ _
            (extension-IsCommented hash valid sanitize hash_plain lower_plain sanitize_plain method
              s.index_opclass)
            (IsCommented-append _ _
              (comments-IsCommented _ (tt, ((refl, tt), ((refl, tt), ((refl, tt), tt)))))
              (IsCommented-append _ _ (shortened-IsCommented idx f) (
                IsCommented-append _ _
                  (comments-IsCommented _ (
                    (
                      refl,
                      (
                        ident-Plain hash valid sanitize hash_plain lower_plain sanitize_plain
                            idx.value v,
                        (
                          refl,
                          (
                            ident_table-Plain hash valid sanitize hash_plain lower_plain
                                sanitize_plain t h,
                            (
                              refl,
                              (
                                method-Plain hash valid sanitize hash_plain lower_plain
                                    sanitize_plain s.index_method k.method_plain,
                                (
                                  refl,
                                  (
                                    with_opclass-Plain hash valid sanitize hash_plain lower_plain
                                        sanitize_plain cols s.index_opclass k.columns_plain
                                        k.opclass_plain,
                                    (refl, tt),
                                  ),
                                ),
                              ),
                            ),
                          ),
                        ),
                      ),
                    ),
                    tt,
                  ))
                  blank-IsCommented)))))

  pub promote_block-IfCommented :
      (t : Table)
      → IsPlainTable t
      → IfCommented (promote_block hash valid sanitize t (promotable_unique t))
  unfolding promotable_unique
  promote_block-IfCommented t h = picked t.uniques h.uniques_plain
    where
      picked :
          (ks : List UniqueConstraint)
          → All (λ (k : UniqueConstraint). Plain k.name × All Plain k.columns) ks
          → IfCommented (promote_block hash valid sanitize t (first_promotable t ks))
      picked [] q = tt
      picked (k ∷ ks) ((n, cols), q) = elim (Bool-cases (all_not_null t k.columns)) [
        | inl e ↦ rw (first_promotable, e) (write_promote_unique-IsCommented t k h n cols)
        | inr e ↦ rw (first_promotable, e) (picked ks q)
      ]

  confirmed_block-IfCommented :
      (t : Table) (v : Option KeyProbeVerdict) (cols : List Str)
      → IsPlainTable t
      → All Plain cols
      → IfCommented (confirmed_block hash valid sanitize t v cols)
  confirmed_block-IfCommented t v [] h k = tt
  confirmed_block-IfCommented t v (c ∷ cs) h k = elim (Bool-cases (is_confirmed v)) [
    | inl e ↦ rw e (write_confirmed_primary_key-IsCommented t (c ∷ cs) h k)
    | inr e ↦ rw e tt
  ]

  synthetic_block-IfCommented :
      (t : Table) (cols : List Str) (note : Str)
      → IsPlainTable t
      → All Plain cols
      → Plain note
      → IfCommented (synthetic_block hash valid sanitize t cols note)
  synthetic_block-IfCommented t [] note h k n = tt
  synthetic_block-IfCommented t (c ∷ cs) note h k n =
      write_synthetic_primary_key-IsCommented t c note h k.0 n

  pub key_block-IfCommented :
      (t : Table) (kind : SuggestionKind) (s : Suggestion)
      → IsPlainTable t
      → IsPlainSuggestion s
      → IfCommented (key_block hash valid sanitize t kind s)
  unfolding key_block
  key_block-IfCommented t SuggestionKind.promote_unique s h k = promote_block-IfCommented t h
  key_block-IfCommented t SuggestionKind.create_primary_key s h k =
      confirmed_block-IfCommented t s.key_probe s.columns h k.columns_plain
  key_block-IfCommented t SuggestionKind.synthetic_primary_key s h k =
      synthetic_block-IfCommented t s.columns s.note h k.columns_plain k.note_plain
  key_block-IfCommented t SuggestionKind.create_index s h k = tt
