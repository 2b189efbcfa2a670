-- ===== src/Report/Commented/Pieces.antt =====
-- internal/report/sql.go: the names and lists in the blocks of the suggestions.
use pgfathom.Base.{
  map, refl, inl, inr, Bool, List, [], ◌∷◌, ◌++◌, text_eq, All, Bool-cases, Unicode, Str, codes,
  str_eq, to_lower,
}
use pgfathom.Model.Refs.{join}
use pgfathom.Model.Table.{UniqueConstraint, Table, ref}
use pgfathom.Model.Finding.{Suggestion}
use pgfathom.Report.Names.{
  with_opclass, column_list_with_opclass, required_extension, Identifier, ident, ident_table,
  quoted_idents,
}
use pgfathom.Report.Lines.{comments, blank}
use pgfathom.Report.Suggestions.{
  method_or_btree, extension_reminder, shortened, noted, index_name, promotion,
}
use pgfathom.Report.Commented.{
  Plain, IsCommented, nothing, empty_line, comments-IsCommented, Plain-append, Plain-join,
  truncate_ident-Plain,
}

-- No name of the table has a line break.
pub record IsPlainTable (t : Table) : Type 0 where
  pub schema_plain : Plain t.schema
  pub name_plain : Plain t.name
  pub uniques_plain : All (λ (k : UniqueConstraint). Plain k.name × All Plain k.columns) t.uniques

-- Nor has a text of the suggestion.
pub record IsPlainSuggestion (s : Suggestion) : Type 0 where
  pub columns_plain : All Plain s.columns
  pub method_plain : Plain s.index_method
  pub opclass_plain : Plain s.index_opclass
  pub note_plain : Plain s.note

pub ref-Plain : (t : Table) → IsPlainTable t → Plain (ref t)
ref-Plain t h =
    Plain-append t.schema _ h.schema_plain (Plain-append (codes ".") t.name refl h.name_plain)

pub blank-IsCommented : IsCommented blank
blank-IsCommented = empty_line [] nothing

pub shortened-IsCommented :
    (idx : Identifier) → Plain idx.full → IsCommented (comments (shortened idx))
shortened-IsCommented idx h = elim (Bool-cases idx.truncated) [
  | inl e ↦ rw e (comments-IsCommented _ ((refl, (h, (refl, tt))), tt))
  | inr e ↦ rw e (comments-IsCommented [] tt)
]

pub noted-IsCommented : (note : Str) → Plain note → IsCommented (comments (noted note))
noted-IsCommented note h = elim (Bool-cases (str_eq note [])) [
  | inl e ↦ rw e (comments-IsCommented [] tt)
  | inr e ↦ rw e (comments-IsCommented _ ((refl, (h, tt)), tt))
]

module _ ⦃u : Unicode⦄ (hash : Str → Str) (valid : Str → Bool) (sanitize : List Str → Str)
    (hash_plain : (s : Str) → Plain (hash s))
    (lower_plain : (s : Str) → Plain s → Plain (to_lower s))
    (sanitize_plain : (ns : List Str) → All Plain ns → Plain (sanitize ns)) where
  quoted_idents-Plain : (ns : List Str) → All Plain ns → All Plain (quoted_idents sanitize ns)
  unfolding quoted_idents
  quoted_idents-Plain [] h = tt
  quoted_idents-Plain (n ∷ ns) (p, h) = (sanitize_plain (n ∷ []) (p, tt), quoted_idents-Plain ns h)

  -- What the names of an index need.
  pub index_name-Plain :
      (prefix : Str) (t : Table) (cols : List Str)
      → Plain prefix
      → IsPlainTable t
      → All Plain cols
      → Plain (index_name hash valid sanitize prefix t cols).value
        × Plain (index_name hash valid sanitize prefix t cols).full
  index_name-Plain prefix t cols p h k =
      let joined = join (codes "_") cols in
      truncate_ident-Plain hash valid hash_plain lower_plain
        (prefix ++ (t.name ++ (codes "_" ++ joined)))
        (Plain-append prefix (t.name ++ (codes "_" ++ joined)) p (
          Plain-append t.name (codes "_" ++ joined) h.name_plain
            (Plain-append (codes "_") joined refl (Plain-join (codes "_") cols refl k))))

  pub ident-Plain : (n : Str) → Plain n → Plain (ident sanitize n)
  ident-Plain n p = sanitize_plain (n ∷ []) (p, tt)

  pub ident_table-Plain :
      (t : Table) → IsPlainTable t → Plain (ident_table sanitize t.schema t.name)
  ident_table-Plain t h =
      sanitize_plain (t.schema ∷ t.name ∷ []) (h.schema_plain, (h.name_plain, tt))

  pub columns-Plain :
      (cols : List Str) → All Plain cols → Plain (join (codes ", ") (quoted_idents sanitize cols))
  columns-Plain cols k =
      Plain-join (codes ", ") (quoted_idents sanitize cols) refl (quoted_idents-Plain cols k)

  pub promotion-IsCommented :
      (idx : Identifier) (t : Table) (cols : List Str)
      → Plain idx.value
      → IsPlainTable t
      → All Plain cols
      → IsCommented (comments (promotion hash valid sanitize idx t cols))
  promotion-IsCommented idx t cols p h k =
      let i = ident-Plain idx.value p in
      let o = ident_table-Plain t h in
      comments-IsCommented _ (
        (refl, (i, (refl, (o, (refl, (columns-Plain cols k, (refl, tt))))))),
        ((refl, (o, (refl, (i, (refl, tt))))), tt),
      )

  pub method-Plain : (method : Str) → Plain method → Plain (method_or_btree method)
  method-Plain method h = elim (Bool-cases (str_eq method [])) [
    | inl e ↦ rw e refl
    | inr e ↦ rw e h
  ]

  pub extension-IsCommented :
      (method opclass : Str) → IsCommented (comments (extension_reminder method opclass))
  unfolding required_extension
  extension-IsCommented method opclass = elim (Bool-cases (str_eq opclass (codes "gin_trgm_ops"))) [
    | inl e ↦ rw e (comments-IsCommented _ ((refl, (refl, (refl, tt))), tt))
    | inr e ↦ elim (Bool-cases (str_eq method (codes "hnsw"))) [
      | inl f ↦ rw (e, f) (comments-IsCommented _ ((refl, (refl, (refl, tt))), tt))
      | inr f ↦ rw (e, f) (comments-IsCommented [] tt)
    ]
  ]

  one_opclass-Plain :
      (opclass c : Str) → Plain opclass → Plain c → Plain (with_opclass sanitize opclass c)
  one_opclass-Plain opclass c o p = elim (Bool-cases (str_eq opclass [])) [
    | inl e ↦ rw e (ident-Plain c p)
    | inr e ↦ rw e (
        Plain-append (ident sanitize c) (codes " " ++ opclass) (ident-Plain c p)
          (Plain-append (codes " ") opclass refl o))
  ]

  pub with_opclass-Plain :
      (cols : List Str) (opclass : Str)
      → All Plain cols
      → Plain opclass
      → Plain (column_list_with_opclass sanitize cols opclass)
  unfolding column_list_with_opclass
  with_opclass-Plain cols opclass h o =
      Plain-join (codes ", ") (map (λ c. with_opclass sanitize opclass c) cols) refl (each cols h)
    where
      each :
          (cs : List Str) → All Plain cs → All Plain (map (λ c. with_opclass sanitize opclass c) cs)
      each [] h = tt
      each (c ∷ cs) (p, h) = (one_opclass-Plain opclass c o p, each cs h)
