-- ===== src/Report/Commented/Files.antt =====
-- internal/report/sql.go: suggestedKeysFile and suggestedIndexesFile as a whole.
use pgfathom.Base.{
  ℕ, refl, inl, inr, Bool, true, false, Option, none, some, List, [], ◌∷◌, text_eq, ℤ, length, All,
  ◌==◌, Bool-cases, Unicode, Str, codes, str_eq, to_lower,
}
use pgfathom.Model.Table.{Table, Schema, ref}
use pgfathom.Model.Finding.{Suggestion, Finding}
use pgfathom.Report.Names.{or_else, non_empty, find_by_ref, table_by_ref}
use pgfathom.Report.Lines.{comments, Header, opening, sampled_warning, render}
use pgfathom.Report.Suggestions.{
  no_keys, no_indexes, is_missing_key, is_hot_column, and_then, Written, key_block_of, write_keys,
  before_last_dot, index_block_of, write_index_recommendation, recommend_block, write_indexes,
  suggested_keys_file, suggested_indexes_file,
}
use pgfathom.Report.Commented.{
  Plain, IsCommented, nothing, empty_line, comments-IsCommented, IsCommented-append,
}
use pgfathom.Report.Commented.Pieces.{IsPlainTable, IsPlainSuggestion}
use pgfathom.Report.Commented.Blocks.{IfCommented, key_block-IfCommented, index_block-IsCommented}

no_keys-IsCommented : (n : ℕ) → IsCommented (comments (no_keys n))
no_keys-IsCommented n = elim (Bool-cases (n == 0)) [
  | inl e ↦ rw e (comments-IsCommented _ ((refl, tt), ((refl, tt), tt)))
  | inr e ↦ rw e (comments-IsCommented [] tt)
]

no_indexes-IsCommented : (n : ℕ) → IsCommented (comments (no_indexes n))
no_indexes-IsCommented n = elim (Bool-cases (n == 0)) [
  | inl e ↦ rw e (comments-IsCommented _ ((refl, tt), tt))
  | inr e ↦ rw e (comments-IsCommented [] tt)
]

abbrev IfPlainTable : Option Table → Type 0
IfPlainTable none = Unit
IfPlainTable (some t) = IsPlainTable t

abbrev IfPlainSuggestion : Option Suggestion → Type 0
IfPlainSuggestion none = Unit
IfPlainSuggestion (some s) = IsPlainSuggestion s

-- No name of the schemas, and no text of the findings, has a line break.
abbrev pub ArePlainTables : List Schema → Type 0
ArePlainTables ss = All (λ (s : Schema). All IsPlainTable s.tables) ss

abbrev pub ArePlainFindings : List Finding → Type 0
ArePlainFindings fs = All (λ (f : Finding). Plain f.object × IfPlainSuggestion f.suggestion) fs

find_by_ref-IfPlainTable :
    (ts : List Table) (name : Str) → All IsPlainTable ts → IfPlainTable (find_by_ref ts name)
unfolding find_by_ref
find_by_ref-IfPlainTable [] name h = tt
find_by_ref-IfPlainTable (t ∷ ts) name (p, h) = elim (Bool-cases (str_eq (ref t) name)) [
  | inl e ↦ rw e p
  | inr e ↦ rw e (find_by_ref-IfPlainTable ts name h)
]

or_else-IfPlainTable :
    (o rest : Option Table) → IfPlainTable o → IfPlainTable rest → IfPlainTable (or_else o rest)
or_else-IfPlainTable none rest h k = k
or_else-IfPlainTable (some t) rest h k = h

table_by_ref-IfPlainTable :
    (ss : List Schema) (name : Str) → ArePlainTables ss → IfPlainTable (table_by_ref ss name)
unfolding table_by_ref
table_by_ref-IfPlainTable [] name h = tt
table_by_ref-IfPlainTable (s ∷ ss) name (p, h) =
    or_else-IfPlainTable (find_by_ref s.tables name) (table_by_ref ss name)
      (find_by_ref-IfPlainTable s.tables name p) (table_by_ref-IfPlainTable ss name h)

and_then-IsCommented :
    (o : Option Str) (w : Written) → IfCommented o → IsCommented w.0 → IsCommented (and_then o w).0
and_then-IsCommented none (text, n) h k = k
and_then-IsCommented (some b) (text, n) h k = IsCommented-append b text h k

module _ (rfc3339 : ℤ → Str) (time_plain : (t : ℤ) → Plain (rfc3339 t)) where
  -- No text of the header has a line break.
  pub record IsPlainHeader (h : Header) : Type 0 where
    pub tool_plain : Plain h.tool
    pub version_plain : Plain h.version
    pub server_plain : Plain h.server
    pub mode_plain : Plain h.mode

  non_empty-Plain : (s : Str) → Plain s → Plain (non_empty s (codes "unknown"))
  non_empty-Plain s h = elim (Bool-cases (str_eq s [])) [ inl e ↦ rw e refl | inr e ↦ rw e h ]

  sampled_warning-IsCommented : (sampled : Bool) → IsCommented (comments (sampled_warning sampled))
  sampled_warning-IsCommented true =
      comments-IsCommented _ (tt, ((refl, tt), ((refl, tt), ((refl, tt), ((refl, tt), tt)))))
  sampled_warning-IsCommented false = comments-IsCommented [] tt

  pub render-IsCommented :
      (h : Header) (subject : Str)
      → IsPlainHeader h
      → Plain subject
      → IsCommented (render rfc3339 h subject)
  unfolding render
  render-IsCommented h subject p s =
      IsCommented-append _ _
        (comments-IsCommented (opening rfc3339 h subject) (
          (refl, (p.tool_plain, (refl, (p.version_plain, (refl, (refl, (refl, (s, tt)))))))),
          (
            (refl, (time_plain h.generated, tt)),
            (
              (refl, (non_empty-Plain h.server p.server_plain, tt)),
              ((refl, (p.mode_plain, tt)), (tt, ((refl, tt), ((refl, tt), ((refl, tt), tt))))),
            ),
          ),
        ))
        (IsCommented-append _ _ (sampled_warning-IsCommented h.sampled) (empty_line [] nothing))

  module _ ⦃u : Unicode⦄ (hash : Str → Str) (valid : Str → Bool) (sanitize : List Str → Str)
      (hash_plain : (s : Str) → Plain (hash s))
      (lower_plain : (s : Str) → Plain s → Plain (to_lower s))
      (sanitize_plain : (ns : List Str) → All Plain ns → Plain (sanitize ns)) where
    key_block_of-IfCommented :
        (t : Option Table) (s : Option Suggestion)
        → IfPlainTable t
        → IfPlainSuggestion s
        → IfCommented (key_block_of hash valid sanitize t s)
    key_block_of-IfCommented t none h k = tt
    key_block_of-IfCommented none (some s) h k = tt
    key_block_of-IfCommented (some t) (some s) h k =
        key_block-IfCommented hash valid sanitize hash_plain lower_plain sanitize_plain t s.kind s h
          k

    write_keys-IsCommented :
        (ss : List Schema) (fs : List Finding)
        → ArePlainTables ss
        → ArePlainFindings fs
        → IsCommented (write_keys hash valid sanitize ss fs).0
    unfolding write_keys
    write_keys-IsCommented ss [] h k = nothing
    write_keys-IsCommented ss (f ∷ fs) h ((o, p), k) =
        let rest = write_keys-IsCommented ss fs h k in
        elim (Bool-cases (is_missing_key f.kind)) [
          | inr e ↦ rw e rest
          | inl e ↦ rw e (
              and_then-IsCommented
                (key_block_of hash valid sanitize (table_by_ref ss f.object) f.suggestion)
                (write_keys hash valid sanitize ss fs)
                (key_block_of-IfCommented (table_by_ref ss f.object) f.suggestion
                  (table_by_ref-IfPlainTable ss f.object h) p)
                rest)
        ]

    index_block_of-IfCommented :
        (t : Option Table) (object : Str) (s : Suggestion)
        → IfPlainTable t
        → Plain object
        → IsPlainSuggestion s
        → IfCommented (index_block_of hash valid sanitize t object s)
    index_block_of-IfCommented none object s h o k = tt
    index_block_of-IfCommented (some t) object s h o k =
        index_block-IsCommented hash valid sanitize hash_plain lower_plain sanitize_plain t object s
          h o k

    recommendation-IfCommented :
        (ss : List Schema) (owner : Option Str) (object : Str) (s : Suggestion)
        → ArePlainTables ss
        → Plain object
        → IsPlainSuggestion s
        → IfCommented (write_index_recommendation hash valid sanitize ss owner object s)
    recommendation-IfCommented ss none object s h o k = tt
    recommendation-IfCommented ss (some owner) object s h o k =
        index_block_of-IfCommented (table_by_ref ss owner) object s
          (table_by_ref-IfPlainTable ss owner h) o k

    recommend_block-IfCommented :
        (ss : List Schema) (object : Str) (s : Option Suggestion)
        → ArePlainTables ss
        → Plain object
        → IfPlainSuggestion s
        → IfCommented (recommend_block hash valid sanitize ss object s)
    recommend_block-IfCommented ss object none h o k = tt
    recommend_block-IfCommented ss object (some s) h o k =
        elim (Bool-cases (length s.columns == 0)) [
          | inl e ↦ rw e tt
          | inr e ↦ rw e (recommendation-IfCommented ss (before_last_dot object) object s h o k)
        ]

    write_indexes-IsCommented :
        (ss : List Schema) (fs : List Finding)
        → ArePlainTables ss
        → ArePlainFindings fs
        → IsCommented (write_indexes hash valid sanitize ss fs).0
    unfolding write_indexes
    write_indexes-IsCommented ss [] h k = nothing
    write_indexes-IsCommented ss (f ∷ fs) h ((o, p), k) =
        let rest = write_indexes-IsCommented ss fs h k in
        elim (Bool-cases (is_hot_column f.kind)) [
          | inr e ↦ rw e rest
          | inl e ↦ rw e (
              and_then-IsCommented (recommend_block hash valid sanitize ss f.object f.suggestion)
                (write_indexes hash valid sanitize ss fs)
                (recommend_block-IfCommented ss f.object f.suggestion h o p) rest)
        ]

    keys_file-IsCommented :
        (h : Header) (ss : List Schema) (fs : List Finding)
        → IsPlainHeader h
        → ArePlainTables ss
        → ArePlainFindings fs
        → IsCommented (suggested_keys_file hash valid sanitize rfc3339 h ss fs).0
    unfolding suggested_keys_file
    keys_file-IsCommented h ss fs p t k =
        IsCommented-append _ _
          (render-IsCommented h (codes "primary keys the catalog or a full-scan probe supports") p
            refl)
          (IsCommented-append _ _ (write_keys-IsCommented ss fs t k)
            (no_keys-IsCommented (write_keys hash valid sanitize ss fs).1))

    indexes_file-IsCommented :
        (h : Header) (ss : List Schema) (fs : List Finding)
        → IsPlainHeader h
        → ArePlainTables ss
        → ArePlainFindings fs
        → IsCommented (suggested_indexes_file hash valid sanitize rfc3339 h ss fs).0
    unfolding suggested_indexes_file
    indexes_file-IsCommented h ss fs p t k =
        IsCommented-append _ _
          (render-IsCommented h (codes "indexes real code repeatedly asks for and does not have") p
            refl)
          (IsCommented-append _ _ (write_indexes-IsCommented ss fs t k)
            (no_indexes-IsCommented (write_indexes hash valid sanitize ss fs).1))

    -- Where no name of the catalog and no text of a finding has a line break, every line of the two
    -- files of suggestions is empty or a comment, so neither runs a statement.
    pub suggested_files-IsCommented :
        (h : Header) (ss : List Schema) (fs : List Finding)
        → IsPlainHeader h
        → ArePlainTables ss
        → ArePlainFindings fs
        → IsCommented (suggested_keys_file hash valid sanitize rfc3339 h ss fs).0
          × IsCommented (suggested_indexes_file hash valid sanitize rfc3339 h ss fs).0
    suggested_files-IsCommented h ss fs p t k =
        (keys_file-IsCommented h ss fs p t k, indexes_file-IsCommented h ss fs p t k)
