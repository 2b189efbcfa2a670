-- ===== src/Report/Relations/Listing.antt =====
-- internal/report/sql.go, brokenFile: what of the file is a statement.
use pgfathom.Base.{
  ℕ, refl, inl, inr, Bool, Option, none, some, List, [], ◌∷◌, ◌++◌, map, append-nil, itoa-any,
  text_eq, Float, ℤ, IsIn, All, All-append, All-IsIn, ◌==◌, Bool-cases, Unicode, Str, codes,
  to_lower,
}
use pgfathom.Model.Refs.{KeyRef, key_string, key_suffix, join}
use pgfathom.Model.Candidate.{Validation, Candidate, is_full}
use pgfathom.Report.Names.{Identifier, ident, qualify, column_list}
use pgfathom.Report.Lines.{blank, Header}
use pgfathom.Report.Commented.{
  Plain, IsCommented, nothing, empty_line, comments-IsCommented, Plain-append, Plain-join,
  truncate_ident-Plain,
}
use pgfathom.Report.Commented.Files.{IsPlainHeader, render-IsCommented}
use pgfathom.Report.Relations.Select.{IsPhrase, IsSelect, orphan_query-IsSelect}
use pgfathom.Report.Relations.{
  orphan_query, exempt_note, relation_comment, floor_note, broken_reading, constraint_name,
  broken_opening, broken_step_3, broken_blocks, broken_body, broken_file,
}

-- No name of the key has a line break.
pub record IsPlainKey (r : KeyRef) : Type 0 where
  pub schema_plain : Plain r.schema
  pub table_plain : Plain r.table
  pub columns_plain : All Plain r.columns

key_suffix-Plain : (cols : List Str) → All Plain cols → Plain (key_suffix cols)
unfolding key_suffix
key_suffix-Plain [] h = refl
key_suffix-Plain (c ∷ []) h = h.0
key_suffix-Plain (c ∷ d ∷ cols) h =
    let joined = join (codes ", ") (c ∷ d ∷ cols) in
    Plain-append (codes "(") (joined ++ codes ")") refl
      (Plain-append joined (codes ")") (Plain-join (codes ", ") (c ∷ d ∷ cols) refl h) refl)

key_string-Plain : (r : KeyRef) → IsPlainKey r → Plain (key_string r)
unfolding key_string
key_string-Plain r h =
    let suffix = codes "." ++ key_suffix r.columns in
    Plain-append (r.schema ++ (codes "." ++ r.table)) suffix
      (Plain-append r.schema (codes "." ++ r.table) h.schema_plain
        (Plain-append (codes ".") r.table refl h.table_plain))
      (Plain-append (codes ".") (key_suffix r.columns) refl
        (key_suffix-Plain r.columns h.columns_plain))

All-concat :
    (ls ms : List (List Str)) → All (All Plain) ls → All (All Plain) ms → All (All Plain) (ls ++ ms)
All-concat ls ms h k = All-append (All Plain) ls ms h k

module _ ⦃F : Float⦄ where
  -- Neither key of the candidate has a name with a line break.
  abbrev pub IsPlainPair : Candidate → Type 0
  IsPlainPair c = IsPlainKey c.child × IsPlainKey c.parent

  -- The text has comments, empty lines, and the listings of the orphans of these candidates, each
  -- one SELECT.
  pub data IsListing (sanitize : List Str → Str) (cs : List Candidate) : Str → Type 0 where
    done : IsListing sanitize cs []
    remark : (s t : Str) → IsCommented s → IsListing sanitize cs t → IsListing sanitize cs (s ++ t)
    listing :
        (c : Candidate) (t : Str)
        → IsIn c cs
        → IsSelect (orphan_query sanitize c)
        → IsListing sanitize cs t
        → IsListing sanitize cs (orphan_query sanitize c ++ t)

module _ ⦃F : Float⦄ ⦃u : Unicode⦄ (hash : Str → Str) (valid : Str → Bool)
    (sanitize : List Str → Str) (hash_plain : (s : Str) → Plain (hash s))
    (lower_plain : (s : Str) → Plain s → Plain (to_lower s))
    (sanitize_plain : (ns : List Str) → All Plain ns → Plain (sanitize ns))
    (sanitize_phrase : (ns : List Str) → IsPhrase (sanitize ns))
    (format_plain : (x : F.F64) (k : ℕ) → Plain (F.format x k)) where
  only_remark : (cs : List Candidate) (s : Str) → IsCommented s → IsListing sanitize cs s
  only_remark cs s h =
      let twice : IsListing sanitize cs (s ++ []) = remark s [] h done in rw (append-nil s) at twice

  idents-Plain : (cols : List Str) → All Plain cols → All Plain (map (λ c. ident sanitize c) cols)
  idents-Plain [] h = tt
  idents-Plain (c ∷ cols) (p, h) = (sanitize_plain (c ∷ []) (p, tt), idents-Plain cols h)

  column_list-Plain : (r : KeyRef) → IsPlainKey r → Plain (column_list sanitize r)
  column_list-Plain r h =
      Plain-join (codes ", ") (map (λ c. ident sanitize c) r.columns) refl
        (idents-Plain r.columns h.columns_plain)

  qualify-Plain : (r : KeyRef) → IsPlainKey r → Plain (qualify sanitize r)
  qualify-Plain r h = sanitize_plain (r.schema ∷ r.table ∷ []) (h.schema_plain, (h.table_plain, tt))

  constraint_name-Plain :
      (c : Candidate)
      → IsPlainKey c.child
      → Plain (constraint_name hash valid sanitize c).value
        × Plain (constraint_name hash valid sanitize c).full
  constraint_name-Plain c h =
      let joined = join (codes "_") c.child.columns in
      let tail = codes "_" ++ joined in
      truncate_ident-Plain hash valid hash_plain lower_plain
        (codes "fk_" ++ (c.child.table ++ tail))
        (Plain-append (codes "fk_") (c.child.table ++ tail) refl (
          Plain-append c.child.table tail h.table_plain (
            Plain-append (codes "_") joined refl
              (Plain-join (codes "_") c.child.columns refl h.columns_plain))))

  exempt_note-Plain : (v : Validation) → All (All Plain) (exempt_note sanitize v)
  exempt_note-Plain v = elim (Bool-cases (v.partial_null_rows == 0)) [
    | inl e ↦ rw e tt
    | inr e ↦ rw e (
      (refl, (itoa-any v.partial_null_rows, (refl, tt))),
      ((refl, (refl, (refl, (refl, (refl, tt))))), ((refl, tt), tt)),
    )
  ]

  floor_note-Plain : (v : Validation) → Plain (floor_note sanitize v)
  floor_note-Plain v = elim (Bool-cases (is_full v.method)) [
    | inl e ↦ rw e refl
    | inr e ↦ rw e refl
  ]

  broken_reading-Plain : (v : Option Validation) → All (All Plain) (broken_reading sanitize v)
  broken_reading-Plain none = tt
  broken_reading-Plain (some v) = (
    (
      refl,
      (
        itoa-any v.orphan_rows,
        (
          refl,
          (
            itoa-any v.orphan_vals,
            (
              refl,
              (
                floor_note-Plain v,
                (refl, (format_plain _ 1, (refl, (itoa-any v.not_null_rows, (refl, tt))))),
              ),
            ),
          ),
        ),
      ),
    ),
    exempt_note-Plain v,
  )

  relation_comment-Plain :
      (c : Candidate) (name : Identifier)
      → IsPlainPair c
      → Plain name.full
      → All (All Plain) (relation_comment sanitize c name)
  relation_comment-Plain c name (h, k) p = elim (Bool-cases name.truncated) [
    | inl e ↦ rw e (
      (
        refl,
        (key_string-Plain c.child h, (refl, (refl, (refl, (key_string-Plain c.parent k, tt))))),
      ),
      ((refl, (p, (refl, tt))), tt),
    )
    | inr e ↦ rw e (
      (
        refl,
        (key_string-Plain c.child h, (refl, (refl, (refl, (key_string-Plain c.parent k, tt))))),
      ),
      tt,
    )
  ]

  broken_step_3-Plain :
      (c : Candidate) → IsPlainPair c → All (All Plain) (broken_step_3 hash valid sanitize c)
  broken_step_3-Plain c (h, k) =
      let name = constraint_name hash valid sanitize c in
      (
        (refl, (refl, (refl, tt))),
        (
          (refl, (qualify-Plain c.child h, tt)),
          (
            (refl, (sanitize_plain (name.value ∷ []) ((constraint_name-Plain c h).0, tt), tt)),
            (
              (
                refl,
                (
                  column_list-Plain c.child h,
                  (
                    refl,
                    (qualify-Plain c.parent k, (refl, (column_list-Plain c.parent k, (refl, tt)))),
                  ),
                ),
              ),
              ((refl, tt), tt),
            ),
          ),
        ),
      )

  broken_blocks-IsListing :
      (every cs : List Candidate)
      → All (λ c. IsIn c every) cs
      → All IsPlainPair cs
      → IsListing sanitize every (broken_blocks hash valid sanitize cs)
  unfolding broken_blocks
  broken_blocks-IsListing every [] i h = done
  broken_blocks-IsListing every (c ∷ cs) (m, i) (p, h) =
      let full = (constraint_name-Plain c p.0).1 in
      remark _ _
        (comments-IsCommented (broken_opening hash valid sanitize c) (
          All-concat (relation_comment sanitize c (constraint_name hash valid sanitize c))
            (broken_reading sanitize c.validation)
            (relation_comment-Plain c (constraint_name hash valid sanitize c) p full)
            (broken_reading-Plain c.validation)))
        (remark blank _ (empty_line [] nothing) (
          remark _ _ (comments-IsCommented _ ((refl, (refl, (refl, tt))), tt)) (
            listing c _ m (orphan_query-IsSelect sanitize sanitize_phrase c) (
              remark blank _ (empty_line [] nothing) (
                remark _ _ (comments-IsCommented _ ((refl, (refl, (refl, tt))), tt)) (
                  remark blank _ (empty_line [] nothing) (
                    remark _ _ (comments-IsCommented _ (broken_step_3-Plain c p)) (
                      remark blank _ (empty_line [] nothing)
                        (broken_blocks-IsListing every cs i h)))))))))

  broken_body-IsListing :
      (cs : List Candidate)
      → All IsPlainPair cs
      → IsListing sanitize cs (broken_body hash valid sanitize cs)
  unfolding broken_body
  broken_body-IsListing [] h = only_remark [] _ (comments-IsCommented _ ((refl, tt), tt))
  broken_body-IsListing (c ∷ cs) h =
      remark _ _
        (comments-IsCommented _ (
          (refl, tt),
          ((refl, tt), ((refl, (refl, (refl, tt))), ((refl, (refl, (refl, tt))), tt))),
        ))
        (remark blank _ (empty_line [] nothing)
          (broken_blocks-IsListing (c ∷ cs) (c ∷ cs) (All-IsIn (c ∷ cs)) h))

  -- Where no name has a line break, and each is quoted, all that the file of broken relationships
  -- runs is the listings of their orphans, each one SELECT with no other statement in it: every other
  -- line is empty or a comment.
  pub broken_file-IsListing :
      (rfc3339 : ℤ → Str) (time_plain : (t : ℤ) → Plain (rfc3339 t)) (h : Header)
      (cs : List Candidate)
      → IsPlainHeader rfc3339 time_plain h
      → All IsPlainPair cs
      → IsListing sanitize cs (broken_file hash valid sanitize rfc3339 h cs)
  unfolding broken_file
  broken_file-IsListing rfc3339 time_plain h cs p k =
      remark _ _
        (render-IsCommented rfc3339 time_plain h (codes "relationships the data contradicts") p
          refl)
        (broken_body-IsListing cs k)
