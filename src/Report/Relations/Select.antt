-- ===== src/Report/Relations/Select.antt =====
-- internal/report/sql.go, orphanQuery: what kind of statement the text is.
use pgfathom.Base.{
  ℕ, zero, suc, ◌+◌, ◌≡◌, refl, ap, ◌∙◌, Bool, false, not, ◌&&◌, List, [], ◌∷◌, ◌++◌, map,
  append_assoc, arith, itoa, itoa-All, text_eq, Float, All, ◌==◌, if◌then◌else◌, Str, codes,
}
use pgfathom.Model.Refs.{KeyRef, join, arity}
use pgfathom.Report.Names.{ident, qualify}
use pgfathom.Report.Relations.{
  group_ordinals, Candidate, orphan_query, ordinals_from, not_null_tests, match_tests, anti_join,
}

-- No semicolon of the text stands outside double quotes, and no quote stays open; `opened` tells
-- whether one is open in front of it.
unfoldable pub unbroken : Bool → Str → Bool
unbroken opened [] = not opened
unbroken opened (c ∷ s) =
    not (c == b';' && not opened) && unbroken (if c == b'"' then not opened else opened) s

-- Whatever follows it, the text ends no statement and leaves no quote open.
abbrev pub IsPhrase : Str → Type 0
IsPhrase s = (t : Str) → unbroken false (s ++ t) ≡ unbroken false t

-- One SELECT: between the word and the semicolon at the end there is no other end of a statement.
pub record IsSelect (query : Str) : Type 0 where
  pub body : Str
  pub one_select : query ≡ codes "SELECT " ++ (body ++ codes ";\n")
  pub phrase : IsPhrase body

pub Phrase-append : (s t : Str) → IsPhrase s → IsPhrase t → IsPhrase (s ++ t)
Phrase-append s t h k r = ap (unbroken false) (append_assoc s t r) ∙ (h (t ++ r) ∙ k r)

pub Phrase-join :
    (sep : Str) (ss : List Str) → IsPhrase sep → All IsPhrase ss → IsPhrase (join sep ss)
Phrase-join sep [] p h = λ t. refl
Phrase-join sep (s ∷ []) p (q, h) = q
Phrase-join sep (s ∷ t ∷ ss) p (q, h) =
    Phrase-append s (sep ++ join sep (t ∷ ss)) q
      (Phrase-append sep (join sep (t ∷ ss)) p (Phrase-join sep (t ∷ ss) p h))

abbrev IsDigit : ℕ → Type 0
IsDigit c = ((c == b';') ≡ false) × ((c == b'"') ≡ false)

digits-Phrase : (s : Str) → All IsDigit s → IsPhrase s
unfolding unbroken
digits-Phrase [] h = λ t. refl
digits-Phrase (c ∷ s) ((p, q), h) = λ t. rw (p, q) (digits-Phrase s h t)

itoa-Phrase : (n : ℕ) → IsPhrase (itoa n)
itoa-Phrase n = digits-Phrase (itoa n) (itoa-All IsDigit (λ k h. (ground arith, ground arith)) n)

ordinals_from-Phrase : (i n : ℕ) → All IsPhrase (ordinals_from i n)
ordinals_from-Phrase i zero = tt
ordinals_from-Phrase i (suc n) = (itoa-Phrase i, ordinals_from-Phrase (suc i) n)

-- A name that is quoted, behind a word and before others.
module _ (sanitize : List Str → Str)
    (sanitize_phrase : (ns : List Str) → IsPhrase (sanitize ns)) where
  projected-Phrase :
      (cols : List Str) → All IsPhrase (map (λ col. codes "c." ++ ident sanitize col) cols)
  projected-Phrase [] = tt
  projected-Phrase (c ∷ cols) = (
    Phrase-append (codes "c.") (ident sanitize c) (λ t. unfold unbroken in refl)
        (sanitize_phrase (c ∷ [])),
    projected-Phrase cols,
  )

  not_null_tests-Phrase : (cols : List Str) → All IsPhrase (not_null_tests sanitize cols)
  not_null_tests-Phrase [] = tt
  not_null_tests-Phrase (c ∷ cols) = (
    Phrase-append (codes "c.") (ident sanitize c ++ codes " IS NOT NULL")
        (λ t. unfold unbroken in refl)
        (Phrase-append (ident sanitize c) (codes " IS NOT NULL") (sanitize_phrase (c ∷ []))
          (λ t. unfold unbroken in refl)),
    not_null_tests-Phrase cols,
  )

  match_tests-Phrase : (cs ps : List Str) → All IsPhrase (match_tests sanitize cs ps)
  unfolding match_tests
  match_tests-Phrase [] ps = tt
  match_tests-Phrase (c ∷ cs) [] = match_tests-Phrase cs []
  match_tests-Phrase (c ∷ cs) (p ∷ ps) = (
    Phrase-append (codes "p.") (ident sanitize p ++ (codes " = c." ++ ident sanitize c))
        (λ t. unfold unbroken in refl)
        (Phrase-append (ident sanitize p) (codes " = c." ++ ident sanitize c)
          (sanitize_phrase (p ∷ []))
          (Phrase-append (codes " = c.") (ident sanitize c) (λ t. unfold unbroken in refl)
            (sanitize_phrase (c ∷ [])))),
    match_tests-Phrase cs ps,
  )

  anti_join-Phrase : (child parent : KeyRef) → IsPhrase (anti_join sanitize child parent)
  unfolding anti_join
  anti_join-Phrase child parent =
      let nulls = join (codes "\n  AND ") (not_null_tests sanitize child.columns) in
      let tests = join (codes " AND ") (match_tests sanitize child.columns parent.columns) in
      let closing = tests ++ codes ")" in
      let where_part = codes " AS p WHERE " ++ closing in
      let from = qualify sanitize parent ++ where_part in
      Phrase-append nulls (codes "\n  AND NOT EXISTS (SELECT 1 FROM " ++ from)
        (Phrase-join (codes "\n  AND ") _ (λ t. unfold unbroken in refl)
          (not_null_tests-Phrase child.columns))
        (Phrase-append (codes "\n  AND NOT EXISTS (SELECT 1 FROM ") from
          (λ t. unfold unbroken in refl)
          (Phrase-append (qualify sanitize parent) where_part
            (sanitize_phrase (parent.schema ∷ parent.table ∷ []))
            (Phrase-append (codes " AS p WHERE ") closing (λ t. unfold unbroken in refl)
              (Phrase-append tests (codes ")")
                (Phrase-join (codes " AND ") _ (λ t. unfold unbroken in refl)
                  (match_tests-Phrase child.columns parent.columns))
                (λ t. unfold unbroken in refl)))))

  module _ ⦃F : Float⦄ where
    -- The listing of the orphans is one SELECT, however the keys are named.
    pub orphan_query-IsSelect : (c : Candidate) → IsSelect (orphan_query sanitize c)
    unfolding orphan_query
    orphan_query-IsSelect c =
        let n = arity c.child in
        let projected =
          join (codes ", ") (map (λ col. codes "c." ++ ident sanitize col) c.child.columns) in
        let child = qualify sanitize c.child in
        let tests = anti_join sanitize c.child c.parent in
        let groups = group_ordinals n in
        let last = itoa (n + 1) in
        let ending = codes ";\n" in
        let e = last ++ codes " DESC" in
        let d = groups ++ (codes "\nORDER BY " ++ e) in
        let b = tests ++ (codes "\nGROUP BY " ++ d) in
        let a = child ++ (codes " AS c\nWHERE " ++ b) in
        let counted = codes ", count(*) AS orphan_rows\nFROM " ++ a in
        record {
          body = projected ++ counted;
          one_select =
              rw
                (
                  append_assoc projected counted ending,
                  append_assoc child (codes " AS c\nWHERE " ++ b) ending,
                  append_assoc tests (codes "\nGROUP BY " ++ d) ending,
                  append_assoc groups (codes "\nORDER BY " ++ e) ending,
                  append_assoc last (codes " DESC") ending,
                )
                refl;
          phrase =
              Phrase-append projected counted
                (Phrase-join (codes ", ") _ (λ t. unfold unbroken in refl)
                  (projected-Phrase c.child.columns))
                (Phrase-append (codes ", count(*) AS orphan_rows\nFROM ") a
                  (λ t. unfold unbroken in refl)
                  (Phrase-append child (codes " AS c\nWHERE " ++ b)
                    (sanitize_phrase (c.child.schema ∷ c.child.table ∷ []))
                    (Phrase-append (codes " AS c\nWHERE ") b (λ t. unfold unbroken in refl)
                      (Phrase-append tests (codes "\nGROUP BY " ++ d)
                        (anti_join-Phrase c.child c.parent)
                        (Phrase-append (codes "\nGROUP BY ") d (λ t. unfold unbroken in refl)
                          (Phrase-append groups (codes "\nORDER BY " ++ e)
                            (Phrase-join (codes ", ") _ (λ t. unfold unbroken in refl)
                              (ordinals_from-Phrase 1 n))
                            (Phrase-append (codes "\nORDER BY ") e (λ t. unfold unbroken in refl)
                              (Phrase-append last (codes " DESC") (itoa-Phrase (n + 1))
                                (λ t. unfold unbroken in refl)))))))));
        }
