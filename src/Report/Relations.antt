-- ===== src/Report/Relations.antt =====
-- internal/report/sql.go: the files of DiscoverArtifacts, and what both commands ask of a foreign key.
pub mod Select
pub mod Listing
use pgfathom.Base.{
  ℕ, zero, suc, ◌+◌, Bool, not, Option, none, some, List, [], ◌∷◌, ◌++◌, map, itoa, text_eq, Dict,
  lookup, put, Float, ℤ, length, ◌==◌, if◌then◌else◌, Unicode, Str, codes, em_dash, pos,
}
use pgfathom.Model.Refs.{KeyRef, key_string, table_ref, arity, join}
use pgfathom.Model.Table.{Index, Table, Schema, ref, index_leads}
use pgfathom.Model.Candidate.{
  Verdict, Validation, Candidate, candidates_by_verdict, containment_rows, is_full,
}
use pgfathom.Model.Result.{Result}
use pgfathom.Report.Names.{Identifier, truncate_ident, ident, qualify, column_list}
use pgfathom.Report.Lines.{words, comments, blank, Header, new_header, render}

-- "1, 2, ..., n": the numbers from i on, k of them
abbrev pub ordinals_from : ℕ → ℕ → List Str
ordinals_from i zero = []
ordinals_from i (suc k) = itoa i ∷ ordinals_from (suc i) k

abbrev pub group_ordinals : ℕ → Str
group_ordinals n = join (codes ", ") (ordinals_from 1 n)

pub record Artifact : Type 0 where
  pub name : Str
  pub count : ℕ
  pub content : Str

module _ (sanitize : List Str → Str) where
  abbrev pub not_null_tests : List Str → List Str
  not_null_tests cols = map (λ c. codes "c." ++ (ident sanitize c ++ codes " IS NOT NULL")) cols

  -- position by position, as far as the parent's key goes
  pub match_tests : List Str → List Str → List Str
  match_tests [] ps = []
  match_tests (c ∷ cs) [] = match_tests cs []
  match_tests (c ∷ cs) (p ∷ ps) =
      (codes "p." ++ (ident sanitize p ++ (codes " = c." ++ ident sanitize c))) ∷ match_tests cs ps

  unfoldable pub anti_join : KeyRef → KeyRef → Str
  unfolding match_tests
  anti_join child parent =
      join (codes "\n  AND ") (not_null_tests child.columns)
      ++ (codes "\n  AND NOT EXISTS (SELECT 1 FROM "
          ++ (qualify sanitize parent
              ++ (codes " AS p WHERE "
                  ++ (join (codes " AND ") (match_tests child.columns parent.columns)
                      ++ codes ")"))))

module _ ⦃F : Float⦄ (sanitize : List Str → Str) where
  unfoldable pub orphan_query : Candidate → Str
  unfolding anti_join
  orphan_query c =
      let n = arity c.child in
      let projected = map (λ col. codes "c." ++ ident sanitize col) c.child.columns in
      codes "SELECT "
      ++ (join (codes ", ") projected
          ++ (codes ", count(*) AS orphan_rows\nFROM "
              ++ (qualify sanitize c.child
                  ++ (codes " AS c\nWHERE "
                      ++ (anti_join sanitize c.child c.parent
                          ++ (codes "\nGROUP BY "
                              ++ (group_ordinals n
                                  ++ (codes "\nORDER BY "
                                      ++ (itoa (n + 1) ++ codes " DESC;\n")))))))))

  -- the proportion in per cent, with one decimal
  abbrev pub percent : Validation → Str
  percent v = F.format (F.mul (F.of_int (pos 100)) (containment_rows v)) 1

  abbrev pub exempt_note : Validation → List (List Str)
  exempt_note v =
      if v.partial_null_rows == 0
      then []
      else (codes " "
          ∷ itoa v.partial_null_rows
          ∷ codes " rows have a NULL in part of the key and a value in the rest. MATCH"
          ∷ [])
        ∷ (codes " SIMPLE "
            ∷ em_dash
            ∷ codes " the default, and what the DDL below uses "
            ∷ em_dash
            ∷ codes " exempts them, so the"
            ∷ [])
        ∷ (codes " constraint will never check those rows." ∷ [])
        ∷ []

  abbrev arrow : Str
  arrow = 0xe2 ∷ 0x86 ∷ 0x92 ∷ []

  abbrev pub relation_comment : Candidate → Identifier → List (List Str)
  relation_comment c name =
      (codes " " ∷ key_string c.child ∷ codes " " ∷ arrow ∷ codes " " ∷ key_string c.parent ∷ [])
      ∷ (if name.truncated
          then (codes " Constraint name shortened to fit 63 bytes; in full it would be "
              ∷ name.full
              ∷ codes "."
              ∷ [])
            ∷ []
          else [])

  abbrev pub floor_note : Validation → Str
  floor_note v = if is_full v.method then [] else codes " (a floor: this was sampled)"

  abbrev pub broken_reading : Option Validation → List (List Str)
  broken_reading none = []
  broken_reading (some v) =
      (codes " "
        ∷ itoa v.orphan_rows
        ∷ codes " orphan rows over "
        ∷ itoa v.orphan_vals
        ∷ codes " distinct values"
        ∷ floor_note v
        ∷ codes "; containment "
        ∷ percent v
        ∷ codes "% of "
        ∷ itoa v.not_null_rows
        ∷ codes " rows examined"
        ∷ [])
      ∷ exempt_note v

  abbrev pub confirmed_reading : Option Validation → List (List Str)
  confirmed_reading none = []
  confirmed_reading (some v) =
      (codes " containment "
        ∷ percent v
        ∷ codes "% of "
        ∷ itoa v.not_null_rows
        ∷ codes " rows over "
        ∷ itoa v.distinct_vals
        ∷ codes " distinct values, no orphans"
        ∷ [])
      ∷ exempt_note v

  abbrev pub sampled_empty : List (List Str)
  sampled_empty =
      (codes " This run confirmed nothing, and could not have: a sampled run cannot" ∷ [])
      ∷ (codes " prove the absence of an orphan. Re-run with --full to reach a confirmation." ∷ [])
      ∷ []

  abbrev pub empty_note : Bool → ℕ → List (List Str)
  empty_note sampled n =
      if sampled
      then sampled_empty
      else if n == 0
      then (codes " This run produced no candidates above the score threshold, so there was" ∷ [])
        ∷ (codes " nothing to confirm." ∷ [])
        ∷ []
      else (codes " This run confirmed no relationships. Candidates were validated against the"
          ∷ [])
        ∷ (codes " data and none reached total containment." ∷ [])
        ∷ []

-- the map of tableIndexes
pub index_list : List Table → Dict Str (List Index) → Dict Str (List Index)
index_list [] out = out
index_list (t ∷ ts) out = index_list ts (put (ref t) t.indexes out)

pub table_indexes : List Schema → Dict Str (List Index) → Dict Str (List Index)
unfolding index_list
table_indexes [] out = out
table_indexes (s ∷ ss) out = table_indexes ss (index_list s.tables out)

module _ ⦃F : Float⦄ ⦃u : Unicode⦄ (hash : Str → Str) (valid : Str → Bool)
    (sanitize : List Str → Str) where
  abbrev pub constraint_name : Candidate → Identifier
  constraint_name c =
      truncate_ident hash valid
        (codes "fk_" ++ (c.child.table ++ (codes "_" ++ join (codes "_") c.child.columns)))

  -- what is there to say before the statements of a broken relationship
  abbrev pub broken_opening : Candidate → List (List Str)
  broken_opening c =
      relation_comment sanitize c (constraint_name c) ++ broken_reading sanitize c.validation

  -- steps 2 and 3
  abbrev pub broken_step_2 : List (List Str)
  broken_step_2 =
      (codes " Step 2 "
        ∷ em_dash
        ∷ codes " decide what happens to those rows. This tool does not decide."
        ∷ [])
      ∷ []

  abbrev pub broken_step_3 : Candidate → List (List Str)
  broken_step_3 c =
      (codes " Step 3 "
        ∷ em_dash
        ∷ codes " only once nothing comes back from step 1, declare the key."
        ∷ [])
      ∷ (codes " ALTER TABLE " ∷ qualify sanitize c.child ∷ [])
      ∷ (codes "     ADD CONSTRAINT " ∷ ident sanitize (constraint_name c).value ∷ [])
      ∷ (codes "     FOREIGN KEY ("
          ∷ column_list sanitize c.child
          ∷ codes ") REFERENCES "
          ∷ qualify sanitize c.parent
          ∷ codes " ("
          ∷ column_list sanitize c.parent
          ∷ codes ")"
          ∷ [])
      ∷ (codes "     NOT VALID;" ∷ [])
      ∷ []

  abbrev pub broken_step_1 : List (List Str)
  broken_step_1 = (codes " Step 1 " ∷ em_dash ∷ codes " look at what is orphaned." ∷ []) ∷ []

  -- the loop of brokenFile
  unfoldable pub broken_blocks : List Candidate → Str
  broken_blocks [] = []
  broken_blocks (c ∷ cs) =
      comments (broken_opening c)
      ++ (blank
          ++ (comments broken_step_1
              ++ (orphan_query sanitize c
                  ++ (blank
                      ++ (comments broken_step_2
                          ++ (blank
                              ++ (comments (broken_step_3 c) ++ (blank ++ broken_blocks cs))))))))

  abbrev pub broken_preface : List (List Str)
  broken_preface =
      (codes " Each block below is a relationship the data supports and whose integrity" ∷ [])
      ∷ (codes " is already violated. The DDL is commented out on purpose: it cannot pass" ∷ [])
      ∷ (codes " while an orphan remains, and what to do with an orphan row "
          ∷ em_dash
          ∷ codes " delete it,"
          ∷ [])
      ∷ (codes " repoint it, null it "
          ∷ em_dash
          ∷ codes " is a decision about your domain, not about SQL."
          ∷ [])
      ∷ []

  -- after the header
  unfoldable pub broken_body : List Candidate → Str
  unfolding broken_blocks
  broken_body [] = comments ((codes " This run found no broken relationships." ∷ []) ∷ [])
  broken_body (c ∷ cs) = comments broken_preface ++ (blank ++ broken_blocks (c ∷ cs))

  abbrev pub index_suggestion : Candidate → Str
  index_suggestion c =
      let idx =
        truncate_ident hash valid
          (codes "ix_" ++ (c.child.table ++ (codes "_" ++ join (codes "_") c.child.columns))) in
      comments (
        (codes " No index has "
          ∷ column_list sanitize c.child
          ∷ codes " in leading position. Without one, every DELETE on"
          ∷ [])
        ∷ (codes " "
            ∷ table_ref c.parent.schema c.parent.table
            ∷ codes " becomes a sequential scan of "
            ∷ table_ref c.child.schema c.child.table
            ∷ codes "."
            ∷ [])
        ∷ []
        ∷ (codes " CONCURRENTLY does NOT run inside a transaction block: this fails under" ∷ [])
        ∷ (codes " psql --single-transaction, and a failure leaves an INVALID index behind" ∷ [])
        ∷ (codes " that has to be dropped by hand. Run it on its own." ∷ [])
        ∷ [])
      ++ (comments (
            if idx.truncated
            then (codes " Name shortened to fit 63 bytes; in full it would be "
                ∷ idx.full
                ∷ codes "."
                ∷ [])
              ∷ []
            else [])
          ++ (comments (
                (codes " CREATE INDEX CONCURRENTLY "
                  ∷ ident sanitize idx.value
                  ∷ codes " ON "
                  ∷ qualify sanitize c.child
                  ∷ codes " ("
                  ∷ column_list sanitize c.child
                  ∷ codes ");"
                  ∷ [])
                ∷ [])
              ++ blank))

  -- indexes[c.Child.TableRef()], which is empty for a table that is not there
  abbrev pub indexes_of : Option (List Index) → List Index
  indexes_of none = []
  indexes_of (some l) = l

  -- the statements of a confirmed relationship
  abbrev pub confirmed_block : Dict Str (List Index) → Candidate → Str
  confirmed_block indexes c =
      let name = constraint_name c in
      comments (relation_comment sanitize c name ++ confirmed_reading sanitize c.validation)
      ++ (words (
            codes "ALTER TABLE "
            ∷ qualify sanitize c.child
            ∷ codes "\n    ADD CONSTRAINT "
            ∷ ident sanitize name.value
            ∷ codes "\n    FOREIGN KEY ("
            ∷ column_list sanitize c.child
            ∷ codes ") REFERENCES "
            ∷ qualify sanitize c.parent
            ∷ codes " ("
            ∷ column_list sanitize c.parent
            ∷ codes ")\n    NOT VALID;\n\n"
            ∷ [])
          ++ (comments (
                (codes " Validate separately. The statement above scanned nothing and held the"
                  ∷ [])
                ∷ (codes " stronger lock for an instant; this one scans the table under a lock that"
                    ∷ [])
                ∷ (codes " blocks neither reads nor writes. Run it in a window of your choosing."
                    ∷ [])
                ∷ (codes " ALTER TABLE "
                    ∷ qualify sanitize c.child
                    ∷ codes " VALIDATE CONSTRAINT "
                    ∷ ident sanitize name.value
                    ∷ codes ";"
                    ∷ [])
                ∷ [])
              ++ (blank
                  ++ (if not (
                        index_leads
                          (indexes_of (lookup (table_ref c.child.schema c.child.table) indexes))
                          c.child.columns)
                      then index_suggestion c
                      else []))))

  unfoldable pub confirmed_blocks : Dict Str (List Index) → List Candidate → Str
  confirmed_blocks indexes [] = []
  confirmed_blocks indexes (c ∷ cs) = confirmed_block indexes c ++ confirmed_blocks indexes cs

  abbrev pub confirmed_body : Header → Result → List Candidate → Str
  confirmed_body h r [] = comments (empty_note sanitize h.sampled (length r.candidates))
  confirmed_body h r (c ∷ cs) = confirmed_blocks (table_indexes r.schemas []) (c ∷ cs)

  module _ (rfc3339 : ℤ → Str) where
    abbrev pub confirmed_file : Header → Result → List Candidate → Str
    confirmed_file h r cs =
        render rfc3339 h (codes "relationships the data confirms") ++ confirmed_body h r cs

    unfoldable pub broken_file : Header → List Candidate → Str
    unfolding broken_body
    broken_file h cs =
        render rfc3339 h (codes "relationships the data contradicts") ++ broken_body cs

    unfoldable pub discover_artifacts : Result → List Artifact
    unfolding new_header render confirmed_blocks broken_file
    discover_artifacts r =
        let h = new_header r in
        let confirmed = candidates_by_verdict Verdict.confirmed r.candidates in
        let broken = candidates_by_verdict Verdict.broken r.candidates in
        record {
          name = codes "confirmed.sql";
          count = length confirmed;
          content = confirmed_file h r confirmed;
        }
        ∷ record {
          name = codes "broken.sql";
          count = length broken;
          content = broken_file h broken;
        }
        ∷ []
