-- ===== src/Validate/KeyProbe/Proof.antt =====
-- internal/validate/keyprobe.go, ProbeUniqueness: the answers.
use pgfathom.Base.{◌≡◌, ◌≢◌, ◌⊎◌, List, [], ◌∷◌, ◌++◌, text_eq, ℤ, Str, codes}
use pgfathom.Model.Table.{Table}
use pgfathom.Validate.Session.{ok, Session, run_query}
use pgfathom.Model.Finding.{KeyProbeVerdict}
use pgfathom.Validate.KeyProbe.{KeyProbeResult, KeyCounts, build_key_probe_query}

module _ (sanitize : List Str → Str) (db : Session KeyCounts) where
  -- The query reads the table as a whole: it ends with the name of the table in its FROM, and nothing
  -- stands behind the name that samples, filters or limits.
  abbrev pub ReadsWholeTable : Table → Str → Type 0
  ReadsWholeTable t query =
      (selected : Str) × (query
        ≡ selected ++ (codes "\n\t\tFROM " ++ sanitize (t.schema ∷ t.name ∷ [])))

  -- The query on these columns, which reads the whole table, came back with as many distinct tuples as rows and no NULL.
  abbrev pub Counted : Table → ℤ → List Str → Type 0
  Counted t timeout cols =
      (n : KeyCounts) × (run_query db (build_key_probe_query sanitize t cols) timeout ≡ ok n)
      × (n.total ≡ n.distinct)
      × (n.nulls ≡ 0)
      × ReadsWholeTable t (build_key_probe_query sanitize t cols)

  -- The results answer the candidates one for one, and those that are confirmed were counted.
  abbrev pub Answers : Table → ℤ → List (List Str) → List KeyProbeResult → Type 0
  Answers t timeout [] [] = Unit
  Answers t timeout [] (r ∷ rs) = ⊥
  Answers t timeout (c ∷ cs) [] = ⊥
  Answers t timeout (c ∷ cs) (r ∷ rs) =
      (r.columns ≡ c)
      × ((r.verdict ≢ KeyProbeVerdict.confirmed) ⊎ Counted t timeout c)
      × Answers t timeout cs rs
