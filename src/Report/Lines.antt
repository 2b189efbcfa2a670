-- ===== src/Report/Lines.antt =====
-- internal/report/sql.go: lines of comments, and the block that every generated file opens with. The
-- format of a time is a parameter.
use pgfathom.Base.{
  ℕ, Bool, List, [], ◌∷◌, ◌++◌, text_eq, Float, ℤ, length, ◌==◌, if◌then◌else◌, Str, codes, em_dash,
}
use pgfathom.Model.Candidate.{sampled_run}
use pgfathom.Model.Result.{Result}
use pgfathom.Report.Names.{non_empty}

-- the pieces, one after the other
unfoldable pub words : List Str → Str
words [] = []
words (s ∷ ss) = s ++ words ss

-- lines that begin with two dashes, each given by the pieces behind those
unfoldable pub comments : List (List Str) → Str
unfolding words
comments [] = []
comments (l ∷ ls) = b'-' ∷ b'-' ∷ (words l ++ b'\n' ∷ comments ls)

abbrev pub blank : Str
blank = b'\n' ∷ []

pub record Header : Type 0 where
  pub tool : Str
  pub version : Str
  pub server : Str
  pub mode : Str
  pub generated : ℤ
  pub sampled : Bool

module _ ⦃F : Float⦄ where
  abbrev pub mode_of : Bool → ℕ → Str
  mode_of sampled n =
      if sampled
      then codes "sampled " ++ (em_dash ++ codes " a subset of rows was examined")
      else if n == 0
      then codes "none " ++ (em_dash ++ codes " this run made no inferences to validate")
      else codes "full " ++ (em_dash ++ codes " every row was examined")

  unfoldable pub new_header : Result → Header
  new_header r =
      let sampled = sampled_run r.candidates in
      record {
        tool = r.tool;
        version = r.tool_version;
        server = r.server_version;
        mode = mode_of sampled (length r.candidates);
        generated = r.generated_at;
        sampled = sampled;
      }

abbrev pub sampled_warning : Bool → List (List Str)
sampled_warning sampled =
    if sampled
    then []
      ∷ (codes " ! THIS RUN WAS SAMPLED. Nothing here is confirmed, and every orphan" ∷ [])
      ∷ (codes "   count is a floor rather than a total: orphans arrive in batches and" ∷ [])
      ∷ (codes "   cluster on the same pages, which is what page sampling is worst at" ∷ [])
      ∷ (codes "   finding. Re-run with --full before concluding anything from absence." ∷ [])
      ∷ []
    else []

module _ (rfc3339 : ℤ → Str) where
  abbrev pub opening : Header → Str → List (List Str)
  opening h subject =
      (codes " " ∷ h.tool ∷ codes " " ∷ h.version ∷ codes " " ∷ em_dash ∷ codes " " ∷ subject ∷ [])
      ∷ (codes " generated " ∷ rfc3339 h.generated ∷ [])
      ∷ (codes " server     PostgreSQL " ∷ non_empty h.server (codes "unknown") ∷ [])
      ∷ (codes " validation " ∷ h.mode ∷ [])
      ∷ []
      ∷ (codes " REVIEW BEFORE RUNNING. Every statement below was written from an" ∷ [])
      ∷ (codes " inference about your schema. This tool has never altered your database" ∷ [])
      ∷ (codes " and does not intend to; you are the one who decides what runs." ∷ [])
      ∷ []

  unfoldable pub render : Header → Str → Str
  unfolding comments
  render h subject = comments (opening h subject) ++ (comments (sampled_warning h.sampled) ++ blank)
