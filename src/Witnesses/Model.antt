-- ===== src/Witnesses/Model.antt =====
-- The model's theorems at concrete inputs.
use pgfathom.Base.{◌≡◌, ◌↔◌, true, false, none, [], ◌∷◌, text_eq, length, All, codes}
use pgfathom.Model.Table.{promotable_unique, index_leads}
use pgfathom.Model.Table.Promotion.{Picks, promotable_unique-Picks}
use pgfathom.Model.Table.Leading.{Leads, index_leads_iff}
use pgfathom.Model.Candidate.{Verdict, count_by_verdict, candidates_by_verdict}
use pgfathom.Model.Candidate.Tallies.{count_by_verdict-length}
use pgfathom.Model.Coverage.{Coverage}
use pgfathom.Witnesses.Fixed.{fixed, ascii}
use pgfathom.Witnesses.Data.{customers, candidate}

promotable_unique_example : Picks customers customers.uniques (promotable_unique customers)
promotable_unique_example = promotable_unique-Picks customers

index_leads_example :
    (index_leads customers.indexes (codes "id" ∷ []) ≡ true)
    ↔ Leads (codes "id" ∷ []) customers.indexes
index_leads_example = index_leads_iff customers.indexes (codes "id") []

count_by_verdict_example :
    (count_by_verdict (candidate ∷ candidate ∷ []) Verdict.unvalidated
      ≡ length (candidates_by_verdict Verdict.unvalidated (candidate ∷ candidate ∷ [])))
    × All
        (λ c. c.verdict ≡ Verdict.unvalidated)
        (candidates_by_verdict Verdict.unvalidated (candidate ∷ candidate ∷ []))
count_by_verdict_example = count_by_verdict-length (candidate ∷ candidate ∷ []) Verdict.unvalidated

abbrev two_of_three : Coverage
two_of_three = record {
  tables_total = 3;
  tables_analyzed = 2;
  tables_no_privilege = codes "public.secrets" ∷ [];
  tables_excluded = [];
  tables_unsupported = [];
  schemas_total = 1;
  schemas_analyzed = 1;
  schemas_not_analyzed = [];
  schemas_excluded = [];
  candidates_found = 4;
  candidates_validated = 4;
  candidates_timed_out = 0;
  stats_prefilter = true;
  candidates_stats_checked = 4;
  candidates_stats_rejected = 0;
  candidates_without_stats = 1;
  stats_reset_at = none;
  pg_stat_statements = false;
  key_probes_skipped = [];
}
