-- ===== src/Witnesses/Discovery.antt =====
-- The theorem on a whole run of the pipeline at a concrete input: evidence that cannot be read, and
-- no statistics.
use pgfathom.Base.{
  ℕ, zero, suc, ◌≡◌, refl, ◌⊎◌, true, false, none, some, List, [], ◌∷◌, ◌++◌, arith, text_eq,
  ==_iff, Str, codes, pos,
}
use pgfathom.Model.Coverage.{Coverage}
use pgfathom.Model.Naming.{NamingDetection, no_detection}
use pgfathom.Model.Table.{Schema}
use pgfathom.Profile.{Profile}
use pgfathom.Validate.Session.{Failure, ok, err}
use pgfathom.Validate.Group.Order.{Covers}
use pgfathom.Discovery.{Options, World, Catalog, Finished}
use pgfathom.Discovery.Pipeline.{discover}
use pgfathom.Discovery.Account.{IsAccounted, prepared, validation_of, discover-IsAccounted}
use pgfathom.Witnesses.Fixed.{fixed, ascii}
use pgfathom.Witnesses.Data as Data
use pgfathom.Witnesses.Data.{reading}
use pgfathom.Witnesses.Generate.{english, shop}

abbrev no_permission : Failure
no_permission = record {
  context_done = false;
  pg_code = some (codes "42501");
  message = codes "permission denied";
}

abbrev backwards : ℕ → List ℕ
backwards zero = []
backwards (suc n) = n ∷ backwards n

backwards-Covers : (n : ℕ) → Covers (backwards n) n
backwards-Covers zero i h = absurd (omega arith)
backwards-Covers (suc n) i h = ground (arith, backwards-Covers n i, ==_iff n i)

abbrev nothing_seen : Coverage
nothing_seen = record {
  tables_total = 2;
  tables_analyzed = 2;
  tables_no_privilege = [];
  tables_excluded = [];
  tables_unsupported = [];
  schemas_total = 1;
  schemas_analyzed = 1;
  schemas_not_analyzed = [];
  schemas_excluded = [];
  candidates_found = 0;
  candidates_validated = 0;
  candidates_timed_out = 0;
  stats_prefilter = false;
  candidates_stats_checked = 0;
  candidates_stats_rejected = 0;
  candidates_without_stats = 0;
  stats_reset_at = none;
  pg_stat_statements = false;
  key_probes_skipped = [];
}

abbrev catalog_read : Catalog
catalog_read = record { schemas = shop; coverage = nothing_seen }

abbrev world : World
world = record {
  read_catalog = ok catalog_read;
  probe = err no_permission;
  fetch = λ ss cs. err no_permission;
  session = record { begin = ok tt; exec = λ s. ok tt; query_row = λ before q. ok reading };
  finished = backwards;
  server_version = codes "16.4";
  started = pos 0;
  now = λ s. pos 7;
  assembled = pos 8;
  since_start = pos 9;
}

abbrev switches : Options
switches = record {
  profile = english;
  min_score = fixed.of_int (pos 0);
  tool_version = codes "1.0";
  no_detect = false;
  no_stats = true;
  no_probe = false;
  validation = Data.options;
}

abbrev detect_nothing : Profile → List Schema → NamingDetection
detect_nothing p ss = no_detection

abbrev keep_profile : Profile → NamingDetection → Profile
keep_profile p d = p

abbrev joined_name : List Str → Str
joined_name [] = []
joined_name (s ∷ ss) = s ++ joined_name ss

discover_example :
    ((f : Failure) × (validation_of detect_nothing keep_profile joined_name world switches
          catalog_read
        ≡ err f)
      × ((discover detect_nothing keep_profile joined_name world switches).1 ≡ err f))
    ⊎ ((fin : Finished) × ((discover detect_nothing keep_profile joined_name world switches).1
          ≡ ok fin)
        × IsAccounted shop
            (prepared detect_nothing keep_profile joined_name world switches catalog_read).inferred
            switches
            fin)
discover_example =
    discover-IsAccounted detect_nothing keep_profile joined_name world switches catalog_read refl
      backwards-Covers
