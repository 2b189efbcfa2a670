-- ===== src/Witnesses/Data.antt =====
-- The data of the runs: a customers table, an orders table and readings of them.
use pgfathom.Base.{true, false, none, List, [], ◌∷◌, text_eq, ℤ, codes, pos, negsuc}
use pgfathom.Model.Usage.{UsageStats}
use pgfathom.Model.Table.{Column, Table, Schema}
use pgfathom.Model.Candidate.{SignalKind, Signal, Verdict, ValidationMethod, Validation, Candidate}
use pgfathom.Validate.Options.{Options}
use pgfathom.Witnesses.Fixed.{fixed, ascii}

abbrev pub id_column : Column
id_column = record {
  name = codes "id";
  type = codes "bigint";
  base_type = codes "int8";
  nullable = false;
  default = [];
  position = pos 1;
  comment = [];
}

abbrev email_column : Column
email_column = record id_column {
  name = codes "email";
  type = codes "text";
  base_type = codes "text";
  nullable = true;
  position = pos 2;
}

abbrev pub no_usage : UsageStats
no_usage = record {
  counters = record {
    seq_scans = pos 0;
    idx_scans = pos 0;
    inserts = pos 0;
    updates = pos 0;
    deletes = pos 0;
  };
  reset_at = pos 0;
  reset_known = false;
}

-- no primary key, a UNIQUE on the nullable email and one on the id
abbrev pub customers : Table
customers = record {
  schema = codes "public";
  name = codes "customers";
  columns = id_column ∷ email_column ∷ [];
  primary_key = [];
  uniques =
      record { name = codes "customers_email"; columns = codes "email" ∷ [] }
      ∷ record { name = codes "customers_id"; columns = codes "id" ∷ [] }
      ∷ [];
  foreign_keys = [];
  indexes =
      record {
        name = codes "customers_id_email";
        columns = codes "Id" ∷ codes "email" ∷ [];
        unique = false;
        primary = false;
      }
      ∷ [];
  stats = record { estimated_rows = pos 100; total_bytes = pos 8192; usage = no_usage };
  partitioned = false;
  inherits = false;
  comment = [];
}

abbrev pub schemas : List Schema
schemas = record { name = codes "public"; tables = customers ∷ [] } ∷ []

abbrev signal : SignalKind → ℤ → Signal
signal k weight = record { kind = k; weight = fixed.lit weight 2; detail = [] }

abbrev pub candidate : Candidate
candidate = record {
  child = record {
    schema = codes "public";
    table = codes "orders";
    columns = codes "customer_id" ∷ [];
  };
  parent = record { schema = codes "public"; table = codes "customers"; columns = codes "id" ∷ [] };
  signals =
      signal SignalKind.exact_name (pos 50)
      ∷ signal SignalKind.generic_domain (negsuc 29)
      ∷ signal SignalKind.not_null (pos 5)
      ∷ [];
  meta_score = fixed.lit (pos 25) 2;
  validation = none;
  verdict = Verdict.unvalidated;
  reason = [];
}

abbrev pub reading : Validation
reading = record {
  method = ValidationMethod.full;
  sampled_rows = 1000;
  not_null_rows = 900;
  distinct_vals = 80;
  partial_null_rows = 0;
  orphan_rows = 0;
  orphan_vals = 0;
  max_rows_per_value = 30;
  duration = pos 1200;
}

abbrev pub options : Options
options = record {
  full = true;
  target_rows = pos 0;
  timeout = pos 5000000000;
  concurrency = pos 2;
  seed = pos 42;
  broken_threshold = fixed.of_int (pos 0);
  reject_threshold = fixed.of_int (pos 0);
  max_null_fraction = fixed.of_int (pos 0);
}
