-- ===== src/Witnesses/Generate.antt =====
-- The theorems on generation and naming at concrete inputs.
use pgfathom.Base.{
  ◌≡◌, refl, ◌≢◌, none, some, List, [], ◌∷◌, text_eq, All, codes, has_prefix, has_suffix, pos,
}
use pgfathom.Model.Candidate.{Candidate}
use pgfathom.Profile.{Profile}
use pgfathom.Profile.Normalize.{folded, entity_name, table_forms}
use pgfathom.Profile.Normalize.Entity.{IsNamed, entity_name-IsNamed}
use pgfathom.Profile.Normalize.Forms.{IsFormSet, table_forms-IsFormSet}
use pgfathom.Profile.Validation.{validate}
use pgfathom.Profile.Validation.Order.{IsLongestFirst, validate-IsLongestFirst}
use pgfathom.Infer.Finalize.{Result, finalize}
use pgfathom.Infer.Finalize.Split.{IsSplit, finalize-IsSplit}
use pgfathom.Infer.Signals.{Options}
use pgfathom.Infer.Generate.{all_tables}
use pgfathom.Infer.Matches.{build_target_index, flatten_tables, generate_for}
use pgfathom.Infer.Matches.Hypothesis.{IsHypothesis, generate_for-IsHypothesis}
use pgfathom.Model.Table.{Column, Table, Schema}
use pgfathom.Witnesses.Fixed.{fixed, ascii}
use pgfathom.Witnesses.Data.{customers, candidate, id_column}

abbrev pub english : Profile
english = record {
  name = codes "en";
  column_suffixes = codes "_id" ∷ codes "id" ∷ [];
  column_prefixes = codes "fk_" ∷ [];
  table_prefixes = codes "tb_" ∷ [];
  type_suffixes = codes "_type" ∷ [];
  generic_entities = codes "status" ∷ [];
  plural =
      record { suffix = codes "ies"; singular = codes "y" }
      ∷ record { suffix = codes "s"; singular = [] }
      ∷ [];
}

customer_id-IsNamed : IsNamed (folded (codes "Customer_ID"))
customer_id-IsNamed = λ e. cc

entity_example : entity_name english (codes "Customer_ID") ≢ []
entity_example = entity_name-IsNamed english (codes "Customer_ID") customer_id-IsNamed

tb_cities_named : folded (codes "tb_cities") ≢ []
tb_cities_named = λ e. cc

forms_example : IsFormSet (folded (codes "tb_cities")) (table_forms english (codes "tb_cities"))
forms_example = table_forms-IsFormSet english (codes "tb_cities") tb_cities_named

-- below the threshold even without the generic-name penalty
abbrev weak_candidate : Candidate
weak_candidate = record candidate { signals = []; meta_score = fixed.of_int (pos 0) }

abbrev generated : Result
generated = record {
  candidates = weak_candidate ∷ candidate ∷ [];
  discarded = [];
  skipped = [];
  polymorphic = [];
}

finalize_example :
    IsSplit generated (fixed.lit (pos 5) 1) (finalize generated (fixed.lit (pos 5) 1))
finalize_example = finalize-IsSplit generated (fixed.lit (pos 5) 1)

abbrev pub options : Options
options = record {
  profile = some english;
  min_score = fixed.of_int (pos 0);
  min_name_similarity = fixed.of_int (pos 0);
  small_table_rows = pos 0;
  evidence = [];
}

abbrev keyed_customers : Table
keyed_customers = record customers { primary_key = codes "id" ∷ [] }

abbrev orders : Table
orders = record customers {
  name = codes "orders";
  columns = record id_column { name = codes "customer_id" } ∷ [];
}

abbrev customer_column : Column
customer_column = record id_column { name = codes "customer_id" }

abbrev one_schema : List Schema
one_schema = record { name = codes "public"; tables = keyed_customers ∷ [] } ∷ []

raised_example :
    All
      (IsHypothesis (all_tables one_schema) english options orders customer_column)
      (generate_for
        (build_target_index english one_schema [])
        (flatten_tables (all_tables one_schema))
        orders
        customer_column
        english
        options).0
raised_example = generate_for-IsHypothesis one_schema orders customer_column english options

english_valid : validate english ≡ none
unfolding validate
english_valid = refl

longest_example :
    IsLongestFirst has_suffix (codes "customer_id") english.column_suffixes
    × IsLongestFirst has_prefix (codes "customer_id") english.column_prefixes
    × IsLongestFirst has_prefix (codes "customer_id") english.table_prefixes
longest_example = validate-IsLongestFirst english (codes "customer_id") english_valid

abbrev pub shop : List Schema
shop = record { name = codes "public"; tables = keyed_customers ∷ orders ∷ [] } ∷ []
