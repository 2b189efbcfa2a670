-- ===== src/Witnesses/Runs.antt =====
-- The theorems on composite keys, on evidence and on a whole run of the inference at concrete inputs.
use pgfathom.Base.{◌≡◌, List, [], ◌∷◌, ◌++◌, text_eq, All, Str, codes}
use pgfathom.Model.Table.{Table}
use pgfathom.Model.Evidence.{JoinSource, JoinEvidence}
use pgfathom.Infer.Signals.{Options}
use pgfathom.Infer.Emission.{generate_composite}
use pgfathom.Infer.Emission.Whole.{IsWholeKey, generate_composite-IsWholeKey}
use pgfathom.Infer.Evidence.{apply_evidence}
use pgfathom.Infer.Evidence.Agreement.{AreNew, keys, apply_evidence-AreNew}
use pgfathom.Infer.Run.{generate}
use pgfathom.Infer.Run.Supported.{AllSupported, generate-AllSupported}
use pgfathom.Witnesses.Fixed.{fixed, ascii}
use pgfathom.Witnesses.Data.{customers, candidate, id_column}
use pgfathom.Witnesses.Generate.{english, options, shop}

-- a table with a key of two columns, and one that has both of them
abbrev lines : Table
lines = record customers {
  name = codes "lines";
  columns =
      record id_column { name = codes "order_id" } ∷ record id_column { name = codes "seq" } ∷ [];
  primary_key = codes "order_id" ∷ codes "seq" ∷ [];
}

abbrev shipments : Table
shipments = record lines { name = codes "shipments"; primary_key = codes "id" ∷ [] }

whole_key_example :
    All
      (IsWholeKey (lines ∷ shipments ∷ []))
      (generate_composite (lines ∷ shipments ∷ []) english).0
whole_key_example = generate_composite-IsWholeKey (lines ∷ shipments ∷ []) english

abbrev pub placed_by : JoinEvidence
placed_by = record {
  left = record { schema = codes "public"; table = codes "orders"; column = codes "customer_id" };
  right = record { schema = codes "public"; table = codes "customers"; column = codes "id" };
  source = JoinSource.view;
  object = codes "public.order_list";
}

new_example :
    (fresh : List Str) × (keys (apply_evidence (candidate ∷ []) shop (placed_by ∷ []))
      ≡ keys (candidate ∷ []) ++ fresh)
    × AreNew (keys (candidate ∷ [])) fresh
new_example = apply_evidence-AreNew (candidate ∷ []) shop (placed_by ∷ [])

abbrev with_evidence : Options
with_evidence = record options { evidence = placed_by ∷ [] }

supported_example :
    AllSupported shop with_evidence (generate shop with_evidence).candidates
    × AllSupported shop with_evidence (generate shop with_evidence).discarded
supported_example = generate-AllSupported shop with_evidence
