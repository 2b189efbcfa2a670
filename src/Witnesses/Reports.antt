-- ===== src/Witnesses/Reports.antt =====
-- The theorems on findings and on the generated SQL at concrete inputs.
use pgfathom.Model.Table.{Schema, ForeignKey}
use mathlib.Core.List.{Perm}
use pgfathom.Base.{
  ℕ, zero, suc, ◌+◌, ◌*◌, ◌/◌, ◌%◌, ◌^◌, ◌≡◌, refl, ap, ◌∙◌, inl, inr, Bool, true, false, none,
  some, List, [], ◌∷◌, ◌++◌, map, append_assoc, arith, itoa, itoa-any, text_eq, ℤ, drop, all, All,
  All-IsIn, IsSorted, ◌==◌, if◌then◌else◌, Bool-cases, Str, codes, is_ascii, lower_byte, to_lower,
  pos, negsuc,
}
use pgfathom.Model.Refs.{join}
use pgfathom.Model.Finding.{FindingKind, SuggestionKind, Suggestion, Finding}
use pgfathom.Audit.{Options, Usage, finding_less, findings}
use pgfathom.Audit.Facts.{IsFact, findings-AllFacts}
use pgfathom.Report.Relations.{broken_file}
use pgfathom.Report.Relations.Select.{IsPhrase, unbroken}
use pgfathom.Report.Relations.Listing.{IsPlainPair, IsListing, broken_file-IsListing}
use pgfathom.Report.Pending.{PendingKey, pending_less, not_valid_keys}
use pgfathom.Report.Pending.Order.{audited_schemas, finding_of, not_valid_keys-Perm}
use pgfathom.Report.Names.{truncate_ident}
use pgfathom.Report.Names.Budget.{IsFitting, truncate_ident-IsFitting}
use pgfathom.Report.Lines.{Header}
use pgfathom.Report.Suggestions.{suggested_keys_file, suggested_indexes_file}
use pgfathom.Report.Commented.{Plain-append, Plain, IsCommented, Plain-join}
use pgfathom.Report.Commented.Files.{
  IsPlainHeader, ArePlainTables, ArePlainFindings, suggested_files-IsCommented,
}
use pgfathom.Witnesses.Fixed.{fixed, ascii, decimals, printed}
use pgfathom.Witnesses.Data.{schemas, customers, candidate}
use pgfathom.Witnesses.Runs.{placed_by}
use pgfathom.Witnesses.Generate.{shop}

-- every usage counts
abbrev audited : Options
audited = record {
  joins = placed_by ∷ [];
  predicates = [];
  extensions = [];
  recurrence_min = pos 1;
}

abbrev in_order : Usage → Usage
in_order usage = usage

findings_example :
    (fs : List Finding) × (findings in_order shop audited ≡ some fs)
    × All (IsFact shop audited) fs
    × IsSorted finding_less fs
findings_example =
    findings-AllFacts shop audited in_order (λ usage. All-IsIn usage) ((tt, (tt, tt)), tt)

abbrev eight_digits : Str → Str
eight_digits s = codes "deadbeef"

abbrev any_bytes : Str → Bool
any_bytes s = true

abbrev long_name : Str
long_name = codes "ux_a_table_with_a_very_long_name_and_a_column_with_a_very_long_name_too"

fitting_example :
    IsFitting eight_digits any_bytes long_name (truncate_ident eight_digits any_bytes long_name)
fitting_example = truncate_ident-IsFitting eight_digits any_bytes long_name refl

abbrev dotted : List Str → Str
dotted ns = join (codes ".") ns

abbrev a_time : ℤ → Str
a_time t = codes "2026-01-01T00:00:00Z"

lower_byte-break : (c : ℕ) → (c == b'\n') ≡ false → (lower_byte c == b'\n') ≡ false
lower_byte-break c h = ground arith

map_lower-Plain : (s : Str) → Plain s → Plain (map lower_byte s)
map_lower-Plain [] h = refl
map_lower-Plain (c ∷ s) h = ground (arith, lower_byte-break c, map_lower-Plain s)

lower-Plain : (s : Str) → Plain s → Plain (to_lower s)
lower-Plain s h = elim (Bool-cases (all is_ascii s)) [
  | inl e ↦ rw e (map_lower-Plain s h)
  | inr e ↦ rw e h
]

abbrev header : Header
header = record {
  tool = codes "pgfathom";
  version = codes "1.0";
  server = codes "16.2";
  mode = codes "none";
  generated = pos 0;
  sampled = true;
}

header_plain : IsPlainHeader a_time (λ t. refl) header
header_plain = record {
  tool_plain = refl;
  version_plain = refl;
  server_plain = refl;
  mode_plain = refl;
}

abbrev promote : Suggestion
promote = record {
  kind = SuggestionKind.promote_unique;
  columns = codes "id" ∷ [];
  index_method = [];
  index_opclass = [];
  note = [];
  key_probe = none;
}

abbrev keyless : Finding
keyless = record {
  kind = FindingKind.missing_primary_key;
  object = codes "public.customers";
  detail = [];
  metrics = [];
  suggestion = some promote;
}

schemas_plain : ArePlainTables schemas
schemas_plain = (
  (
    record {
      schema_plain = refl;
      name_plain = refl;
      uniques_plain = ((refl, (refl, tt)), ((refl, (refl, tt)), tt));
    },
    tt,
  ),
  tt,
)

findings_plain : ArePlainFindings (keyless ∷ [])
findings_plain = (
  (
    refl,
    record {
      columns_plain = (refl, tt);
      method_plain = refl;
      opclass_plain = refl;
      note_plain = refl;
    },
  ),
  tt,
)

files_example :
    IsCommented
      (suggested_keys_file eight_digits any_bytes dotted a_time header schemas (keyless ∷ [])).0
    × IsCommented
        (suggested_indexes_file eight_digits any_bytes dotted a_time header schemas
          (keyless ∷ [])).0
files_example =
    suggested_files-IsCommented a_time (λ t. refl) eight_digits any_bytes dotted (λ s. refl)
      lower-Plain (λ ns h. Plain-join (codes ".") ns refl h) header schemas (keyless ∷ [])
      header_plain schemas_plain findings_plain

drop_one-Plain : (s : Str) → Plain s → Plain (drop 1 s)
drop_one-Plain [] h = refl
drop_one-Plain (c ∷ s) h = ground (arith, h)

decimals-Plain : (q k : ℕ) → Plain (decimals q k)
decimals-Plain q zero = itoa-any q
decimals-Plain q (suc k) =
    let d = 10 ^ suc k in
    let tail = itoa (d + q % d) in
    Plain-append (itoa (q / d)) (b'.' ∷ drop 1 tail) (itoa-any (q / d))
      (drop_one-Plain tail (itoa-any (d + q % d)))

printed-Plain : (x : ℤ) (k : ℕ) → Plain (printed x k)
printed-Plain (pos n) k = decimals-Plain ((n * 10 ^ k + 5000) / 10000) k
printed-Plain (negsuc n) k = decimals-Plain ((suc n * 10 ^ k + 5000) / 10000) k

candidate_plain : IsPlainPair candidate
candidate_plain = (
  record { schema_plain = refl; table_plain = refl; columns_plain = (refl, tt) },
  record { schema_plain = refl; table_plain = refl; columns_plain = (refl, tt) },
)

-- the quotes in a name doubled
abbrev doubled : Str → Str
doubled [] = []
doubled (c ∷ s) = let rest = doubled s in if c == b'"' then b'"' ∷ b'"' ∷ rest else c ∷ rest

abbrev quoted : List Str → Str
quoted [] = []
quoted (n ∷ []) = b'"' ∷ (doubled n ++ (b'"' ∷ []))
quoted (n ∷ ns) = b'"' ∷ (doubled n ++ (b'"' ∷ b'.' ∷ quoted ns))

doubled-unbroken : (s t : Str) → unbroken true (doubled s ++ t) ≡ unbroken true t
unfolding unbroken
doubled-unbroken [] t = refl
doubled-unbroken (c ∷ s) t = elim (Bool-cases (c == b'"')) [
  | inl e ↦ rw e (doubled-unbroken s t)
  | inr e ↦ rw (e, e) (ground (arith, doubled-unbroken s t))
]

quoted-Phrase : (ns : List Str) → IsPhrase (quoted ns)
unfolding unbroken
quoted-Phrase [] t = refl
quoted-Phrase (n ∷ []) t =
    ap (unbroken true) (append_assoc (doubled n) (b'"' ∷ []) t) ∙ doubled-unbroken n (b'"' ∷ t)
quoted-Phrase (n ∷ m ∷ ns) t =
    ap (unbroken true) (append_assoc (doubled n) (b'"' ∷ b'.' ∷ quoted (m ∷ ns)) t)
    ∙ (doubled-unbroken n (b'"' ∷ b'.' ∷ (quoted (m ∷ ns) ++ t)) ∙ quoted-Phrase (m ∷ ns) t)

doubled-Plain : (s : Str) → Plain s → Plain (doubled s)
doubled-Plain [] h = refl
doubled-Plain (c ∷ s) h = ground (arith, doubled-Plain s)

quoted-Plain : (ns : List Str) → All Plain ns → Plain (quoted ns)
quoted-Plain [] h = refl
quoted-Plain (n ∷ []) (p, h) = Plain-append (doubled n) (b'"' ∷ []) (doubled-Plain n p) refl
quoted-Plain (n ∷ m ∷ ns) (p, h) =
    Plain-append (doubled n) (b'"' ∷ b'.' ∷ quoted (m ∷ ns)) (doubled-Plain n p)
      (quoted-Plain (m ∷ ns) h)

listing_example :
    IsListing quoted
      (candidate ∷ [])
      (broken_file eight_digits any_bytes quoted a_time header (candidate ∷ []))
listing_example =
    broken_file-IsListing eight_digits any_bytes quoted (λ s. refl) lower-Plain quoted-Plain
      quoted-Phrase printed-Plain a_time (λ t. refl) header (candidate ∷ []) header_plain
      (candidate_plain, tt)

-- a foreign key that was declared NOT VALID
abbrev placed : ForeignKey
placed = record {
  name = codes "orders_customer";
  columns = codes "customer_id" ∷ [];
  ref_schema = codes "public";
  ref_table = codes "customers";
  ref_columns = codes "id" ∷ [];
  validated = false;
  has_index = false;
}

abbrev with_pending : List Schema
with_pending =
    record { name = codes "public"; tables = record customers { foreign_keys = placed ∷ [] } ∷ [] }
    ∷ []

pending_example :
    (pending : List PendingKey) × (map finding_of pending ≡ audited_schemas with_pending)
    × Perm pending (not_valid_keys with_pending)
    × IsSorted pending_less (not_valid_keys with_pending)
pending_example = not_valid_keys-Perm with_pending
