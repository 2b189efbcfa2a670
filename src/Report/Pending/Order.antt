-- ===== src/Report/Pending/Order.antt =====
-- internal/report/sql.go, notValidKeys beside what the audit finds (internal/audit/audit.go).
use mathlib.Core.List.{Perm}
use pgfathom.Base.{
  sort_stable-IsSorted, ◌≡◌, refl, inl, inr, true, false, List, [], ◌∷◌, ◌++◌, map, arith, text_eq,
  map-append, sort_stable-Perm, IsSorted, Bool-cases, str_eq_iff, str_lt_asymm,
}
use pgfathom.Model.Table.{ForeignKey, Table, Schema, ref}
use pgfathom.Model.Finding.{Finding}
use pgfathom.Audit.{not_valid_finding, not_valid_constraints}
use pgfathom.Report.Pending.{
  PendingKey, pending_of, pending_tables, pending_schemas, pending_less, not_valid_keys,
}

-- The findings of the audit on constraints that are not validated, table by table.
abbrev pub audited_tables : List Table → List Finding
audited_tables [] = []
audited_tables (t ∷ ts) = not_valid_constraints t t.foreign_keys ++ audited_tables ts

abbrev pub audited_schemas : List Schema → List Finding
audited_schemas [] = []
audited_schemas (s ∷ ss) = audited_tables s.tables ++ audited_schemas ss

abbrev pub finding_of : PendingKey → Finding
finding_of p = not_valid_finding p.table p.fk

pending_of-audited :
    (t : Table) (fks : List ForeignKey)
    → map finding_of (pending_of t fks) ≡ not_valid_constraints t fks
unfolding pending_of not_valid_constraints
pending_of-audited t [] = refl
pending_of-audited t (fk ∷ fks) = elim (Bool-cases fk.validated) [
  | inl e ↦ rw e (pending_of-audited t fks)
  | inr e ↦ rw (e, pending_of-audited t fks) refl
]

pending_tables-audited : (ts : List Table) → map finding_of (pending_tables ts) ≡ audited_tables ts
unfolding pending_tables
pending_tables-audited [] = refl
pending_tables-audited (t ∷ ts) =
    rw
      (
        map-append finding_of (pending_of t t.foreign_keys) (pending_tables ts),
        pending_of-audited t t.foreign_keys,
        pending_tables-audited ts,
      )
      refl

pending_schemas-audited :
    (ss : List Schema) → map finding_of (pending_schemas ss) ≡ audited_schemas ss
unfolding pending_schemas
pending_schemas-audited [] = refl
pending_schemas-audited (s ∷ ss) =
    rw
      (
        map-append finding_of (pending_tables s.tables) (pending_schemas ss),
        pending_tables-audited s.tables,
        pending_schemas-audited ss,
      )
      refl

pending_less_asymm : (a b : PendingKey) → pending_less a b ≡ true → pending_less b a ≡ false
pending_less_asymm a b h = ground (
  arith,
  str_eq_iff (ref a.table) (ref b.table),
  str_eq_iff (ref b.table) (ref a.table),
  str_lt_asymm (ref a.table) (ref b.table),
  str_lt_asymm a.fk.name b.fk.name,
)

-- The file of constraints to validate is about the constraints that the audit reports as not
-- validated, each as often, in the order of the tables and names.
pub not_valid_keys-Perm :
    (ss : List Schema)
    → (pending : List PendingKey) × (map finding_of pending ≡ audited_schemas ss)
      × Perm pending (not_valid_keys ss)
      × IsSorted pending_less (not_valid_keys ss)
unfolding not_valid_keys
not_valid_keys-Perm ss = (
  pending_schemas ss,
  pending_schemas-audited ss,
  sort_stable-Perm pending_less (pending_schemas ss),
  sort_stable-IsSorted pending_less pending_less_asymm (pending_schemas ss),
)
