-- ===== src/Model/Table/Leading.antt =====
-- internal/model/schema.go, IndexLeads, and a description of it by prefixes.
use pgfathom.Base.{
  ◌≡◌, refl, ◌↔◌, inl, inr, true, List, [], ◌∷◌, arith, text_eq, length, any, leb, Bool-cases,
  Unicode, Str, equal_fold,
}
use pgfathom.Model.Table.{Index, opens_with, leads, index_leads}

module _ ⦃u : Unicode⦄ where
  -- The index's columns are the wanted ones, up to case and in order, and then perhaps more.
  pub data OpensWith : List Str → List Str → Type 0 where
    done : (more : List Str) → OpensWith more []
    next :
        (h w : Str) (have wanted : List Str)
        → equal_fold h w ≡ true
        → OpensWith have wanted
        → OpensWith (h ∷ have) (w ∷ wanted)

  opens_with_sound :
      (have wanted : List Str) → opens_with have wanted ≡ true → OpensWith have wanted
  unfolding opens_with
  opens_with_sound have [] h = done have
  opens_with_sound [] (w ∷ wanted) h = cc
  opens_with_sound (c ∷ have) (w ∷ wanted) h =
      next c w have wanted (ground arith) (opens_with_sound have wanted (ground arith))

  opens_with_complete :
      {have wanted : List Str}
      → OpensWith have wanted
      → (opens_with have wanted ≡ true) × (leb (length wanted) (length have) ≡ true)
  unfolding opens_with
  opens_with_complete (done more) = (refl, ground arith)
  opens_with_complete (next h w have wanted e rest) =
      let (o, l) = opens_with_complete rest in (rw (e, o), ground arith)

  -- Some index of the list opens with the columns.
  pub data Leads (wanted : List Str) : List Index → Type 0 where
    here :
        (idx : Index) (rest : List Index) → OpensWith idx.columns wanted → Leads wanted (idx ∷ rest)
    later : (idx : Index) (rest : List Index) → Leads wanted rest → Leads wanted (idx ∷ rest)

  leads_sound :
      (idx : Index) (wanted : List Str) → leads idx wanted ≡ true → OpensWith idx.columns wanted
  unfolding leads
  leads_sound idx wanted h = opens_with_sound idx.columns wanted (ground arith)

  leads_complete :
      (idx : Index) (wanted : List Str) → OpensWith idx.columns wanted → leads idx wanted ≡ true
  unfolding leads
  leads_complete idx wanted o = let (a, l) = opens_with_complete o in rw (l, a)

  any_sound :
      (wanted : List Str) (indexes : List Index)
      → any (λ idx. leads idx wanted) indexes ≡ true
      → Leads wanted indexes
  any_sound wanted [] h = cc
  any_sound wanted (idx ∷ rest) h = elim (Bool-cases (leads idx wanted)) [
    | inl e ↦ here idx rest (leads_sound idx wanted e)
    | inr e ↦ later idx rest (any_sound wanted rest (rw e at h))
  ]

  any_complete :
      {wanted : List Str} {indexes : List Index}
      → Leads wanted indexes
      → any (λ idx. leads idx wanted) indexes ≡ true
  any_complete {wanted} (here idx rest o) = rw (leads_complete idx wanted o)
  any_complete {wanted} (later idx rest l) = ground (arith, any_complete l)

  -- For one or more columns the rule holds exactly when some index of the list opens with them,
  -- in their order and up to case.
  pub index_leads_iff :
      (indexes : List Index) (c : Str) (cs : List Str)
      → (index_leads indexes (c ∷ cs) ≡ true) ↔ Leads (c ∷ cs) indexes
  unfolding index_leads
  index_leads_iff indexes c cs = (any_sound (c ∷ cs) indexes, any_complete)
