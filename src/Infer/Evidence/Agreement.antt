-- ===== src/Infer/Evidence/Agreement.antt =====
-- internal/infer/evidence.go: `existing`, the index of the candidates by the two keys they join.
use pgfathom.Base.{
  ℕ, zero, suc, ◌≡◌, refl, sym, inl, inr, Bool, false, Option, none, some, List, [], ◌∷◌, ◌++◌, map,
  append-nil, append_assoc, text_eq, Dict, lookup, put, Float, length, get_elem?, length-append,
  get_elem?-append, get_elem?-snoc, map-append, length-map, any, any-append, Bool-cases, Unicode,
  Str, str_eq, str_eq_sound,
}
use pgfathom.Model.Table.{Schema}
use pgfathom.Model.Candidate.{Signal, Candidate, has_signal}
use pgfathom.Model.Evidence.{JoinEvidence}
use pgfathom.Infer.Score.{rescore}
use pgfathom.Infer.Evidence.{
  candidate_key, Folding, index_candidates, candidate_index, strengthen, change_at, offer_at, offer,
  group_evidence, apply_evidence,
}
use pgfathom.Infer.Evidence.Joined.{apply_groups-invariant}

abbrev pub has_key : Str → List Str → Bool
has_key k keys = any (λ j. str_eq j k) keys

-- What the index says of a key is so: the key stands there, or it stands nowhere.
abbrev Found : Option ℕ → Str → List Str → Type 0
Found none k keys = has_key k keys ≡ false
Found (some i) k keys = get_elem? keys i ≡ some k

abbrev Mirrors : List Str → Dict Str ℕ → Type 0
Mirrors keys out = (k : Str) → Found (lookup k out) k keys

Found-snoc :
    (r : Option ℕ) (k j : Str) (keys : List Str)
    → str_eq j k ≡ false
    → Found r k keys
    → Found r k (keys ++ j ∷ [])
Found-snoc none k j keys d h = rw (any-append (λ l. str_eq l k) keys (j ∷ []), h, d) refl
Found-snoc (some i) k j keys d h = get_elem?-append keys (j ∷ []) i k h

Mirrors-put :
    (keys : List Str) (out : Dict Str ℕ) (j : Str)
    → Mirrors keys out
    → Mirrors (keys ++ j ∷ []) (put j (length keys) out)
unfolding lookup put
Mirrors-put keys out j h k = elim (Bool-cases (str_eq j k)) [
  | inl e ↦ rw e (rw (sym (str_eq_sound j k e)) (get_elem?-snoc keys j))
  | inr e ↦ rw e (Found-snoc (lookup k out) k j keys e (h k))
]

-- None of the added keys was there, nor is one added twice.
abbrev pub AreNew : List Str → List Str → Type 0
AreNew keys [] = Unit
AreNew keys (k ∷ fresh) = (has_key k keys ≡ false) × AreNew (keys ++ k ∷ []) fresh

AreNew-snoc :
    (keys fresh : List Str) (k : Str)
    → AreNew keys fresh
    → has_key k (keys ++ fresh) ≡ false
    → AreNew keys (fresh ++ k ∷ [])
AreNew-snoc keys [] k h n = (rw (append-nil keys) at n, tt)
AreNew-snoc keys (f ∷ fresh) k (p, h) n =
    (p, AreNew-snoc (keys ++ f ∷ []) fresh k h (rw (append_assoc keys (f ∷ []) fresh) n))

module _ ⦃F : Float⦄ where
  abbrev pub keys : List Candidate → List Str
  keys cs = map candidate_key cs

  strengthen-key : (s : Signal) (c : Candidate) → candidate_key (strengthen s c) ≡ candidate_key c
  unfolding strengthen rescore
  strengthen-key s c = elim (Bool-cases (has_signal c s.kind)) [
    | inl e ↦ rw e refl
    | inr e ↦ rw e refl
  ]

  change_at-keys :
      (i : ℕ) (s : Signal) (cs : List Candidate) → keys (change_at i (strengthen s) cs) ≡ keys cs
  unfolding change_at
  change_at-keys i s [] = refl
  change_at-keys zero s (c ∷ cs) = rw (strengthen-key s c) refl
  change_at-keys (suc i) s (c ∷ cs) = rw (change_at-keys i s cs) refl

  index_candidates-Mirrors :
      (ks : List Str) (cs : List Candidate) (out : Dict Str ℕ)
      → Mirrors ks out
      → Mirrors (ks ++ keys cs) (index_candidates (length ks) cs out)
  unfolding index_candidates
  index_candidates-Mirrors ks [] out h = rw (append-nil ks) h
  index_candidates-Mirrors ks (c ∷ cs) out h =
      let rest =
        index_candidates-Mirrors (ks ++ candidate_key c ∷ []) cs
          (put (candidate_key c) (length ks) out) (Mirrors-put ks out (candidate_key c) h) in
      rw (length-append ks (candidate_key c ∷ []), append_assoc ks (candidate_key c ∷ []) (keys cs))
        at rest

  -- The candidates are those from before, by their keys, and new ones; and the index mirrors them.
  record IsGrown (cs : List Candidate) (f : Folding) : Type 0 where
    fresh : List Str
    grown : keys f.candidates ≡ keys cs ++ fresh
    new : AreNew (keys cs) fresh
    mirrors : Mirrors (keys f.candidates) f.existing

  offer_at-IsGrown :
      (cs : List Candidate) (r : Option ℕ) (s : Signal) (c : Candidate) (f : Folding)
      → Found r (candidate_key c) (keys f.candidates)
      → IsGrown cs f
      → IsGrown cs (offer_at r (candidate_key c) s c f)
  unfolding offer_at
  offer_at-IsGrown cs (some i) s c f d h = record {
    fresh = h.fresh;
    grown = rw (change_at-keys i s f.candidates) h.grown;
    new = h.new;
    mirrors = rw (change_at-keys i s f.candidates) h.mirrors;
  }
  offer_at-IsGrown cs none s c f d h =
      let e = map-append candidate_key f.candidates (c ∷ []) in
      record {
        fresh = h.fresh ++ candidate_key c ∷ [];
        grown = rw (e, h.grown) (append_assoc (keys cs) h.fresh (candidate_key c ∷ []));
        new = AreNew-snoc (keys cs) h.fresh (candidate_key c) h.new (rw h.grown at d);
        mirrors =
            rw (e, sym (length-map candidate_key f.candidates))
              (Mirrors-put (keys f.candidates) f.existing (candidate_key c) h.mirrors);
      }

  offer-IsGrown :
      (cs : List Candidate) (s : Signal) (c : Candidate) (f : Folding)
      → IsGrown cs f
      → IsGrown cs (offer s c f)
  unfolding offer
  offer-IsGrown cs s c f h =
      offer_at-IsGrown cs (lookup (candidate_key c) f.existing) s c f (h.mirrors (candidate_key c))
        h

  -- Evidence keeps the candidates that there are, in their order and between the same two keys, and
  -- puts new ones behind them: none between two keys that a candidate already joins, and no two
  -- between the same.
  pub apply_evidence-AreNew :
      ⦃u : Unicode⦄ (cs : List Candidate) (ss : List Schema) (evidence : List JoinEvidence)
      → (fresh : List Str) × (keys (apply_evidence cs ss evidence) ≡ keys cs ++ fresh)
        × AreNew (keys cs) fresh
  unfolding apply_evidence candidate_index lookup
  apply_evidence-AreNew cs ss evidence =
      let h =
        apply_groups-invariant ss (IsGrown cs) (λ s c f j. offer-IsGrown cs s c f)
          (group_evidence evidence) _
          (record {
            fresh = [];
            grown = sym (append-nil (keys cs));
            new = tt;
            mirrors = index_candidates-Mirrors [] cs [] (λ k. refl);
          }) in
      (h.fresh, h.grown, h.new)
