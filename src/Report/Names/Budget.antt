-- ===== src/Report/Names/Budget.antt =====
-- internal/report/sql.go, truncateIdent: the length of a generated name.
use pgfathom.Base.{
  ℕ, zero, suc, ◌-◌, ◌≤◌, ◌<◌, ◌≡◌, refl, ◌⊎◌, inl, inr, Bool, true, false, [], ◌∷◌, ◌++◌, arith,
  text_eq, length, take, length-append, leb, ◌==◌, ==_iff, Bool-cases, Unicode, Str, codes,
  to_lower,
}
use pgfathom.Report.Names.{max_identifier_bytes, Identifier, cut_valid, truncate_ident}

length-take : (n : ℕ) (s : Str) → length (take n s) ≤ n
length-take zero s = omega arith
length-take (suc n) [] = omega arith
length-take (suc n) (c ∷ s) = omega (arith, length-take n s)

module _ ⦃u : Unicode⦄ (hash : Str → Str) (valid : Str → Bool) where
  -- The name fits; it is the whole lowered name if that fits, and else the first bytes of it, which
  -- are valid text, or none, with the hash of the whole behind. No longer beginning within the
  -- budget is valid.
  pub record IsFitting (name : Str) (i : Identifier) : Type 0 where
    pub within : length i.value ≤ max_identifier_bytes
    pub whole : i.full ≡ to_lower name
    pub kept :
        length (to_lower name) ≤ max_identifier_bytes
        → (i.value ≡ to_lower name) × (i.truncated ≡ false)
    pub cut :
        max_identifier_bytes < length (to_lower name)
        → (i.truncated ≡ true)
          × ((n : ℕ) × (i.value ≡ take n (to_lower name) ++ (codes "_" ++ hash (to_lower name)))
              × ((valid (take n (to_lower name)) ≡ true) ⊎ (n ≡ 0))
              × ((m : ℕ) → n < m → m ≤ 54 → valid (take m (to_lower name)) ≡ false))

  -- The longest valid beginning within `k` bytes.
  cut_valid-longest :
      (k : ℕ) (s : Str)
      → (n : ℕ) × (cut_valid hash valid k s ≡ take n s)
        × (n ≤ k)
        × ((valid (take n s) ≡ true) ⊎ (n ≡ 0))
        × ((m : ℕ) → n < m → m ≤ k → valid (take m s) ≡ false)
  unfolding cut_valid
  cut_valid-longest zero s = (0, refl, omega arith, inr refl, λ m a b. absurd (omega arith))
  cut_valid-longest (suc k) s =
      let (n, cut, below, v, longest) = cut_valid-longest k s in
      elim (Bool-cases (valid (take (suc k) s))) [
        | inl e ↦ (suc k, rw e refl, omega arith, inl e, λ m a b. absurd (omega arith))
        | inr e ↦ (
          n,
          rw e cut,
          omega arith,
          v,
          λ m a b. elim (Bool-cases (m == suc k)) [
            | inl same ↦ rw ((==_iff m (suc k)).0 same) e
            | inr other ↦ longest m a (ground (arith, other))
          ],
        )
      ]

  -- Where the hash is written with eight digits, a generated name is at most 63 bytes long. It is the
  -- lowered name if that fits; and else the longest beginning of it within 54 bytes that is valid
  -- text, or none, with an underscore and the hash of the whole.
  pub truncate_ident-IsFitting :
      (name : Str)
      → length (hash (to_lower name)) ≡ 8
      → IsFitting name (truncate_ident hash valid name)
  unfolding truncate_ident
  truncate_ident-IsFitting name h =
      let lower = to_lower name in
      elim (Bool-cases (leb (length lower) max_identifier_bytes)) [
        | inl e ↦ rw e (record {
          within = ground arith;
          whole = refl;
          kept = λ fits. (refl, refl);
          cut = λ long. absurd (ground arith);
        })
        | inr e ↦
            let suffix = codes "_" ++ hash lower in
            let (n, cut, below, v, longest) =
              cut_valid-longest (max_identifier_bytes - length suffix) lower in
            rw e (record {
              within = rw cut (
                  omega
                    (arith, below, h, length-take n lower, length-append (take n lower) suffix));
              whole = refl;
              kept = λ fits. absurd (ground arith);
              cut = λ long. (refl, (n, rw cut refl, v, λ m a b. longest m a (omega (arith, h))));
            })
      ]
