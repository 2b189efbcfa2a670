-- ===== src/Sqlprobe/Extract/Fuel.antt =====
-- internal/sqlprobe/extract.go: what each loop over the tokens leaves, and when collectAliases ends.
use pgfathom.Base.{
  true, false, zero, suc, length-drop, drop, refl, Unicode, ℕ, suc, ◌+◌, ◌-◌, ◌≤◌, ◌≡◌, inl, inr,
  List, [], ◌∷◌, arith, text_eq, length, ◌==◌, Bool-cases, Str, codes,
}
use pgfathom.Sqlprobe.Token.{Token}
use pgfathom.Sqlprobe.Extract.{
  opens_query, Aliases, collect_aliases, collect_round, collect, read_table, dot, is_symbol,
  is_word, is_stopper, next_is, starts_clause, read_parts, read_dotted_name, skip_as, alias_name,
  read_alias, skip_parens, Round, ended, opened, item,
}

read_parts-length : (ts : List Token) → length (read_parts ts).1 ≤ length ts
unfolding read_parts
read_parts-length [] = omega arith
read_parts-length (Token.ident w ∷ []) = omega arith
read_parts-length (Token.ident w ∷ t ∷ ts) = elim (Bool-cases (dot t)) [
  | inl e ↦ rw e (omega (arith, read_parts-length ts))
  | inr e ↦ rw e (omega arith)
]
read_parts-length (Token.symbol w ∷ ts) = omega arith
read_parts-length (Token.other w ∷ ts) = omega arith
read_parts-length (Token.string w ∷ ts) = omega arith

-- A name that is read takes a token.
read_parts-reads :
    (ts : List Token) (p : Str) (parts : List Str)
    → (read_parts ts).0 ≡ p ∷ parts
    → suc (length (read_parts ts).1) ≤ length ts
unfolding read_parts
read_parts-reads [] p parts h = absurd (nil_cons h)
  where
    nil_cons : [] ≡ p ∷ parts → ⊥
    nil_cons e = cc e
read_parts-reads (Token.ident w ∷ []) p parts h = omega arith
read_parts-reads (Token.ident w ∷ t ∷ ts) p parts h = elim (Bool-cases (dot t)) [
  | inl e ↦ rw e (omega (arith, read_parts-length ts))
  | inr e ↦ rw e (omega arith)
]
read_parts-reads (Token.symbol w ∷ ts) p parts h = cc
read_parts-reads (Token.other w ∷ ts) p parts h = cc
read_parts-reads (Token.string w ∷ ts) p parts h = cc

read_dotted_name-reads :
    (ts : List Token) (p : Str) (parts : List Str)
    → (read_dotted_name ts).0 ≡ p ∷ parts
    → suc (length (read_dotted_name ts).1) ≤ length ts
unfolding read_dotted_name
read_dotted_name-reads ts p parts h = elim (Bool-cases (next_is starts_clause ts)) [
  | inl e ↦ absurd (nil_cons (rw e at h))
  | inr e ↦ rw e (read_parts-reads ts p parts (rw e at h))
]
  where
    nil_cons : [] ≡ p ∷ parts → ⊥
    nil_cons e = cc e

alias_name-length : (ts : List Token) → length (alias_name ts).1 ≤ length ts
unfolding alias_name
alias_name-length [] = omega arith
alias_name-length (Token.ident w ∷ ts) = elim (Bool-cases (is_stopper w)) [
  | inl e ↦ rw e (omega arith)
  | inr e ↦ rw e (omega arith)
]
alias_name-length (Token.symbol w ∷ ts) = omega arith
alias_name-length (Token.other w ∷ ts) = omega arith
alias_name-length (Token.string w ∷ ts) = omega arith

skip_as-length : (ts : List Token) → length (skip_as ts) ≤ length ts
skip_as-length [] = omega arith
skip_as-length (t ∷ ts) = elim (Bool-cases (is_word (codes "as") t)) [
  | inl e ↦ rw e (omega arith)
  | inr e ↦ rw e (omega arith)
]

read_alias-length : (ts : List Token) → length (read_alias ts).1 ≤ length ts
unfolding read_alias
read_alias-length ts = omega (arith, alias_name-length (skip_as ts), skip_as-length ts)

skip_parens-length : (depth : ℕ) (ts : List Token) → length (skip_parens depth ts) ≤ length ts
unfolding skip_parens
skip_parens-length depth [] = omega arith
skip_parens-length depth (t ∷ ts) = elim (Bool-cases (is_symbol (codes "(") t)) [
  | inl e ↦ rw e (omega (arith, skip_parens-length (depth + 1) ts))
  | inr e ↦ elim (Bool-cases (is_symbol (codes ")") t)) [
    | inr f ↦ rw (e, f) (omega (arith, skip_parens-length depth ts))
    | inl f ↦ elim (Bool-cases (depth == 1)) [
      | inl g ↦ rw (e, f, g) (omega arith)
      | inr g ↦ rw (e, f, g) (omega (arith, skip_parens-length (depth - 1) ts))
    ]
  ]
]

-- A round that goes on leaves fewer tokens.
abbrev Shorter : Round → List Token → Type 0
Shorter ended ts = Unit
Shorter (opened rest) ts = suc (length rest) ≤ length ts
Shorter (item rest aliases) ts = suc (length rest) ≤ length ts

module _ ⦃u : Unicode⦄ where
  read_table-Shorter :
      (parts : List Str) (rest ts : List Token) (aliases : Aliases)
      → ((p : Str) (ps : List Str) → parts ≡ p ∷ ps → suc (length rest) ≤ length ts)
      → Shorter (read_table parts rest aliases) ts
  unfolding read_table
  read_table-Shorter [] rest ts aliases h = tt
  read_table-Shorter (p ∷ ps) rest ts aliases h = omega (arith, h p ps refl, read_alias-length rest)

  collect_round-Shorter :
      (ts : List Token) (aliases : Aliases) → Shorter (collect_round ts aliases) ts
  unfolding collect_round skip_parens read_alias
  collect_round-Shorter [] aliases = tt
  collect_round-Shorter (t ∷ ts) aliases = elim (Bool-cases (is_symbol (codes "(") t)) [
    | inr e ↦ rw e (
        read_table-Shorter (read_dotted_name (t ∷ ts)).0 (read_dotted_name (t ∷ ts)).1 (t ∷ ts)
          aliases (read_dotted_name-reads (t ∷ ts)))
    | inl e ↦ elim (Bool-cases (next_is opens_query ts)) [
      | inr f ↦ rw (e, f) (omega arith)
      | inl f ↦
          let inside = skip_parens 1 ts in
          rw (e, f)
            (omega (
              arith,
              alias_name-length (skip_as inside),
              skip_as-length inside,
              skip_parens-length 1 ts,
            ))
    ]
  ]

  collect-length :
      (fuel : ℕ) (ts : List Token) (aliases : Aliases)
      → length (collect fuel ts aliases).0 ≤ length ts
  unfolding collect
  collect-length zero ts aliases = omega arith
  collect-length (suc fuel) ts aliases =
      go (λ rest out. collect-length fuel rest out) (collect_round ts aliases)
        (collect_round-Shorter ts aliases) refl
    where
      go :
          ((rest : List Token) (out : Aliases) → length (collect fuel rest out).0 ≤ length rest)
          → (r : Round) → Shorter r ts
          → collect_round ts aliases ≡ r
          → length (collect (suc fuel) ts aliases).0 ≤ length ts
      go ih ended h e = rw (e, collect) (omega arith)
      go ih (opened rest) h e = rw (e, collect) (omega (arith, ih rest aliases))
      go ih (item rest out) h e = elim (Bool-cases (next_is (λ t. is_symbol (codes ",") t) rest)) [
        | inl c ↦ rw (e, collect, c) (omega (arith, ih (drop 1 rest) out, length-drop 1 rest))
        | inr c ↦ rw (e, collect, c) (omega arith)
      ]

  -- The loop of collectAliases comes to its end in finitely many rounds, and leaves this. No fuel
  -- stands here: a loop whose rounds do not come to an end leaves nothing.
  pub data Collects : List Token → Aliases → List Token × Aliases → Type 0 where
    at_end :
        (ts : List Token) (aliases : Aliases)
        → collect_round ts aliases ≡ ended
        → Collects ts aliases (ts, aliases)
    go_in :
        (ts : List Token) (aliases : Aliases) (rest : List Token) (out : List Token × Aliases)
        → collect_round ts aliases ≡ opened rest
        → Collects rest aliases out
        → Collects ts aliases out
    last_item :
        (ts : List Token) (aliases : Aliases) (rest : List Token) (found : Aliases)
        → collect_round ts aliases ≡ item rest found
        → next_is (λ t. is_symbol (codes ",") t) rest ≡ false
        → Collects ts aliases (rest, found)
    next_item :
        (ts : List Token) (aliases : Aliases) (rest : List Token) (found : Aliases)
        (out : List Token × Aliases)
        → collect_round ts aliases ≡ item rest found
        → next_is (λ t. is_symbol (codes ",") t) rest ≡ true
        → Collects (drop 1 rest) found out
        → Collects ts aliases out

  -- More fuel than tokens is enough for the loop to come to its end.
  collect-Collects :
      (f : ℕ) (ts : List Token) (aliases : Aliases)
      → suc (length ts) ≤ f
      → Collects ts aliases (collect f ts aliases)
  unfolding collect
  collect-Collects zero ts aliases h = absurd (omega arith)
  collect-Collects (suc f) ts aliases hf =
      go (λ rest out. collect-Collects f rest out) (collect_round ts aliases)
        (collect_round-Shorter ts aliases) refl
    where
      go :
          ((rest : List Token) (out : Aliases)
            → suc (length rest) ≤ f
            → Collects rest out (collect f rest out))
          → (r : Round) → Shorter r ts
          → collect_round ts aliases ≡ r
          → Collects ts aliases (collect (suc f) ts aliases)
      go ih ended h e = rw (e, collect) (at_end ts aliases e)
      go ih (opened rest) h e =
          rw (e, collect) (go_in ts aliases rest _ e (ih rest aliases (omega (arith, h, hf))))
      go ih (item rest out) h e = elim (Bool-cases (next_is (λ t. is_symbol (codes ",") t) rest)) [
        | inl c ↦
            rw (e, collect, c)
              (next_item ts aliases rest out _ e c
                (ih (drop 1 rest) out (omega (arith, h, hf, length-drop 1 rest))))
        | inr c ↦ rw (e, collect, c) (last_item ts aliases rest out e c)
      ]

  -- Reading the items of a FROM comes to its end, at the tokens that it leaves or before.
  pub collect_aliases-Collects :
      (ts : List Token) (aliases : Aliases)
      → Collects ts aliases (collect_aliases ts aliases)
        × (length (collect_aliases ts aliases).0 ≤ length ts)
  unfolding collect_aliases
  collect_aliases-Collects ts aliases = (
    collect-Collects (suc (length ts)) ts aliases (omega arith),
    collect-length (suc (length ts)) ts aliases,
  )
