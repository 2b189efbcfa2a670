-- ===== src/Sqlprobe/Walk/Fuel.antt =====
-- internal/sqlprobe/extract.go, extract: the rounds of the loop, and the fuel they take.
use pgfathom.Base.{
  ℕ, zero, suc, ◌≤◌, ◌≡◌, refl, inl, inr, ◌||◌, Option, none, some, List, [], ◌∷◌, ◌++◌, arith,
  text_eq, length, Bool-cases, Unicode, Str, codes, str_eq,
}
use pgfathom.Sqlprobe.Token.{Token}
use pgfathom.Sqlprobe.Extract.{
  RawRef, RawJoin, RawPredicate, collect_aliases, PredOp, Aliases, one_of, comparison_operators,
  containment_operators, vector_distance_operators, ref_ending_at, ref_starting_at,
}
use pgfathom.Sqlprobe.Extract.Fuel.{Collects, collect_aliases-Collects}
use pgfathom.Sqlprobe.Walk.{
  Walked, like_operator, predicate, equality, at_symbol, at_word, at_token, in_front_of, walk,
}

module _ ⦃u : Unicode⦄ where
  predicate-rest :
      (op : PredOp) (r : Option RawRef) (ts : List Token) (aliases : Aliases)
      → (predicate op r ts aliases).rest ≡ ts
  predicate-rest op none ts aliases = refl
  predicate-rest op (some r) ts aliases = refl

  equality-rest :
      (l r : Option RawRef) (ts : List Token) (aliases : Aliases)
      → (equality l r ts aliases).rest ≡ ts
  equality-rest (some l) (some r) ts aliases = refl
  equality-rest (some l) none ts aliases = refl
  equality-rest none none ts aliases = refl
  equality-rest none (some r) ts aliases = refl

  at_symbol-rest :
      (text : Str) (before ts : List Token) (aliases : Aliases)
      → (at_symbol text before ts aliases).rest ≡ ts
  unfolding at_symbol
  at_symbol-rest text before ts aliases =
      let left = ref_ending_at before in
      let p = λ (op : PredOp). predicate-rest op left ts aliases in
      elim (Bool-cases (str_eq text (codes ";"))) [
        | inl a ↦ rw a refl
        | inr a ↦ elim (Bool-cases (str_eq text (codes "="))) [
          | inl b ↦ rw (a, b) (equality-rest left (ref_starting_at ts) ts aliases)
          | inr b ↦ elim (Bool-cases (one_of comparison_operators text)) [
            | inl c ↦ rw (a, b, c) (p PredOp.range)
            | inr c ↦ elim (Bool-cases (one_of containment_operators text)) [
              | inl d ↦ rw (a, b, c, d) (p PredOp.containment)
              | inr d ↦ elim (Bool-cases (str_eq text (codes "@@"))) [
                | inl e ↦ rw (a, b, c, d, e) (p PredOp.full_text)
                | inr e ↦ elim (Bool-cases (one_of vector_distance_operators text)) [
                  | inl f ↦ rw (a, b, c, d, e, f) (p PredOp.vector_distance)
                  | inr f ↦ rw (a, b, c, d, e, f) refl
                ]
              ]
            ]
          ]
        ]
      ]

  at_word-length :
      (text : Str) (before ts : List Token) (aliases : Aliases)
      → length (at_word text before ts aliases).rest ≤ length ts
  unfolding at_word
  at_word-length text before ts aliases =
      elim (Bool-cases (str_eq text (codes "from") || str_eq text (codes "join"))) [
        | inl a ↦ rw a ((collect_aliases-Collects ts aliases).1)
        | inr a ↦ elim (Bool-cases (str_eq text (codes "like") || str_eq text (codes "ilike"))) [
          | inl b ↦
              rw (a, b, predicate-rest (like_operator ts) (ref_ending_at before) ts aliases)
                (omega arith)
          | inr b ↦ rw (a, b) (omega arith)
        ]
      ]

  -- No round puts a token back.
  at_token-length :
      (t : Token) (before ts : List Token) (aliases : Aliases)
      → length (at_token t before ts aliases).rest ≤ length ts
  unfolding at_token
  at_token-length (Token.symbol text) before ts aliases =
      rw (at_symbol-rest text before ts aliases) (omega arith)
  at_token-length (Token.ident text) before ts aliases = at_word-length text before ts aliases
  at_token-length (Token.other text) before ts aliases = omega arith
  at_token-length (Token.string text) before ts aliases = omega arith

  -- The loop of extract comes to its end in finitely many rounds, each reading of a FROM in it too,
  -- and finds this. No fuel stands here.
  pub data Walks (tokens : List Token)
      : List Token → Aliases → List RawJoin × List RawPredicate → Type 0 where
    at_end : (aliases : Aliases) → Walks tokens [] aliases ([], [])
    round :
        (t : Token) (ts : List Token) (aliases : Aliases) (w : Walked)
        (out : List RawJoin × List RawPredicate)
        → Collects ts aliases (collect_aliases ts aliases)
        → w ≡ at_token t (in_front_of tokens (t ∷ ts)) ts aliases
        → Walks tokens w.rest w.aliases out
        → Walks tokens (t ∷ ts) aliases (w.joins ++ out.0, w.preds ++ out.1)

  -- With as much fuel as there are tokens, or more, the walk over them comes to its end in finitely
  -- many rounds, each reading of a FROM in it too, and gives what the rounds find: running out of
  -- fuel is no end.
  pub walk-Walks :
      (fuel : ℕ) (tokens ts : List Token) (aliases : Aliases)
      → length ts ≤ fuel
      → Walks tokens ts aliases (walk fuel tokens ts aliases)
  unfolding walk
  walk-Walks zero tokens [] aliases h = at_end aliases
  walk-Walks (suc fuel) tokens [] aliases h = at_end aliases
  walk-Walks zero tokens (t ∷ ts) aliases h = absurd (omega arith)
  walk-Walks (suc fuel) tokens (t ∷ ts) aliases h =
      let before = in_front_of tokens (t ∷ ts) in
      let w = at_token t before ts aliases in
      round t ts aliases w (walk fuel tokens w.rest w.aliases)
        (collect_aliases-Collects ts aliases).0 refl
        (walk-Walks fuel tokens w.rest w.aliases
          (omega (arith, at_token-length t before ts aliases, h)))
