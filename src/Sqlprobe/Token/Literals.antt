-- ===== src/Sqlprobe/Token/Literals.antt =====
-- internal/sqlprobe/token.go: string literals and quoted identifiers.
use pgfathom.Base.{
  ℕ, ◌≡◌, refl, ◌≢◌, inl, inr, false, [], ◌∷◌, ◌++◌, arith, text_eq, ◌==◌, if◌then◌else◌, ==_iff,
  Bool-cases, Unicode, Str,
}
use pgfathom.Sqlprobe.Token.{Token, step, is_escape_prefixed}
use pgfathom.Sqlprobe.Scan.{read_quoted_ident, has_at, read_string}

-- A text inside quotes, with every quote in it doubled.
abbrev pub doubled : ℕ → Str → Str
doubled q [] = []
doubled q (c ∷ s) = if c == q then q ∷ q ∷ doubled q s else c ∷ doubled q s

read_string_end :
    (rest : Str) → has_at rest b'\'' ≡ false → read_string false (b'\'' ∷ rest) ≡ ([], rest)
unfolding read_string
read_string_end [] h = refl
read_string_end (d ∷ rest) h = ground arith

read_string_step :
    (c : ℕ) (s : Str)
    → c ≢ b'\''
    → read_string false (c ∷ s) ≡ (c ∷ (read_string false s).0, (read_string false s).1)
unfolding read_string
read_string_step c [] h = ground arith
read_string_step c (d ∷ s) h = ground arith

read_string_pair :
    (s : Str)
    → read_string false (b'\'' ∷ b'\'' ∷ s)
      ≡ (b'\'' ∷ (read_string false s).0, (read_string false s).1)
unfolding read_string
read_string_pair s = refl

read_string-doubled :
    (t rest : Str)
    → has_at rest b'\'' ≡ false
    → read_string false (doubled b'\'' t ++ (b'\'' ∷ rest)) ≡ (t, rest)
read_string-doubled [] rest h = read_string_end rest h
read_string-doubled (c ∷ t) rest h = elim (Bool-cases (c == b'\'')) [
  | inl e ↦ rw (e, read_string_pair, read_string-doubled t rest h, (==_iff c b'\'').0 e) refl
  | inr e ↦
      rw (e, read_string_step c _ (λ p. cc (e, (==_iff c b'\'').1 p)), read_string-doubled t rest h)
        refl
]

read_quoted_ident_end :
    (rest : Str) → has_at rest b'"' ≡ false → read_quoted_ident (b'"' ∷ rest) ≡ ([], rest)
unfolding read_quoted_ident
read_quoted_ident_end [] h = refl
read_quoted_ident_end (d ∷ rest) h = ground arith

read_quoted_ident_step :
    (c : ℕ) (s : Str)
    → c ≢ b'"'
    → read_quoted_ident (c ∷ s) ≡ (c ∷ (read_quoted_ident s).0, (read_quoted_ident s).1)
unfolding read_quoted_ident
read_quoted_ident_step c [] h = ground arith
read_quoted_ident_step c (d ∷ s) h = ground arith

read_quoted_ident_pair :
    (s : Str)
    → read_quoted_ident (b'"' ∷ b'"' ∷ s)
      ≡ (b'"' ∷ (read_quoted_ident s).0, (read_quoted_ident s).1)
unfolding read_quoted_ident
read_quoted_ident_pair s = refl

read_quoted_ident-doubled :
    (t rest : Str)
    → has_at rest b'"' ≡ false
    → read_quoted_ident (doubled b'"' t ++ (b'"' ∷ rest)) ≡ (t, rest)
read_quoted_ident-doubled [] rest h = read_quoted_ident_end rest h
read_quoted_ident-doubled (c ∷ t) rest h = elim (Bool-cases (c == b'"')) [
  | inl e ↦
      rw (e, read_quoted_ident_pair, read_quoted_ident-doubled t rest h, (==_iff c b'"').0 e) refl
  | inr e ↦
      rw
        (
          e,
          read_quoted_ident_step c _ (λ p. cc (e, (==_iff c b'"').1 p)),
          read_quoted_ident-doubled t rest h,
        )
        refl
]

module _ ⦃u : Unicode⦄ where
  -- A string literal with its quotes doubled is one token whose content is the original text, so
  -- nothing inside it is read as an identifier or an operator. The text after it may not go on with
  -- a quote, and the literal has no E prefix.
  pub step-doubled :
      (sql t rest : Str) (i : ℕ)
      → has_at rest b'\'' ≡ false
      → is_escape_prefixed sql i ≡ false
      → step sql i b'\'' (doubled b'\'' t ++ (b'\'' ∷ rest)) ≡ (Token.string t ∷ [], rest)
  unfolding step
  step-doubled sql t rest i h e = rw (e, read_string-doubled t rest h) refl

  -- A quoted identifier with its quotes doubled is one identifier, with the original text, case and
  -- spaces included. The text after it may not go on with a quote.
  pub step-doubled_quoted :
      (sql t rest : Str) (i : ℕ)
      → has_at rest b'"' ≡ false
      → step sql i b'"' (doubled b'"' t ++ (b'"' ∷ rest)) ≡ (Token.ident t ∷ [], rest)
  unfolding step
  step-doubled_quoted sql t rest i h = rw (read_quoted_ident-doubled t rest h) refl
