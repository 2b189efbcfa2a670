-- ===== src/Sqlprobe/Token/Comments.antt =====
-- internal/sqlprobe/token.go: comments, and operators beside them.
use pgfathom.Base.{
  ℕ, suc, ◌≡◌, refl, ap, ◌∙◌, ◌≢◌, Bool, true, false, ◌&&◌, ◌||◌, List, [], ◌∷◌, ◌++◌, append_assoc,
  arith, text_eq, ◌==◌, Unicode, Str,
}
use pgfathom.Sqlprobe.Scan.{
  skip_block_comment, is_operator_char, take_while, is_ident_start, is_digit,
}
use pgfathom.Sqlprobe.Token.{is_space, Token, step}

-- The byte opens or closes a comment with what follows it inside the comment, or with the star of the
-- close, which follows the last byte.
abbrev pub breaks : ℕ → Str → Bool
breaks c [] = c == b'/'
breaks c (b ∷ s) = (c == b'/') && (b == b'*') || (c == b'*') && (b == b'/')

-- The text inside a block comment: comments, and bytes that open and close nothing.
pub data IsComment : Str → Type 0 where
  nothing : IsComment []
  plain : (c : ℕ) (s : Str) → breaks c s ≡ false → IsComment s → IsComment (c ∷ s)
  nested :
      (inner s : Str)
      → IsComment inner
      → IsComment s
      → IsComment (b'/' ∷ b'*' ∷ (inner ++ (b'*' ∷ b'/' ∷ s)))

skip_plain :
    (d c : ℕ) (s rest : Str)
    → breaks c s ≡ false
    → skip_block_comment (suc d) (c ∷ (s ++ (b'*' ∷ rest)))
      ≡ skip_block_comment (suc d) (s ++ (b'*' ∷ rest))
unfolding skip_block_comment
skip_plain d c [] rest h = ground arith
skip_plain d c (b ∷ s) rest h = ground arith

skip_open :
    (d : ℕ) (s : Str)
    → skip_block_comment (suc d) (b'/' ∷ b'*' ∷ s) ≡ skip_block_comment (suc (suc d)) s
unfolding skip_block_comment
skip_open d s = refl

skip_close :
    (d : ℕ) (s : Str) → skip_block_comment (suc d) (b'*' ∷ b'/' ∷ s) ≡ skip_block_comment d s
unfolding skip_block_comment
skip_close d s = refl

skip_zero : (s : Str) → skip_block_comment 0 s ≡ s
unfolding skip_block_comment
skip_zero s = refl

-- up to a star, the first byte of a close
skip-IsComment :
    {body : Str} (d : ℕ) (rest : Str)
    → IsComment body
    → skip_block_comment (suc d) (body ++ (b'*' ∷ rest)) ≡ skip_block_comment (suc d) (b'*' ∷ rest)
skip-IsComment d rest nothing = refl
skip-IsComment d rest (plain c s h more) = skip_plain d c s rest h ∙ skip-IsComment d rest more
skip-IsComment d rest (nested inner s i more) =
    skip_open d _
    ∙ (ap (skip_block_comment (suc (suc d))) (append_assoc inner _ (b'*' ∷ rest))
        ∙ (skip-IsComment (suc d) (b'/' ∷ (s ++ (b'*' ∷ rest))) i
            ∙ (skip_close (suc d) (s ++ (b'*' ∷ rest)) ∙ skip-IsComment d rest more)))

-- A byte that only the operators' branch of the loop takes, but for the two comments.
record IsOperatorOnly (c : ℕ) : Type 0 where
  no_space : is_space c ≡ false
  no_quote : (c == b'\'') ≡ false
  no_dollar : (c == b'$') ≡ false
  no_double_quote : (c == b'"') ≡ false
  no_ident : is_ident_start c ≡ false
  no_digit : is_digit c ≡ false

operator-IsOperatorOnly : (c : ℕ) → is_operator_char c ≡ true → IsOperatorOnly c
unfolding is_operator_char is_ident_start is_digit is_space
operator-IsOperatorOnly c h = record {
  no_space = ground arith;
  no_quote = ground arith;
  no_dollar = ground arith;
  no_double_quote = ground arith;
  no_ident = ground arith;
  no_digit = ground arith;
}

takes :
    (c : ℕ) (s : Str)
    → is_operator_char c ≡ true
    → take_while is_operator_char (c ∷ b'-' ∷ b'-' ∷ s)
      ≡ c ∷ b'-' ∷ b'-' ∷ take_while is_operator_char s
takes c s h = rw (h, dash) refl
  where
    dash : is_operator_char b'-' ≡ true
    dash = unfold is_operator_char in refl

module _ ⦃u : Unicode⦄ where
  -- A block comment whose text nests properly emits no token and ends at its own close, with the
  -- comments inside it.
  pub step-IsComment :
      (sql : Str) (i : ℕ) {body : Str} (rest : Str)
      → IsComment body
      → step sql i b'/' (b'*' ∷ (body ++ (b'*' ∷ b'/' ∷ rest))) ≡ ([], rest)
  step-IsComment sql i {body} rest h =
      opened sql i (body ++ (b'*' ∷ b'/' ∷ rest))
      ∙ ap (λ (s : Str). let e : List Token = [] in (e, s))
          (skip-IsComment 0 (b'/' ∷ rest) h ∙ (skip_close 0 rest ∙ skip_zero rest))
    where
      opened :
          (sql : Str) (i : ℕ) (s : Str) → step sql i b'/' (b'*' ∷ s) ≡ ([], skip_block_comment 1 s)
      opened sql i s = unfold step in refl

  operator_step :
      (sql : Str) (i c : ℕ) (s : Str)
      → is_operator_char c ≡ true
      → IsOperatorOnly c
      → (c == b'-') ≡ false
      → (step sql i c (b'-' ∷ b'-' ∷ s)).0
        ≡ Token.symbol (take_while is_operator_char (c ∷ b'-' ∷ b'-' ∷ s)) ∷ []
  unfolding step
  operator_step sql i c s h o ne = ground arith

  -- An operator byte other than the minus, directly before a line comment, takes the comment's two
  -- dashes into its own token, so that the comment's text is not skipped.
  pub step-hidden_comment :
      (sql : Str) (i c : ℕ) (s : Str)
      → is_operator_char c ≡ true
      → c ≢ b'-'
      → (step sql i c (b'-' ∷ b'-' ∷ s)).0
        ≡ Token.symbol (c ∷ b'-' ∷ b'-' ∷ take_while is_operator_char s) ∷ []
  step-hidden_comment sql i c s h ne =
      operator_step sql i c s h (operator-IsOperatorOnly c h) (ground arith)
      ∙ ap (λ (t : Str). Token.symbol t ∷ []) (takes c s h)
