-- ===== src/Sqlprobe/Token/Progress.antt =====
-- internal/sqlprobe/token.go: what each round of tokenize leaves.
use pgfathom.Sqlprobe.Token.{tokenize, tokens, Token, is_escape_prefixed, dollar, step}
use pgfathom.Base.{
  ℕ, zero, suc, ◌-◌, ◌≤◌, ◌<◌, ◌≡◌, refl, ap, inl, inr, Bool, true, ◌||◌, Option, none, some, List,
  [], ◌∷◌, ◌++◌, arith, text_eq, length, drop, length-drop, ◌==◌, Bool-cases, Unicode, Str, codes,
  has_prefix,
}
use pgfathom.Sqlprobe.Scan.{
  is_operator_char, or_end, is_ident_part, dollar_tag, behind_tag, skip_dollar_quoted, drop_while,
  skip_line_comment, skip_block_comment, read_string, read_quoted_ident, after_first,
}

length-drop_while : (p : ℕ → Bool) (s : Str) → length (drop_while p s) ≤ length s
length-drop_while p [] = omega arith
length-drop_while p (c ∷ s) = ground (arith, length-drop_while p s)

length-skip_line_comment : (s : Str) → length (skip_line_comment s) ≤ length s
unfolding skip_line_comment
length-skip_line_comment s = length-drop_while _ s

length-skip_block_comment : (d : ℕ) (s : Str) → length (skip_block_comment d s) ≤ length s
unfolding skip_block_comment
length-skip_block_comment zero s = omega arith
length-skip_block_comment (suc d) [] = omega arith
length-skip_block_comment (suc d) (a ∷ []) = omega arith
length-skip_block_comment (suc d) (a ∷ b ∷ s) = ground (
  arith,
  length-skip_block_comment (suc (suc d)) s,
  length-skip_block_comment d s,
  length-skip_block_comment (suc d) (b ∷ s),
)

length-read_string : (esc : Bool) (s : Str) → length (read_string esc s).1 ≤ length s
unfolding read_string
length-read_string esc [] = omega arith
length-read_string esc (c ∷ []) = ground arith
length-read_string esc (c ∷ d ∷ s) =
    ground (arith, length-read_string esc s, length-read_string esc (d ∷ s))

length-read_quoted_ident : (s : Str) → length (read_quoted_ident s).1 ≤ length s
unfolding read_quoted_ident
length-read_quoted_ident [] = omega arith
length-read_quoted_ident (c ∷ []) = ground arith
length-read_quoted_ident (c ∷ d ∷ s) =
    ground (arith, length-read_quoted_ident s, length-read_quoted_ident (d ∷ s))

-- What is left, if there is something, is no longer than the text.
abbrev NoLonger : Str → Option Str → Type 0
NoLonger s none = Unit
NoLonger s (some rest) = length rest ≤ length s

after_first-NoLonger : (delim s : Str) → NoLonger s (after_first delim s)
after_first-NoLonger delim [] = elim (Bool-cases (has_prefix [] delim)) [
  | inl e ↦ rw e (omega arith)
  | inr e ↦ rw e tt
]
after_first-NoLonger delim (c ∷ s) = elim (Bool-cases (has_prefix (c ∷ s) delim)) [
  | inl e ↦ rw e (omega (arith, length-drop (length delim) (c ∷ s)))
  | inr e ↦ rw e (weaken (after_first delim s) (after_first-NoLonger delim s))
]
  where
    weaken : (o : Option Str) → NoLonger s o → NoLonger (c ∷ s) o
    weaken none h = tt
    weaken (some rest) h = omega arith

behind_tag-NoLonger : (tag s : Str) → NoLonger s (behind_tag tag s)
unfolding behind_tag
behind_tag-NoLonger tag [] = tt
behind_tag-NoLonger tag (c ∷ s) = elim (Bool-cases (c == b'$')) [
  | inl e ↦ rw e (
      closed (after_first (b'$' ∷ tag ++ codes "$") s)
        (after_first-NoLonger (b'$' ∷ tag ++ codes "$") s))
  | inr e ↦ rw e tt
]
  where
    closed : (o : Option Str) → NoLonger s o → length (or_end o) ≤ suc (length s)
    closed none h = unfold or_end in omega arith
    closed (some rest) h = unfold or_end in omega arith

skip_dollar_quoted-NoLonger : (s : Str) → NoLonger s (skip_dollar_quoted s)
unfolding skip_dollar_quoted
skip_dollar_quoted-NoLonger s =
    weaken (behind_tag (dollar_tag s) (drop (length (dollar_tag s)) s))
      (behind_tag-NoLonger (dollar_tag s) (drop (length (dollar_tag s)) s))
  where
    weaken : (o : Option Str) → NoLonger (drop (length (dollar_tag s)) s) o → NoLonger s o
    weaken none h = tt
    weaken (some rest) h = omega (arith, length-drop (length (dollar_tag s)) s)

length-dollar : (s : Str) (o : Option Str) → NoLonger s o → length (dollar s o).1 ≤ length s
unfolding dollar
length-dollar s none h = omega arith
length-dollar s (some rest) h = h

length-drop_while_cons :
    (p : ℕ → Bool) (c : ℕ) (s : Str) → p c ≡ true → length (drop_while p (c ∷ s)) ≤ length s
length-drop_while_cons p c s h = ground (arith, length-drop_while p s)

module _ ⦃u : Unicode⦄ where
  -- A round leaves no more than what stands behind its first byte.
  pub length-step : (sql : Str) (i c : ℕ) (s : Str) → length (step sql i c s).1 ≤ length s
  unfolding step is_ident_part
  length-step sql i c s = ground (
    arith,
    length-drop 1 s,
    length-skip_line_comment (drop 1 s),
    length-skip_block_comment 1 (drop 1 s),
    length-read_string (is_escape_prefixed sql i) s,
    length-dollar s (skip_dollar_quoted s) (skip_dollar_quoted-NoLonger s),
    length-read_quoted_ident s,
    length-drop_while_cons is_ident_part c s,
    length-drop_while_cons (λ d. is_ident_part d || d == b'.') c s,
    length-drop_while_cons is_operator_char c s,
  )

  tokens_fuel :
      (f g : ℕ) (sql s : Str) → length s ≤ f → length s ≤ g → tokens f sql s ≡ tokens g sql s
  unfolding tokens
  tokens_fuel zero zero sql s h k = refl
  tokens_fuel zero (suc g) sql [] h k = refl
  tokens_fuel zero (suc g) sql (c ∷ s) h k = absurd (omega arith)
  tokens_fuel (suc f) zero sql [] h k = refl
  tokens_fuel (suc f) zero sql (c ∷ s) h k = absurd (omega arith)
  tokens_fuel (suc f) (suc g) sql [] h k = refl
  tokens_fuel (suc f) (suc g) sql (c ∷ s) h k =
      let i = length sql - length (c ∷ s) in
      ap (λ (rest : List Token). (step sql i c s).0 ++ rest)
        (tokens_fuel f g sql (step sql i c s).1 (omega (arith, length-step sql i c s))
          (omega (arith, length-step sql i c s)))

  -- The tokens from a position on, as the loop gives them there with all the fuel of the text.
  abbrev pub tokens_from : Str → Str → List Token
  tokens_from sql s = tokens (length s) sql s

  -- The loop ends for every text: its tokens are those of one round, followed by those of what that
  -- round leaves, which is shorter. So no fuel beyond the length of the text is ever needed.
  pub tokens_from_lem :
      (sql : Str) (c : ℕ) (s : Str)
      → let i = length sql - length (c ∷ s) in
        (length (step sql i c s).1 < length (c ∷ s))
        × (tokens_from sql (c ∷ s) ≡ (step sql i c s).0 ++ tokens_from sql (step sql i c s).1)
        × (tokenize sql ≡ tokens_from sql sql)
  tokens_from_lem sql c s =
      let i = length sql - length (c ∷ s) in
      (
        omega (arith, length-step sql i c s),
        unfold tokens in
            ap (λ (rest : List Token). (step sql i c s).0 ++ rest)
              (tokens_fuel (length s) (length (step sql i c s).1) sql (step sql i c s).1
                (length-step sql i c s) (omega arith)),
        unfold tokenize in refl,
      )
