-- ===== src/Sqlprobe/Token.antt =====
-- internal/sqlprobe/token.go, tokenize. The loop's index is the length of what was read, so the text
-- that is left stands for it. The fuel is the length of the text: a round reads a byte at least.
pub mod Progress
pub mod Literals
pub mod Comments
use pgfathom.Base.{
  ℕ, zero, suc, ◌-◌, Bool, true, false, not, ◌&&◌, ◌||◌, Option, none, some, List, [], ◌∷◌, ◌++◌,
  text_eq, length, get_elem?, drop, ◌==◌, if◌then◌else◌, Unicode, Str, codes, to_lower,
}
use pgfathom.Sqlprobe.Scan.{
  is_ident_start, is_digit, is_ident_part, is_operator_char, has_at, take_while, drop_while,
  skip_line_comment, skip_block_comment, read_string, read_quoted_ident, skip_dollar_quoted,
}

pub data Token : Type 0 where
  ident symbol other string : Str → Token

pub is_space : ℕ → Bool
is_space c = c == b' ' || (c == b'\t' || (c == b'\n' || c == b'\r'))

abbrev is_e : Option ℕ → Bool
is_e none = false
is_e (some c) = c == b'e' || c == b'E'

abbrev not_ident : Option ℕ → Bool
not_ident none = true
not_ident (some c) = not (is_ident_part c)

-- isEscapePrefixed at index i
unfoldable pub is_escape_prefixed : Str → ℕ → Bool
is_escape_prefixed sql zero = false
is_escape_prefixed sql (suc zero) = is_e (get_elem? sql 0)
is_escape_prefixed sql (suc (suc i)) = is_e (get_elem? sql (suc i)) && not_ident (get_elem? sql i)

abbrev with_text : (Str → Token) → Str × Str → List Token × Str
with_text make (text, rest) = (make text ∷ [], rest)

dollar : Str → Option Str → List Token × Str
dollar s none = (Token.other (codes "$") ∷ [], s)
dollar s (some rest) = ([], rest)

module _ ⦃u : Unicode⦄ where
  -- One round of the loop on a text that begins with `c`: what it emits, and what is left. `i` is
  -- the index of `c` in `sql`.
  unfoldable pub step : Str → ℕ → ℕ → Str → List Token × Str
  unfolding is_space dollar
  step sql i c s =
      if is_space c
      then ([], s)
      else if c == b'-' && has_at s b'-'
      then ([], skip_line_comment (drop 1 s))
      else if c == b'/' && has_at s b'*'
      then ([], skip_block_comment 1 (drop 1 s))
      else if c == b'\''
      then with_text Token.string (read_string (is_escape_prefixed sql i) s)
      else if c == b'$'
      then dollar s (skip_dollar_quoted s)
      else if c == b'"'
      then with_text Token.ident (read_quoted_ident s)
      else if is_ident_start c
      then (
        Token.ident (to_lower (take_while is_ident_part (c ∷ s))) ∷ [],
        drop_while is_ident_part (c ∷ s),
      )
      else if is_digit c
      then (
        Token.other (codes "number") ∷ [],
        drop_while (λ d. is_ident_part d || d == b'.') (c ∷ s),
      )
      else if is_operator_char c
      then (
        Token.symbol (take_while is_operator_char (c ∷ s)) ∷ [],
        drop_while is_operator_char (c ∷ s),
      )
      else (Token.symbol (c ∷ []) ∷ [], s)

  -- the loop, on fuel
  pub tokens : ℕ → Str → Str → List Token
  tokens zero sql s = []
  tokens (suc f) sql [] = []
  tokens (suc f) sql (c ∷ s) =
      let (out, rest) = step sql (length sql - length (c ∷ s)) c s in out ++ tokens f sql rest

  unfoldable pub tokenize : Str → List Token
  unfolding tokens
  tokenize sql = tokens (length sql) sql sql
