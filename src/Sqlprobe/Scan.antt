-- ===== src/Sqlprobe/Scan.antt =====
-- internal/sqlprobe/token.go, the scanners. Where the source keeps an index into the text, these
-- functions take the text from that index on and give back what is left of it.
use pgfathom.Base.{
  ℕ, zero, suc, Bool, false, not, ◌&&◌, ◌||◌, Option, none, some, [], ◌∷◌, ◌++◌, text_eq, length,
  drop, any, leb, ◌==◌, if◌then◌else◌, Str, codes, has_prefix,
}

unfoldable pub is_ident_start : ℕ → Bool
is_ident_start c =
    c == b'_' || ((leb b'a' c && leb c b'z') || ((leb b'A' c && leb c b'Z') || leb 0x80 c))

unfoldable pub is_digit : ℕ → Bool
is_digit c = leb b'0' c && leb c b'9'

unfoldable pub is_ident_part : ℕ → Bool
unfolding is_ident_start is_digit
is_ident_part c = is_ident_start c || is_digit c

unfoldable pub is_operator_char : ℕ → Bool
is_operator_char c = any (λ o. o == c) (codes "=<>!~+-*/%^&|@#?:")

-- hasAt(s, i, c), for the text from i on
abbrev pub has_at : Str → ℕ → Bool
has_at [] c = false
has_at (d ∷ s) c = d == c

-- `for i < len(s) && p(s[i]) { i++ }`: what is passed over, and what is left
abbrev pub take_while : (ℕ → Bool) → Str → Str
take_while p [] = []
take_while p (c ∷ s) = let rest = take_while p s in if p c then c ∷ rest else []

abbrev pub drop_while : (ℕ → Bool) → Str → Str
drop_while p [] = []
drop_while p (c ∷ s) = let rest = drop_while p s in if p c then rest else c ∷ s

unfoldable pub skip_line_comment : Str → Str
skip_line_comment s = drop_while (λ c. not (c == b'\n')) s

-- the loop of skipBlockComment, with its depth
unfoldable pub skip_block_comment : ℕ → Str → Str
skip_block_comment zero s = s
skip_block_comment (suc d) [] = []
skip_block_comment (suc d) (a ∷ []) = []
skip_block_comment (suc d) (a ∷ b ∷ s) =
    let opened = skip_block_comment (suc (suc d)) s in
    let closed = skip_block_comment d s in
    let next = skip_block_comment (suc d) (b ∷ s) in
    if a == b'/' && b == b'*' then opened else if a == b'*' && b == b'/' then closed else next

-- what readString has written, with one byte more in front
abbrev pub prepend : ℕ → Str × Str → Str × Str
prepend c (text, rest) = (c ∷ text, rest)

-- The content and what is left. A backslash at the very end is dropped.
unfoldable pub read_string : Bool → Str → Str × Str
read_string esc [] = ([], [])
read_string esc (c ∷ []) =
    if esc && c == b'\\' then ([], []) else if c == b'\'' then ([], []) else (c ∷ [], [])
read_string esc (c ∷ d ∷ s) =
    let two = read_string esc s in
    let one = read_string esc (d ∷ s) in
    if esc && c == b'\\'
    then prepend d two
    else if c == b'\''
    then (if d == b'\'' then prepend b'\'' two else ([], d ∷ s))
    else prepend c one

unfoldable pub read_quoted_ident : Str → Str × Str
read_quoted_ident [] = ([], [])
read_quoted_ident (c ∷ []) = if c == b'"' then ([], []) else (c ∷ [], [])
read_quoted_ident (c ∷ d ∷ s) =
    let two = read_quoted_ident s in
    let one = read_quoted_ident (d ∷ s) in
    if c == b'"' then (if d == b'"' then prepend b'"' two else ([], d ∷ s)) else prepend c one

-- strings.Index for a delimiter, and what stands behind its first occurrence
abbrev pub after_first : Str → Str → Option Str
after_first delim [] = if has_prefix [] delim then some [] else none
after_first delim (c ∷ s) =
    let later = after_first delim s in
    if has_prefix (c ∷ s) delim then some (drop (length delim) (c ∷ s)) else later

-- the tag behind a dollar; a digit there means a parameter
unfoldable pub dollar_tag : Str → Str
dollar_tag [] = []
dollar_tag (c ∷ s) = if is_digit c then [] else take_while is_ident_part (c ∷ s)

-- an unterminated block is consumed to the end
unfoldable pub or_end : Option Str → Str
or_end none = []
or_end (some rest) = rest

unfoldable pub behind_tag : Str → Str → Option Str
behind_tag tag [] = none
behind_tag tag (c ∷ s) =
    if c == b'$' then some (or_end (after_first (b'$' ∷ tag ++ codes "$") s)) else none

-- skipDollarQuoted on the text behind the opening dollar; `none` if there is no dollar quote
unfoldable pub skip_dollar_quoted : Str → Option Str
unfolding dollar_tag behind_tag or_end is_ident_part
skip_dollar_quoted s = let tag = dollar_tag s in behind_tag tag (drop (length tag) s)
