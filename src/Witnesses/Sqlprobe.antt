-- ===== src/Witnesses/Sqlprobe.antt =====
-- The theorems on the tokenizer at concrete inputs.
use pgfathom.Base.{
  ◌-◌, ◌<◌, ◌≡◌, refl, true, false, [], ◌∷◌, ◌++◌, arith, text_eq, length, Str, codes,
}
use pgfathom.Sqlprobe.Scan.{has_at, take_while, is_operator_char}
use pgfathom.Sqlprobe.Token.{Token, step, tokenize, is_escape_prefixed}
use pgfathom.Sqlprobe.Token.Progress.{tokens_from, tokens_from_lem}
use pgfathom.Sqlprobe.Token.Comments.{
  IsComment, nothing, plain, nested, step-IsComment, step-hidden_comment,
}
use pgfathom.Sqlprobe.Token.Literals.{doubled, step-doubled}
use pgfathom.Witnesses.Fixed.{ascii}

abbrev query : Str
query = codes "select a -- b"

tokens_from_example :
    let i = length query - length query in
    (length (step query i b's' (codes "elect a -- b")).1 < length query)
    × (tokens_from query query
        ≡ (step query i b's' (codes "elect a -- b")).0
          ++ tokens_from query (step query i b's' (codes "elect a -- b")).1)
    × (tokenize query ≡ tokens_from query query)
tokens_from_example = tokens_from_lem query b's' (codes "elect a -- b")

-- x/*y*/ a / b *
abbrev nested_body : Str
nested_body = b'x' ∷ (b'/' ∷ b'*' ∷ ((b'y' ∷ []) ++ (b'*' ∷ b'/' ∷ codes " a / b *")))

tail_of_body-IsComment : IsComment (codes " a / b *")
tail_of_body-IsComment = plain b' ' _ refl (
    plain b'a' _ refl (
      plain b' ' _ refl (
        plain b'/' _ refl
          (plain b' ' _ refl (plain b'b' _ refl (plain b' ' _ refl (plain b'*' _ refl nothing)))))))

nested_body-IsComment : IsComment nested_body
nested_body-IsComment =
    plain b'x' (b'/' ∷ b'*' ∷ ((b'y' ∷ []) ++ (b'*' ∷ b'/' ∷ codes " a / b *"))) refl
      (nested (b'y' ∷ []) (codes " a / b *") (plain b'y' [] refl nothing) tail_of_body-IsComment)

comment_example :
    step
      (codes "/*x/*y*/ a / b **/ join")
      0
      b'/'
      (b'*' ∷ (nested_body ++ (b'*' ∷ b'/' ∷ codes " join")))
    ≡ ([], codes " join")
comment_example =
    step-IsComment (codes "/*x/*y*/ a / b **/ join") 0 (codes " join") nested_body-IsComment

abbrev quoted : Str
quoted = codes "it's join"

no_more : has_at (codes " on") b'\'' ≡ false
no_more = refl

no_escape : is_escape_prefixed (codes "'") 0 ≡ false
unfolding is_escape_prefixed
no_escape = refl

step-doubled_example :
    step (codes "'") 0 b'\'' (doubled b'\'' quoted ++ (b'\'' ∷ codes " on"))
    ≡ (Token.string quoted ∷ [], codes " on")
step-doubled_example = step-doubled (codes "'") quoted (codes " on") 0 no_more no_escape

equals_is_operator : is_operator_char b'=' ≡ true
unfolding is_operator_char
equals_is_operator = refl

hidden_comment_example :
    (step (codes "=-- x") 0 b'=' (b'-' ∷ b'-' ∷ codes " x")).0
    ≡ Token.symbol (b'=' ∷ b'-' ∷ b'-' ∷ take_while is_operator_char (codes " x")) ∷ []
hidden_comment_example =
    step-hidden_comment (codes "=-- x") 0 b'=' (codes " x") equals_is_operator (omega arith)
