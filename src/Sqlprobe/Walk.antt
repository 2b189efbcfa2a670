-- ===== src/Sqlprobe/Walk.antt =====
-- internal/sqlprobe/extract.go, extract: one round for each token, and the walk over a statement.
pub mod Equality
pub mod Fuel
use mathlib.Core.List.{reverse}
use pgfathom.Base.{
  ℕ, zero, suc, ◌-◌, ◌*◌, not, ◌||◌, Option, none, some, List, [], ◌∷◌, ◌++◌, text_eq, length, take,
  drop, ltb, ◌==◌, if◌then◌else◌, Unicode, Str, codes, str_eq, has_prefix, has_suffix, trim_space,
}
use pgfathom.Sqlprobe.Token.{Token, tokenize}
use pgfathom.Sqlprobe.Extract.{
  RawRef, RawJoin, PredOp, RawPredicate, Aliases, one_of, comparison_operators,
  containment_operators, vector_distance_operators, ref_ending_at, ref_starting_at, collect_aliases,
  resolve,
}

-- what a round appends, and where it leaves the index and the aliases
pub record Walked : Type 0 where
  pub joins : List RawJoin
  pub preds : List RawPredicate
  pub rest : List Token
  pub aliases : Aliases

abbrev pub like_operator : List Token → PredOp
like_operator (Token.string s ∷ ts) =
    if has_prefix s (codes "%") then PredOp.like_infix else PredOp.like_prefix
like_operator ts = PredOp.like_prefix

abbrev nothing_found : List Token → Aliases → Walked
nothing_found ts aliases = record { joins = []; preds = []; rest = ts; aliases = aliases }

-- the tokens in front of these, the nearest first
abbrev pub in_front_of : List Token → List Token → List Token
in_front_of tokens ts = reverse (take (length tokens - length ts) tokens)

-- strings.Index of a dollar sign: what stands before it
abbrev before_dollar : Str → Option Str
before_dollar [] = none
before_dollar (c ∷ s) =
    let rest = before_dollar s in
    if c == b'$' then some [] else elim rest [ none ↦ none | some t ↦ some (c ∷ t) ]

-- with the text between the first two dollar signs, if there are two
pub unwrap_tagged : Str → Str → Option Str → Str
unwrap_tagged sql s none = sql
unwrap_tagged sql s (some tag) =
    let delim = b'$' ∷ tag ++ b'$' ∷ [] in
    if not (has_suffix s delim) || ltb (length s) (2 * length delim)
    then sql
    else take (length s - length delim - length delim) (drop (length delim) s)

module _ ⦃u : Unicode⦄ where
  abbrev predicate : PredOp → Option RawRef → List Token → Aliases → Walked
  predicate op none ts aliases = nothing_found ts aliases
  predicate op (some r) ts aliases = record (nothing_found ts aliases) {
    preds = record { reference = resolve r aliases; op = op } ∷ [];
  }

  abbrev equality : Option RawRef → Option RawRef → List Token → Aliases → Walked
  equality (some l) (some r) ts aliases = record (nothing_found ts aliases) {
    joins = record { left = resolve l aliases; right = resolve r aliases } ∷ [];
  }
  equality left none ts aliases = predicate PredOp.equality left ts aliases
  equality none (some r) ts aliases = nothing_found ts aliases

  -- One round at a token; `before` holds the tokens in front of it, the nearest first, and `ts`
  -- those behind it.
  unfoldable pub at_symbol : Str → List Token → List Token → Aliases → Walked
  at_symbol text before ts aliases =
      let left = ref_ending_at before in
      if str_eq text (codes ";")
      then nothing_found ts []
      else if str_eq text (codes "=")
      then equality left (ref_starting_at ts) ts aliases
      else if one_of comparison_operators text
      then predicate PredOp.range left ts aliases
      else if one_of containment_operators text
      then predicate PredOp.containment left ts aliases
      else if str_eq text (codes "@@")
      then predicate PredOp.full_text left ts aliases
      else if one_of vector_distance_operators text
      then predicate PredOp.vector_distance left ts aliases
      else nothing_found ts aliases

  unfoldable pub at_word : Str → List Token → List Token → Aliases → Walked
  at_word text before ts aliases =
      let (rest, out) = collect_aliases ts aliases in
      if str_eq text (codes "from") || str_eq text (codes "join")
      then nothing_found rest out
      else if str_eq text (codes "like") || str_eq text (codes "ilike")
      then predicate (like_operator ts) (ref_ending_at before) ts aliases
      else nothing_found ts aliases

  unfoldable pub at_token : Token → List Token → List Token → Aliases → Walked
  unfolding at_symbol at_word
  at_token (Token.symbol text) before ts aliases = at_symbol text before ts aliases
  at_token (Token.ident text) before ts aliases = at_word text before ts aliases
  at_token t before ts aliases = nothing_found ts aliases

  -- the loop of extract, on fuel, at the last of the tokens
  unfoldable pub walk : ℕ → List Token → List Token → Aliases → List RawJoin × List RawPredicate
  unfolding at_token
  walk zero tokens ts aliases = ([], [])
  walk (suc fuel) tokens [] aliases = ([], [])
  walk (suc fuel) tokens (t ∷ ts) aliases =
      let w = at_token t (in_front_of tokens (t ∷ ts)) ts aliases in
      let (joins, preds) = walk fuel tokens w.rest w.aliases in (w.joins ++ joins, w.preds ++ preds)

  unfoldable pub unwrap_dollar_body : Str → Str
  unfolding unwrap_tagged
  unwrap_dollar_body sql =
      let s = trim_space sql in
      if not (has_prefix s (codes "$")) then sql else unwrap_tagged sql s (before_dollar (drop 1 s))

  unfoldable pub extract : Str → List RawJoin × List RawPredicate
  unfolding walk unwrap_dollar_body
  extract sql =
      let tokens = tokenize (unwrap_dollar_body sql) in walk (length tokens) tokens tokens []
