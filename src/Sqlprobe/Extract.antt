-- ===== src/Sqlprobe/Extract.antt =====
-- internal/sqlprobe/extract.go. An index into the tokens is modelled by the tokens from there on; what
-- stands before it is read backwards from there. The loops that jump are on fuel.
pub mod Fuel
use pgfathom.Base.{
  ℕ, zero, suc, ◌+◌, ◌-◌, Bool, true, false, not, ◌||◌, Option, none, some, List, [], ◌∷◌, text_eq,
  Dict, lookup, put, length, drop, any, ◌==◌, if◌then◌else◌, is_some, Unicode, Str, codes, str_eq,
  to_lower,
}
use pgfathom.Sqlprobe.Token.{Token}

pub record RawRef : Type 0 where
  pub schema : Str
  pub table : Str
  pub column : Str

pub record RawJoin : Type 0 where
  pub left : RawRef
  pub right : RawRef

pub data PredOp : Type 0 where
  equality range like_prefix like_infix containment full_text vector_distance : PredOp

pub record RawPredicate : Type 0 where
  pub reference : RawRef
  pub op : PredOp

abbrev pub Aliases : Type 0
Aliases = Dict Str RawRef

abbrev pub one_of : List Str → Str → Bool
one_of words w = any (λ v. str_eq v w) words

abbrev pub comparison_operators : List Str
comparison_operators =
    codes "<" ∷ codes ">" ∷ codes "<=" ∷ codes ">=" ∷ codes "<>" ∷ codes "!=" ∷ []

abbrev pub containment_operators : List Str
containment_operators = codes "@>" ∷ codes "<@" ∷ codes "?" ∷ codes "?|" ∷ codes "?&" ∷ []

abbrev pub vector_distance_operators : List Str
vector_distance_operators = codes "<->" ∷ codes "<=>" ∷ codes "<#>" ∷ []

abbrev pub clause_stoppers : List Str
clause_stoppers =
    codes "on"
    ∷ codes "using"
    ∷ codes "where"
    ∷ codes "group"
    ∷ codes "order"
    ∷ codes "limit"
    ∷ codes "offset"
    ∷ codes "having"
    ∷ codes "union"
    ∷ codes "intersect"
    ∷ codes "except"
    ∷ codes "returning"
    ∷ codes "join"
    ∷ codes "inner"
    ∷ codes "left"
    ∷ codes "right"
    ∷ codes "full"
    ∷ codes "cross"
    ∷ codes "outer"
    ∷ codes "natural"
    ∷ codes "lateral"
    ∷ codes "as"
    ∷ codes "into"
    ∷ codes "for"
    ∷ codes "window"
    ∷ codes "tablesample"
    ∷ codes "set"
    ∷ codes "values"
    ∷ codes "select"
    ∷ codes "from"
    ∷ []

unfoldable pub is_stopper : Str → Bool
is_stopper w = one_of clause_stoppers w

abbrev pub is_symbol : Str → Token → Bool
is_symbol text (Token.symbol w) = str_eq w text
is_symbol text t = false

abbrev pub is_word : Str → Token → Bool
is_word text (Token.ident w) = str_eq w text
is_word text t = false

-- whether there is a token and it passes
abbrev pub next_is : (Token → Bool) → List Token → Bool
next_is p [] = false
next_is p (t ∷ ts) = p t

abbrev pub dot : Token → Bool
dot t = is_symbol (codes ".") t

-- the rounds of readDottedName in which a part may be a stopper: all but the first
unfoldable pub read_parts : List Token → List Str × List Token
read_parts [] = ([], [])
read_parts (Token.ident w ∷ []) = (w ∷ [], [])
read_parts (Token.ident w ∷ t ∷ ts) =
    let (parts, rest) = read_parts ts in if dot t then (w ∷ parts, rest) else (w ∷ [], t ∷ ts)
read_parts (t ∷ ts) = ([], t ∷ ts)

abbrev pub starts_clause : Token → Bool
starts_clause (Token.ident w) = is_stopper w
starts_clause t = false

unfoldable pub read_dotted_name : List Token → List Str × List Token
unfolding read_parts
read_dotted_name ts = if next_is starts_clause ts then ([], ts) else read_parts ts

-- the loop of refEndingAt over the tokens before, the nearest first
unfoldable pub parts_before : List Token → List Str → List Str
parts_before [] parts = parts
parts_before (Token.ident w ∷ []) parts = w ∷ parts
parts_before (Token.ident w ∷ t ∷ ts) parts =
    let more = parts_before ts (w ∷ parts) in if dot t then more else w ∷ parts
parts_before (t ∷ ts) parts = parts

unfoldable pub ref_from_parts : List Str → Option RawRef
ref_from_parts (t ∷ c ∷ []) = some (record { schema = []; table = t; column = c })
ref_from_parts (s ∷ t ∷ c ∷ []) = some (record { schema = s; table = t; column = c })
ref_from_parts parts = none

abbrev pub ref_ending_at : List Token → Option RawRef
ref_ending_at before = ref_from_parts (parts_before before [])

abbrev pub ref_starting_at : List Token → Option RawRef
ref_starting_at ts = ref_from_parts (read_dotted_name ts).0

-- the last two parts, or the only one
pub raw_table : List Str → RawRef
raw_table [] = record { schema = []; table = []; column = [] }
raw_table (t ∷ []) = record { schema = []; table = t; column = [] }
raw_table (s ∷ t ∷ []) = record { schema = s; table = t; column = [] }
raw_table (p ∷ s ∷ t ∷ parts) = raw_table (s ∷ t ∷ parts)

abbrev pub skip_as : List Token → List Token
skip_as [] = []
skip_as (t ∷ ts) = if is_word (codes "as") t then ts else t ∷ ts

unfoldable pub alias_name : List Token → Str × List Token
alias_name (Token.ident w ∷ ts) = if is_stopper w then ([], Token.ident w ∷ ts) else (w, ts)
alias_name ts = ([], ts)

unfoldable pub read_alias : List Token → Str × List Token
unfolding alias_name
read_alias ts = alias_name (skip_as ts)

abbrev pub opens_query : Token → Bool
opens_query t =
    is_word (codes "select") t || (is_word (codes "values") t || is_word (codes "with") t)

-- from the parenthesis that opens, at depth 0
unfoldable pub skip_parens : ℕ → List Token → List Token
skip_parens depth [] = []
skip_parens depth (t ∷ ts) =
    let deeper = skip_parens (depth + 1) ts in
    let level = skip_parens depth ts in
    let back = skip_parens (depth - 1) ts in
    if is_symbol (codes "(") t
    then deeper
    else if not (is_symbol (codes ")") t)
    then level
    else if depth == 1
    then ts
    else back

-- what one round of collectAliases does: it ends, goes into a parenthesis, or reads an item
pub data Round : Type 0 where
  ended : Round
  opened : List Token → Round
  item : List Token → Aliases → Round

module _ ⦃u : Unicode⦄ where
  abbrev pub named : Str → RawRef → Aliases → Aliases
  named name r aliases = if not (str_eq name []) then put (to_lower name) r aliases else aliases

  -- The bare name refers to itself where nothing has taken it.
  unfoldable pub name_table : Str → RawRef → Aliases → Aliases
  name_table name r aliases =
      let out = named name r aliases in
      if is_some (lookup (to_lower r.table) out) then out else put (to_lower r.table) r out

  pub read_table : List Str → List Token → Aliases → Round
  unfolding read_alias raw_table
  read_table [] ts aliases = ended
  read_table (p ∷ parts) ts aliases =
      let (name, rest) = read_alias ts in
      item rest (name_table name (raw_table (p ∷ parts)) aliases)

  unfoldable pub collect_round : List Token → Aliases → Round
  unfolding read_table skip_parens read_dotted_name
  collect_round ts aliases =
      let (parts, rest) = read_dotted_name ts in
      if not (next_is (λ t. is_symbol (codes "(") t) ts)
      then read_table parts rest aliases
      else if next_is opens_query (drop 1 ts)
      then item (read_alias (skip_parens 0 ts)).1 aliases
      else opened (drop 1 ts)

  -- the loop of collectAliases: where to go on, and the aliases
  unfoldable pub collect : ℕ → List Token → Aliases → List Token × Aliases
  unfolding collect_round
  collect zero ts aliases = (ts, aliases)
  collect (suc fuel) ts aliases = elim (collect_round ts aliases) [
    | ended ↦ (ts, aliases)
    | opened rest ↦ collect fuel rest aliases
    | item rest out ↦ elim (next_is (λ t. is_symbol (codes ",") t) rest) [
      | true ↦ collect fuel (drop 1 rest) out
      | false ↦ (rest, out)
    ]
  ]

  unfoldable pub collect_aliases : List Token → Aliases → List Token × Aliases
  unfolding collect
  collect_aliases ts aliases = collect (suc (length ts)) ts aliases

  abbrev pub aliased : Option RawRef → RawRef → RawRef
  aliased none r = r
  aliased (some t) r = record { schema = t.schema; table = t.table; column = r.column }

  unfoldable pub resolve : RawRef → Aliases → RawRef
  resolve r aliases =
      if not (str_eq r.schema []) then r else aliased (lookup (to_lower r.table) aliases) r
