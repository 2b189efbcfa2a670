-- ===== src/Sqlprobe/Walk/Equality.antt =====
-- internal/sqlprobe/extract.go: references as they are written, and an equality between two of them.
use mathlib.Core.List.{reverse}
use pgfathom.Base.{◌≡◌, refl, false, some, List, [], ◌∷◌, ◌++◌, text_eq, Unicode, Str, codes}
use pgfathom.Sqlprobe.Token.{Token}
use pgfathom.Sqlprobe.Extract.{
  RawRef, Aliases, dot, next_is, starts_clause, read_parts, read_dotted_name, parts_before,
  ref_from_parts, ref_ending_at, ref_starting_at, resolve,
}
use pgfathom.Sqlprobe.Walk.{at_symbol, at_token}

-- The tokens that a reference is written with; a schema that is not named is left out.
abbrev qualified : Str → Str → List Token
qualified t c = Token.ident t ∷ Token.symbol (codes ".") ∷ Token.ident c ∷ []

abbrev written_in : Str → Str → Str → List Token
written_in [] t c = qualified t c
written_in (b ∷ s) t c = Token.ident (b ∷ s) ∷ Token.symbol (codes ".") ∷ qualified t c

abbrev pub written : RawRef → List Token
written r = written_in r.schema r.table r.column

read_last :
    (c : Str) (ts : List Token)
    → next_is dot ts ≡ false
    → (read_parts (Token.ident c ∷ ts)).0 ≡ c ∷ []
unfolding read_parts
read_last c [] h = refl
read_last c (t ∷ ts) h = rw h refl

parts_before_last :
    (w : Str) (ts : List Token) (parts : List Str)
    → next_is dot ts ≡ false
    → parts_before (Token.ident w ∷ ts) parts ≡ w ∷ parts
unfolding parts_before
parts_before_last w [] parts h = refl
parts_before_last w (t ∷ ts) parts h = rw h refl

ref_starting_at-written_in :
    (s t c : Str) (ts : List Token)
    → next_is starts_clause (written_in s t c) ≡ false
    → next_is dot ts ≡ false
    → ref_starting_at (written_in s t c ++ ts) ≡ some (record { schema = s; table = t; column = c })
unfolding read_dotted_name read_parts ref_from_parts
ref_starting_at-written_in [] t c ts k h = rw (k, read_last c ts h) refl
ref_starting_at-written_in (b ∷ s) t c ts k h = rw (k, read_last c ts h) refl

ref_ending_at-written_in :
    (s t c : Str) (before : List Token)
    → next_is dot before ≡ false
    → ref_ending_at (reverse (written_in s t c) ++ before)
      ≡ some (record { schema = s; table = t; column = c })
unfolding parts_before ref_from_parts reverse
ref_ending_at-written_in [] t c before h = rw (parts_before_last t before (c ∷ []) h) refl
ref_ending_at-written_in (b ∷ s) t c before h =
    rw (parts_before_last (b ∷ s) before (t ∷ c ∷ []) h) refl

module _ ⦃u : Unicode⦄ where
  -- An equality between two written references, neither of which goes on with a dot and the second of
  -- which does not begin with a word that ends a FROM item, is one join of the tables that the
  -- aliases give, and the walk goes on behind the sign.
  pub at_token-written :
      (l r : RawRef) (before ts : List Token) (aliases : Aliases)
      → next_is dot before ≡ false
      → next_is dot ts ≡ false
      → next_is starts_clause (written r) ≡ false
      → at_token
          (Token.symbol (codes "="))
          (reverse (written l) ++ before)
          (written r ++ ts)
          aliases
        ≡ record {
          joins = record { left = resolve l aliases; right = resolve r aliases } ∷ [];
          preds = [];
          rest = written r ++ ts;
          aliases = aliases;
        }
  unfolding at_token at_symbol
  at_token-written l r before ts aliases b h k =
      rw
        (
          ref_ending_at-written_in l.schema l.table l.column before b,
          ref_starting_at-written_in r.schema r.table r.column ts k h,
        )
        refl
