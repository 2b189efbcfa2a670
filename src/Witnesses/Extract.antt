-- ===== src/Witnesses/Extract.antt =====
-- The theorems on the extraction of joins at concrete inputs.
use mathlib.Core.List.{reverse}
use pgfathom.Base.{◌≡◌, refl, false, List, [], ◌∷◌, ◌++◌, arith, text_eq, All, IsSorted, codes}
use pgfathom.Model.Evidence.{JoinSource}
use pgfathom.Sqlprobe.Token.{Token}
use pgfathom.Sqlprobe.Extract.{RawRef, Aliases, next_is, starts_clause, is_stopper, resolve}
use pgfathom.Sqlprobe.Walk.{at_token, walk}
use pgfathom.Sqlprobe.Walk.Fuel.{Walks, walk-Walks}
use pgfathom.Sqlprobe.Walk.Equality.{written, at_token-written}
use pgfathom.Sqlprobe.Resolve.{SourcedJoin, join_less, resolve_ref, resolve_against_catalog}
use pgfathom.Sqlprobe.Resolve.Matching.{only, matching, resolve_ref-matching}
use pgfathom.Sqlprobe.Resolve.Real.{IsRealJoin, resolve_against_catalog-IsRealJoin}
use pgfathom.Witnesses.Fixed.{ascii}
use pgfathom.Witnesses.Generate.{shop}

-- orders o where
abbrev after_from : List Token
after_from =
    Token.ident (codes "orders") ∷ Token.ident (codes "o") ∷ Token.ident (codes "where") ∷ []

abbrev statement : List Token
statement = Token.ident (codes "from") ∷ after_from

walk_example : Walks statement statement [] (walk 9 statement statement [])
walk_example = walk-Walks 9 statement statement [] (omega arith)

abbrev child : RawRef
child = record { schema = []; table = codes "o"; column = codes "customer_id" }

abbrev parent : RawRef
parent = record { schema = codes "public"; table = codes "customers"; column = codes "id" }

abbrev aliases : Aliases
aliases = (codes "o", record { schema = []; table = codes "orders"; column = [] }) ∷ []

public_goes_on : next_is starts_clause (written parent) ≡ false
unfolding is_stopper
public_goes_on = refl

written_example :
    at_token
      (Token.symbol (codes "="))
      (reverse (written child) ++ Token.ident (codes "on") ∷ [])
      (written parent ++ [])
      aliases
    ≡ record {
      joins = record { left = resolve child aliases; right = resolve parent aliases } ∷ [];
      preds = [];
      rest = written parent ++ [];
      aliases = aliases;
    }
written_example =
    at_token-written child parent (Token.ident (codes "on") ∷ []) [] aliases refl refl
      public_goes_on

matching_example : resolve_ref parent shop ≡ only (matching parent shop)
matching_example = resolve_ref-matching parent shop

abbrev viewed : SourcedJoin
viewed = record {
  join = record { left = record child { table = codes "orders" }; right = parent };
  source = JoinSource.view;
  object = codes "public.order_list";
}

real_example :
    All (IsRealJoin shop) (resolve_against_catalog (viewed ∷ []) shop)
    × IsSorted join_less (resolve_against_catalog (viewed ∷ []) shop)
real_example = resolve_against_catalog-IsRealJoin shop (viewed ∷ [])
