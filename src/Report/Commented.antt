-- ===== src/Report/Commented.antt =====
-- internal/report/sql.go: the files of suggestions, read line by line.
pub mod Pieces
pub mod Blocks
pub mod Files
use pgfathom.Base.{
  ℕ, zero, suc, ◌-◌, ◌≡◌, refl, inl, inr, Bool, false, List, [], ◌∷◌, ◌++◌, append_assoc, arith,
  text_eq, length, take, any, any-append, All, leb, ◌==◌, Bool-cases, Unicode, Str, codes, to_lower,
}
use pgfathom.Model.Refs.{join}
use pgfathom.Report.Names.{cut_valid, truncate_ident}
use pgfathom.Report.Lines.{words, comments}

-- The text has no line break.
abbrev pub Plain : Str → Type 0
Plain s = any (λ c. c == b'\n') s ≡ false

-- Every line of the text is empty or begins with two dashes.
pub data IsCommented : Str → Type 0 where
  nothing : IsCommented []
  empty_line : (rest : Str) → IsCommented rest → IsCommented (b'\n' ∷ rest)
  comment_line :
      (body rest : Str)
      → Plain body
      → IsCommented rest
      → IsCommented (b'-' ∷ b'-' ∷ (body ++ b'\n' ∷ rest))

pub Plain-append : (s t : Str) → Plain s → Plain t → Plain (s ++ t)
Plain-append s t h k = rw (any-append (λ c. c == b'\n') s t, h, k) refl

Plain-words : (ss : List Str) → All Plain ss → Plain (words ss)
unfolding words
Plain-words [] h = refl
Plain-words (s ∷ ss) (p, h) = Plain-append s (words ss) p (Plain-words ss h)

pub comments-IsCommented : (ls : List (List Str)) → All (All Plain) ls → IsCommented (comments ls)
unfolding comments
comments-IsCommented [] h = nothing
comments-IsCommented (l ∷ ls) (p, h) =
    comment_line (words l) (comments ls) (Plain-words l p) (comments-IsCommented ls h)

pub IsCommented-append : (s t : Str) → IsCommented s → IsCommented t → IsCommented (s ++ t)
IsCommented-append [] t nothing k = k
IsCommented-append (c ∷ s) t (empty_line rest h) k =
    empty_line (rest ++ t) (IsCommented-append rest t h k)
IsCommented-append (c ∷ s) t (comment_line body rest p h) k =
    rw (append_assoc body (b'\n' ∷ rest) t)
      (comment_line body (rest ++ t) p (IsCommented-append rest t h k))

pub Plain-join : (sep : Str) (ss : List Str) → Plain sep → All Plain ss → Plain (join sep ss)
Plain-join sep [] p h = refl
Plain-join sep (s ∷ []) p h = h.0
Plain-join sep (s ∷ t ∷ ss) p (q, h) =
    Plain-append s _ q (Plain-append sep _ p (Plain-join sep (t ∷ ss) p h))

pub Plain-take : (n : ℕ) (s : Str) → Plain s → Plain (take n s)
Plain-take zero s h = refl
Plain-take (suc n) [] h = refl
Plain-take (suc n) (c ∷ s) h = ground (arith, Plain-take n s)

module _ ⦃u : Unicode⦄ (hash : Str → Str) (valid : Str → Bool)
    (hash_plain : (s : Str) → Plain (hash s))
    (lower_plain : (s : Str) → Plain s → Plain (to_lower s)) where
  cut_valid-Plain : (n : ℕ) (s : Str) → Plain s → Plain (cut_valid hash valid n s)
  unfolding cut_valid
  cut_valid-Plain zero s h = refl
  cut_valid-Plain (suc n) s h = elim (Bool-cases (valid (take (suc n) s))) [
    | inl e ↦ rw e (Plain-take (suc n) s h)
    | inr e ↦ rw e (cut_valid-Plain n s h)
  ]

  -- A generated name has a line break only if the name that it is made of has one.
  pub truncate_ident-Plain :
      (name : Str)
      → Plain name
      → Plain (truncate_ident hash valid name).value × Plain (truncate_ident hash valid name).full
  unfolding truncate_ident
  truncate_ident-Plain name h =
      let lower = to_lower name in
      elim (Bool-cases (leb (length lower) 63)) [
        | inl e ↦ rw e (lower_plain name h, lower_plain name h)
        | inr e ↦ rw e (
          Plain-append (cut_valid hash valid (63 - length (codes "_" ++ hash lower)) lower)
              (codes "_" ++ hash lower)
              (cut_valid-Plain (63 - length (codes "_" ++ hash lower)) lower (lower_plain name h))
              (Plain-append (codes "_") (hash lower) refl (hash_plain lower)),
          lower_plain name h,
        )
      ]
