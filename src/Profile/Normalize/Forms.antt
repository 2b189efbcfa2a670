-- ===== src/Profile/Normalize/Forms.antt =====
-- internal/profile/normalize.go, TableForms: the forms as a set.
use pgfathom.Base.{
  ◌≡◌, refl, ap, ◌∙◌, ◌≢◌, inl, inr, false, ◌||◌, Option, none, some, List, [], ◌∷◌, ◌++◌, arith,
  text_eq, any-append, All, All-append, Bool-cases, Unicode, Str, str_eq, str_eq_sound, str_eq_iff,
}
use pgfathom.Profile.{Profile}
use pgfathom.Profile.Normalize.{
  Origin, Form, trim_prefix, first_trimmed, depluralize, has_form, add_form, add_forms,
  with_stripped, folded, table_forms,
}

-- No two forms have the same value.
abbrev pub IsDistinct : List Form → Type 0
IsDistinct [] = Unit
IsDistinct (f ∷ rest) = (has_form f.value rest ≡ false) × IsDistinct rest

-- The forms are not empty, no two have the same value, and the first is the exact name.
pub record IsFormSet (name : Str) (forms : List Form) : Type 0 where
  pub rest : List Form
  pub exact_first : forms ≡ record { value = name; origin = Origin.exact } ∷ rest
  pub distinct : IsDistinct forms
  pub not_empty : All (λ f. f.value ≢ []) forms

IsDistinct-snoc :
    (forms : List Form) (f : Form)
    → IsDistinct forms
    → has_form f.value forms ≡ false
    → IsDistinct (forms ++ f ∷ [])
IsDistinct-snoc [] f d h = (refl, tt)
IsDistinct-snoc (g ∷ forms) f (new, d) h = (
  any-append (λ k. str_eq k.value g.value) forms (f ∷ [])
      ∙ ground (arith, str_eq_iff f.value g.value, str_eq_iff g.value f.value),
  IsDistinct-snoc forms f d (ground arith),
)

add_form-IsFormSet :
    (name : Str) (forms : List Form) (o : Origin) (v : Str)
    → IsFormSet name forms
    → IsFormSet name (add_form forms o v)
unfolding add_form
add_form-IsFormSet name forms o v s = elim (Bool-cases (str_eq v [] || has_form v forms)) [
  | inl e ↦ rw e s
  | inr e ↦
      let f : Form = record { value = v; origin = o } in
      rw e (record {
        rest = s.rest ++ f ∷ [];
        exact_first = ap (λ fs. fs ++ f ∷ []) s.exact_first;
        distinct = IsDistinct-snoc forms f s.distinct (ground arith);
        not_empty =
            All-append (λ f. f.value ≢ []) forms (f ∷ []) s.not_empty
              ((λ z. ground (arith, str_eq_iff v [])), tt);
      })
]

add_forms-IsFormSet :
    (name : Str) (forms : List Form) (o : Origin) (vs : List Str)
    → IsFormSet name forms
    → IsFormSet name (add_forms forms o vs)
unfolding add_forms
add_forms-IsFormSet name forms o [] s = s
add_forms-IsFormSet name forms o (v ∷ vs) s =
    add_forms-IsFormSet name (add_form forms o v) o vs (add_form-IsFormSet name forms o v s)

with_stripped-IsFormSet :
    (p : Profile) (name : Str) (forms : List Form) (stripped : Option Str)
    → IsFormSet name forms
    → IsFormSet name (with_stripped p name forms stripped)
unfolding with_stripped
with_stripped-IsFormSet p name forms none s =
    add_forms-IsFormSet name forms Origin.depluralized (depluralize p.plural name) s
with_stripped-IsFormSet p name forms (some t) s =
    add_forms-IsFormSet name _ Origin.prefix_and_depluralized (depluralize p.plural t) (
      add_forms-IsFormSet name _ Origin.depluralized (depluralize p.plural name)
        (add_form-IsFormSet name forms Origin.prefix_stripped t s))

exact-IsFormSet :
    (name : Str) → str_eq name [] ≡ false → IsFormSet name (add_form [] Origin.exact name)
unfolding add_form
exact-IsFormSet name h = rw h (record {
  rest = [];
  exact_first = refl;
  distinct = (refl, tt);
  not_empty = ((λ z. ground (arith, str_eq_iff name [])), tt);
})

module _ ⦃u : Unicode⦄ where
  table_forms-with_stripped :
      (p : Profile) (table : Str)
      → str_eq (folded table) [] ≡ false
      → table_forms p table
        ≡ with_stripped p
            (folded table)
            (add_form [] Origin.exact (folded table))
            (first_trimmed trim_prefix (folded table) p.table_prefixes)
  unfolding table_forms
  table_forms-with_stripped p table e = rw e refl

  -- A table whose name is not blank answers to a set of forms: none is empty, no two are the same,
  -- and the first is its own name, in lower case, as the exact form.
  pub table_forms-IsFormSet :
      (p : Profile) (table : Str)
      → folded table ≢ []
      → IsFormSet (folded table) (table_forms p table)
  table_forms-IsFormSet p table named = elim (Bool-cases (str_eq (folded table) [])) [
    | inl e ↦ absurd (named (str_eq_sound (folded table) [] e))
    | inr e ↦ rw (table_forms-with_stripped p table e) (
        with_stripped-IsFormSet p (folded table) _
          (first_trimmed trim_prefix (folded table) p.table_prefixes)
          (exact-IsFormSet (folded table) e))
  ]
