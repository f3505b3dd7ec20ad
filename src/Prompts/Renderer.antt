-- ===== src/Prompts/Renderer.antt =====
-- core/prompts/renderer.py: `PromptRenderer` over Jinja2's environment, whose methods are parameters.
use llmops_platform.Prelude.{
  ◌≡◌, refl, Str, Bool, true, false, ◌&&◌, ◌||◌, List, [], ◌∷◌, In, length, ltb, nat_eq, ◌==◌,
  Result, ok, err, Exc, arith,
}
use llmops_platform.Prelude.Dict.{Dict}
use llmops_platform.Prelude.Sort.{
  sort_desc, IsDescending, In-sort_desc, length-sort_desc, sort_desc-IsDescending,
}

-- How a call of Jinja2 ends: with a value, or with an exception of one of the two classes that the
-- renderer knows, or with another one.
pub data Outcome (A : Type 0) : Type 0 where
  done : A → Outcome A
  template_syntax_error undefined_error : Outcome A
  failed : Exc → Outcome A

-- `s <= t` of Python's strings, which `sorted` goes by
unfoldable pub str_le : Str → Str → Bool
str_le [] t = true
str_le (a ∷ s) [] = false
str_le (a ∷ s) (b ∷ t) = ltb a b || ((a == b) && str_le s t)

unfoldable pub sorted : List Str → List Str
unfolding sort_desc str_le
sorted names = sort_desc (λ s t. str_le t s) (λ s. s) names

-- `except (TemplateSyntaxError, UndefinedError)`, which raises a `ValueError`
unfoldable pub or_value_error : {A : Type 0} → Outcome A → Result A
or_value_error (done a) = ok a
or_value_error template_syntax_error = err Exc.template_failed
or_value_error undefined_error = err Exc.template_failed
or_value_error (failed e) = err e

module _ {Template : Type 0} (from_string : Str → Outcome Template)
    (render_template : Template → Dict Str Str → Outcome Str) where
  -- The `try` block of `render`; `None` for the variables is the empty dictionary.
  unfoldable pub rendering : Str → Dict Str Str → Outcome Str
  rendering template variables = elim (from_string template) [
    | done tmpl ↦ render_template tmpl variables
    | template_syntax_error ↦ template_syntax_error
    | undefined_error ↦ undefined_error
    | failed e ↦ failed e
  ]

  unfoldable pub render : Str → Dict Str Str → Result Str
  unfolding rendering or_value_error
  render template variables = or_value_error (rendering template variables)

str_le_total : (s t : Str) → str_le s t ≡ false → str_le t s ≡ true
unfolding str_le
str_le_total [] t h = ground arith
str_le_total (a ∷ s) [] h = refl
str_le_total (a ∷ s) (b ∷ t) h = let rest = str_le_total s t in ground arith

str_le_trans : (s t u : Str) → str_le s t ≡ true → str_le t u ≡ true → str_le s u ≡ true
unfolding str_le
str_le_trans [] t u h k = refl
str_le_trans (a ∷ s) [] u h k = ground arith
str_le_trans (a ∷ s) (b ∷ t) [] h k = ground arith
str_le_trans (a ∷ s) (b ∷ t) (c ∷ u) h k = let rest = str_le_trans s t u in ground arith

abbrev IsAscending : List Str → Type 0
IsAscending = IsDescending (λ s t. str_le t s) (λ s. s)

module _ {Ast : Type 0} (parse : Str → Outcome Ast)
    (find_undeclared_variables : Ast → Outcome (List Str)) where
  -- Of the exceptions only a `TemplateSyntaxError` is caught; an `UndefinedError` is an exception like
  -- the others here.
  unfoldable pub extract_variables : Str → Result (List Str)
  unfolding sorted
  extract_variables template = elim (parse template) [
    | template_syntax_error ↦ ok []
    | undefined_error ↦ err Exc.other
    | failed e ↦ err e
    | done ast ↦ (elim (find_undeclared_variables ast) [
      | done names ↦ ok (sorted names)
      | template_syntax_error ↦ ok []
      | undefined_error ↦ err Exc.other
      | failed e ↦ err e
    ])
  ]

  -- The names of a template that can be read are those that Jinja2 finds, in ascending order and
  -- each as often.
  pub extract_variables-IsAscending :
      (template : Str) (ast : Ast) (names : List Str)
      → parse template ≡ done ast
      → find_undeclared_variables ast ≡ done names
      → (out : List Str) × (extract_variables template ≡ ok out)
        × IsAscending out
        × (length out ≡ length names)
        × ((name : Str) → In name names → In name out)
  unfolding extract_variables sorted
  extract_variables-IsAscending template ast names parsed found =
      let le : Str → Str → Bool = λ s t. str_le t s in
      let key : Str → Str = λ s. s in
      (
        sort_desc le key names,
        ground arith,
        sort_desc-IsDescending le key (λ s t. str_le_total t s)
            (λ s t u h k. str_le_trans u t s k h) names,
        length-sort_desc le key names,
        λ name. In-sort_desc le key name names,
      )
