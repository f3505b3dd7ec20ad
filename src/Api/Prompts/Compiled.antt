-- ===== src/Api/Prompts/Compiled.antt =====
-- `/v1/prompts/{name}/compile` of api/v1/prompts.py with the renderer of core/prompts/renderer.py.
use llmops_platform.Prelude.{
  ℕ, ◌≡◌, refl, Str, Option, Result, ok, err, Exc, arith, Bool-cases, inl, inr, ◌∙◌, true, false,
}
use llmops_platform.Prelude.Dict.{Dict}
use llmops_platform.Prelude.Tx.{Tx, pure, lift, ◌>>=◌}
use llmops_platform.Prompts.Base.{PromptDb}
use llmops_platform.Prompts.Manager
use llmops_platform.Prompts.Manager.{VersionDict}
use llmops_platform.Prompts.Renderer.{
  Outcome, done, template_syntax_error, undefined_error, failed, rendering, or_value_error, render,
}
use llmops_platform.Api.Status.{is_value_error, on_value_error}
use llmops_platform.Api.Prompts.Errors.{ReadsOr, fits, get-Reads}
use llmops_platform.Api.Prompts.{CompileResponse, compile_prompt}

module _ {Template : Type 0} (from_string : Str → Outcome Template)
    (render_template : Template → Dict Str Str → Outcome Str) where
  abbrev response : Str → VersionDict → Dict Str Str → CompileResponse
  response text v variables = record {
    rendered = text;
    template = v.template;
    variables_used = variables;
    version = v.version;
    environment = v.environment;
  }

  -- How an answer comes about, from what `get` gives and what Jinja2 makes of the template.
  pub data Compiled (variables : Dict Str Str) (db : PromptDb)
      : Result (VersionDict × PromptDb) → Result (CompileResponse × PromptDb) → Type 0 where
    no_version :
        (e : Exc) → is_value_error e ≡ true → Compiled variables db (err e) (err (Exc.http 404 e))
    out_of_range : Compiled variables db (err Exc.data_error) (err Exc.data_error)
    bad_syntax :
        (v : VersionDict)
        → rendering from_string render_template v.template variables ≡ template_syntax_error
        → Compiled variables db (ok (v, db)) (err (Exc.http 400 Exc.template_failed))
    missing_variable :
        (v : VersionDict)
        → rendering from_string render_template v.template variables ≡ undefined_error
        → Compiled variables db (ok (v, db)) (err (Exc.http 400 Exc.template_failed))
    value_error :
        (v : VersionDict) (e : Exc)
        → rendering from_string render_template v.template variables ≡ failed e
        → is_value_error e ≡ true
        → Compiled variables db (ok (v, db)) (err (Exc.http 400 e))
    internal_error :
        (v : VersionDict) (e : Exc)
        → rendering from_string render_template v.template variables ≡ failed e
        → is_value_error e ≡ false
        → Compiled variables db (ok (v, db)) (err e)
    compiled :
        (v : VersionDict) (text : Str)
        → rendering from_string render_template v.template variables ≡ done text
        → Compiled variables db (ok (v, db)) (ok (response text v variables, db))

  -- The endpoint once a version has been found.
  compile_found : VersionDict → Dict Str Str → Tx PromptDb CompileResponse
  unfolding on_value_error
  compile_found v variables = do
    text ← on_value_error 400 (lift (render from_string render_template v.template variables))
    pure (response text v variables)

  compile_found-Compiled :
      (v : VersionDict) (variables : Dict Str Str) (db : PromptDb) (o : Outcome Str)
      → rendering from_string render_template v.template variables ≡ o
      → Compiled variables db (ok (v, db)) (compile_found v variables db)
  unfolding compile_found on_value_error is_value_error render rendering or_value_error
  compile_found-Compiled v variables db (done text) e = rw e (compiled v text e)
  compile_found-Compiled v variables db template_syntax_error e = rw e (bad_syntax v e)
  compile_found-Compiled v variables db undefined_error e = rw e (missing_variable v e)
  compile_found-Compiled v variables db (failed x) e = elim (Bool-cases (is_value_error x)) [
    | inl known ↦ rw (e, or_value_error, on_value_error, known) (value_error v x e known)
    | inr unknown ↦ rw (e, or_value_error, on_value_error, unknown) (internal_error v x e unknown)
  ]

  compile_refused :
      (name : Str) (version : Option ℕ) (env : Option Str) (variables : Dict Str Str)
      (db : PromptDb)
      → Manager.get name version env db ≡ err Exc.data_error
      → compile_prompt (render from_string render_template) name version env variables db
        ≡ err Exc.data_error
  unfolding compile_prompt on_value_error is_value_error
  compile_refused name version env variables db e = ground arith

  compile_prompt-of_get :
      (name : Str) (version : Option ℕ) (env : Option Str) (variables : Dict Str Str)
      (db : PromptDb) (r : Result (VersionDict × PromptDb))
      → Manager.get name version env db ≡ r
      → ReadsOr (fits version) db r
      → Compiled variables db r
          (compile_prompt (render from_string render_template) name version env variables db)
  unfolding compile_prompt on_value_error compile_found
  compile_prompt-of_get name version env variables db (err x) e (inl h) =
      let same : compile_prompt (render from_string render_template) name version env variables db
          ≡ err (Exc.http 404 x) =
        ground arith in
      rw same (no_version x h)
  compile_prompt-of_get name version env variables db (err x) e (inr (out, refused)) =
      let same = compile_refused name version env variables db (e ∙ refused) in
      rw (same, refused) out_of_range
  compile_prompt-of_get name version env variables db (ok (v, s)) e (inr (out, refused)) =
      absurd (cc)
  compile_prompt-of_get name version env variables db (ok (v, s)) e (inl h) =
      let same : compile_prompt (render from_string render_template) name version env variables db
          ≡ compile_found v variables s =
        ground arith in
      rw (same, h)
        (compile_found-Compiled v variables db
          (rendering from_string render_template v.template variables) refl)

  -- A compilation serves the version that `get` serves: it answers 404 where `get` raises a `ValueError`, with the
  -- text that Jinja2 makes of the version's template where it makes one, and 400 where the template
  -- has a syntax error or wants a variable that is not given. The tables stay as they are. A version
  -- number that is beyond the range of its column comes out as an internal error. Of Jinja2's
  -- other exceptions those that are no `ValueError` come out as internal errors.
  pub compile_prompt-Compiled :
      (name : Str) (version : Option ℕ) (env : Option Str) (variables : Dict Str Str)
      (db : PromptDb)
      → Compiled variables db
          (Manager.get name version env db)
          (compile_prompt (render from_string render_template) name version env variables db)
  compile_prompt-Compiled name version env variables db =
      compile_prompt-of_get name version env variables db (Manager.get name version env db) refl
        (get-Reads name version env db)
