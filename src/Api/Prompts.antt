-- ===== src/Api/Prompts.antt =====
-- api/v1/prompts.py with the requests and responses of api/schemas/prompts.py: the endpoints of the
-- prompt manager. `render` stands for `PromptRenderer.render`, as in Prompts.Renderer.
pub mod Errors
pub mod Compiled
use llmops_platform.Prelude.{ℕ, Str, Option, List, Result, ok, err, Exc}
use llmops_platform.Prelude.Dict.{Dict}
use llmops_platform.Prelude.Tx.{Tx, pure, lift, ◌>>=◌, ◌>>◌}
use llmops_platform.Prompts.Base.{PromptDb}
use llmops_platform.Prompts.Manager
use llmops_platform.Prompts.Manager.{VersionDict, PromptDict, TemplateArgs}
use llmops_platform.Api.Status.{on_value_error, on_exception}

unfoldable pub create_prompt : ℕ → ℕ → ℕ → Str → Str → Str → Dict Str Str → Tx PromptDb PromptDict
unfolding on_exception Manager.create
create_prompt id vid now name description template variables =
    on_exception 400 (Manager.create id vid now name description template variables)

unfoldable pub list_prompts : Tx PromptDb (List PromptDict)
unfolding Manager.list_prompts
list_prompts = Manager.list_prompts

unfoldable pub get_prompt : Str → Option ℕ → Option Str → Tx PromptDb VersionDict
unfolding on_value_error Manager.get
get_prompt name version env = on_value_error 404 (Manager.get name version env)

unfoldable pub list_versions : Str → Tx PromptDb (List VersionDict)
unfolding on_value_error Manager.list_versions
list_versions name = on_value_error 404 (Manager.list_versions name)

unfoldable pub create_version : ℕ → ℕ → Str → TemplateArgs → Tx PromptDb VersionDict
unfolding on_value_error Manager.create_version
create_version vid now name a = on_value_error 404 (Manager.create_version vid now name a)

unfoldable pub promote_prompt : Str → ℕ → Str → Tx PromptDb VersionDict
unfolding on_value_error Manager.promote
promote_prompt name version target_env =
    on_value_error 400 (Manager.promote name version target_env)

pub record CompileResponse : Type 0 where
  pub rendered : Str
  pub template : Str
  pub variables_used : Dict Str Str
  pub version : ℕ
  pub environment : Str

unfoldable pub compile_prompt :
    (Str → Dict Str Str → Result Str)
    → Str
    → Option ℕ
    → Option Str
    → Dict Str Str
    → Tx PromptDb CompileResponse
unfolding on_value_error Manager.get
compile_prompt render name version environment variables = do
  version_data ← on_value_error 404 (Manager.get name version environment)
  rendered ← on_value_error 400 (lift (render version_data.template variables))
  pure (record {
    rendered = rendered;
    template = version_data.template;
    variables_used = variables;
    version = version_data.version;
    environment = version_data.environment;
  })
