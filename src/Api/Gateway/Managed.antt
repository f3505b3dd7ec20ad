-- ===== src/Api/Gateway/Managed.antt =====
-- What becomes of a managed prompt.
use llmops_platform.Prelude.{
  ℕ, ◌≡◌, refl, Str, some, List, ◌∷◌, map, arith, is_empty, false, Result, ok, str_eq,
}
use llmops_platform.Prelude.Dict.{Dict, lookup}
use llmops_platform.Prelude.Float.{Float}
use llmops_platform.Prompts.Base.{PromptDb}
use llmops_platform.Prompts.Manager.{VersionDict, get}
use llmops_platform.Gateway.Schemas.{system, role_of, Message, ChatRequest}
use llmops_platform.Gateway.Providers.Anthropic
use llmops_platform.Gateway.Providers.Gemini
use llmops_platform.Gateway.Providers.Messages.{
  last_system, dialogue, anthropic_message, gemini_message, translations_agree,
}
use llmops_platform.Api.Gateway.{
  CompletionRequest, RawMessage, prompt_message, messages_of, chat_request_of, to_chat_request,
  with_prompt, resolve_named, resolve_if, resolve_prompt, prepare,
}

messages_of-prompt :
    (t : Str) (msgs : List RawMessage) (ms : List Message)
    → messages_of msgs ≡ ok ms
    → messages_of (prompt_message t ∷ msgs) ≡ ok (record { role = system; content = t } ∷ ms)
unfolding messages_of role_of lookup str_eq
messages_of-prompt t msgs ms h = rw h refl

module _ (fl : Float) (render : Str → Dict Str Str → Result Str) (show : ℕ → Str) where
  -- A request that names a managed prompt, which is found and rendered, reaches either vendor with
  -- the user's and the assistant's messages in their order, and with the rendered text as the
  -- system text if the request has no system message of its own; if it has, the vendor gets the
  -- last one of those and the managed prompt is lost.
  pub prepare-managed :
      (req : CompletionRequest fl) (name : Str) (db : PromptDb) (v : VersionDict) (t : Str)
      (ms : List Message)
      → req.prompt_name ≡ some name
      → is_empty name ≡ false
      → get name req.prompt_version req.prompt_env db ≡ ok (v, db)
      → render v.template req.prompt_variables ≡ ok t
      → messages_of req.messages ≡ ok ms
      → (r : ChatRequest fl) × (prepare fl render show req db ≡ ok (r, db))
        × (Anthropic.split_messages r.messages Anthropic.no_messages ≡ record {
          system_message = last_system (some t) ms;
          messages = map anthropic_message (dialogue ms);
        })
        × (Gemini.build_contents r.messages Gemini.no_contents ≡ record {
          contents = map gemini_message (dialogue ms);
          system_instruction = last_system (some t) ms;
        })
  unfolding prepare resolve_prompt resolve_if resolve_named to_chat_request
  prepare-managed req name db v t ms named full found rendered parsed =
      let front : Message = record { role = system; content = t } in
      let all_parsed = messages_of-prompt t req.messages ms parsed in
      let (a, g) = translations_agree (front ∷ ms) in
      (
        chat_request_of fl (with_prompt fl render show name v t req) (front ∷ ms),
        ground arith,
        a,
        g,
      )
