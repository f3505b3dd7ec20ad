-- ===== src/Api/Gateway.antt =====
-- api/v1/gateway.py with the request and response of api/schemas/completions.py: the endpoint
-- `/v1/chat/completions`. `render` stands for `PromptRenderer.render`, as in Prompts.Renderer; a number
-- among the metadata is kept as the text that `show` makes of it.
pub mod Managed
use llmops_platform.Prelude.{
  ℕ, Str, codes, Bool, Option, none, some, List, [], ◌∷◌, ◌++◌, map, string_eq, is_empty,
  if◌then◌else◌, Result, ok, err, Exc,
}
use llmops_platform.Prelude.Dict.{Dict, lookup, insert}
use llmops_platform.Prelude.Float.{Float}
use llmops_platform.Prelude.Tx.{Tx, pure, lift, ◌>>=◌, ◌>>◌}
use llmops_platform.Prompts.Base.{PromptDb}
use llmops_platform.Prompts.Manager.{VersionDict, get}
use llmops_platform.Gateway.Schemas.{
  Role, role_of, role_value, Message, ChatRequest, Usage, Choice, ChatResponse, ChatResponseChunk,
}
use llmops_platform.Gateway.Registry.{ProviderRegistry}
use llmops_platform.Gateway.Router.{Event, Events, Caller, StreamRun, chat, chat_stream}

-- A message of the request, as the JSON object that it is.
abbrev pub RawMessage : Type 0
RawMessage = Dict Str Str

pub record CompletionRequest (fl : Float) : Type 0 where
  pub model : Str
  pub messages : List RawMessage
  pub temperature : fl.F
  pub max_tokens : ℕ
  pub top_p : fl.F
  pub stop : Option (List Str)
  pub stream : Bool
  pub metadata : Dict Str Str
  pub prompt_name : Option Str
  pub prompt_version : Option ℕ
  pub prompt_env : Option Str
  pub prompt_variables : Dict Str Str

-- `msg.get(key, default)`
abbrev pub get_or : Str → Str → RawMessage → Str
get_or key default msg = elim (lookup key msg) [ none ↦ default | some v ↦ v ]

abbrev pub prompt_message : Str → RawMessage
prompt_message rendered = (codes "role", codes "system") ∷ (codes "content", rendered) ∷ []

abbrev cons_message : Role → Str → Result (List Message) → Result (List Message)
cons_message role text (ok ms) = ok (record { role = role; content = text } ∷ ms)
cons_message role text (err e) = err e

abbrev with_role : Result Role → Str → Result (List Message) → Result (List Message)
with_role (err e) text rest = err e
with_role (ok role) text rest = cons_message role text rest

-- `for msg in req.messages` of `_to_chat_request`
unfoldable pub messages_of : List RawMessage → Result (List Message)
unfolding role_of
messages_of [] = ok []
messages_of (msg ∷ msgs) =
    with_role (role_of (get_or (codes "role") (codes "user") msg)) (get_or (codes "content") [] msg)
      (messages_of msgs)

module _ (fl : Float) where
  abbrev pub chat_request_of : CompletionRequest fl → List Message → ChatRequest fl
  chat_request_of req messages = record {
    model = req.model;
    messages = messages;
    temperature = req.temperature;
    max_tokens = req.max_tokens;
    top_p = req.top_p;
    stop = req.stop;
    stream = req.stream;
    metadata = req.metadata;
  }

  -- `_to_chat_request`
  unfoldable pub to_chat_request : CompletionRequest fl → Result (ChatRequest fl)
  unfolding messages_of
  to_chat_request req = elim (messages_of req.messages) [
    | ok messages ↦ ok (chat_request_of req messages)
    | err e ↦ err e
  ]

  module _ (render : Str → Dict Str Str → Result Str) (show : ℕ → Str) where
    abbrev pub with_prompt : Str → VersionDict → Str → CompletionRequest fl → CompletionRequest fl
    with_prompt name v rendered req = record req {
      messages = prompt_message rendered ∷ req.messages;
      metadata = insert (codes "prompt_environment") v.environment (
          insert (codes "prompt_version") (show v.version)
            (insert (codes "prompt_name") name req.metadata));
    }

    resolve_named : Str → CompletionRequest fl → Tx PromptDb (CompletionRequest fl)
    resolve_named name req = do
      version_data ← get name req.prompt_version req.prompt_env
      rendered ← lift (render version_data.template req.prompt_variables)
      pure (with_prompt name version_data rendered req)

    resolve_if : Option Str → CompletionRequest fl → Tx PromptDb (CompletionRequest fl)
    unfolding resolve_named
    resolve_if none req = pure req
    resolve_if (some name) req = if is_empty name then pure req else resolve_named name req

    -- `_resolve_prompt`
    unfoldable pub resolve_prompt : CompletionRequest fl → Tx PromptDb (CompletionRequest fl)
    unfolding resolve_if
    resolve_prompt req = resolve_if req.prompt_name req

    -- What the endpoint sends to the router.
    unfoldable pub prepare : CompletionRequest fl → Tx PromptDb (ChatRequest fl)
    unfolding resolve_prompt to_chat_request
    prepare req = do resolved ← resolve_prompt req; lift (to_chat_request resolved)

    module _ (refuses : Event fl → Option Exc) (registry : ProviderRegistry fl) (trace_id : Str)
        (caller : Caller) where
      -- The body of the answer: a response, or the events of a stream with its end.
      pub data Reply : Type 0 where
        completion : ChatResponse → Reply
        event_stream : List ChatResponseChunk → Bool → Reply

      ended_well : Result (Unit {0}) → Bool
      ended_well (ok u) = Bool.true
      ended_well (err e) = Bool.false

      -- `_stream_response`: one event for each chunk, and the closing event behind them if nothing raised
      unfoldable pub stream_response : ChatRequest fl → Events fl → Reply × Events fl
      unfolding ended_well chat_stream
      stream_response r log =
          let s = chat_stream fl refuses registry trace_id caller r log in
          (event_stream s.yielded (ended_well s.outcome), s.events)

      as_reply : Result ChatResponse × Events fl → Result Reply × Events fl
      as_reply (ok response, log) = (ok (completion response), log)
      as_reply (err e, log) = (err e, log)

      as_stream : Reply × Events fl → Result Reply × Events fl
      as_stream (reply, log) = (ok reply, log)

      reply_to : Result (ChatRequest fl × PromptDb) → Events fl → Result Reply × Events fl
      unfolding stream_response as_reply as_stream chat
      reply_to (err e) log = (err e, log)
      reply_to (ok (r, db)) log =
          if r.stream
          then as_stream (stream_response r log)
          else as_reply (chat fl refuses registry trace_id caller r log)

      -- `chat_completions`
      unfoldable pub chat_completions :
          CompletionRequest fl → PromptDb → Events fl → Result Reply × Events fl
      unfolding prepare reply_to
      chat_completions req db log = reply_to (prepare req db) log
