-- ===== src/Gateway/Providers/Anthropic.antt =====
-- core/gateway/anthropic.py. The vendor's client is a parameter: what `messages.create` returns,
-- and the events that `messages.stream` yields.
use llmops_platform.Prelude.{
  ℕ, Str, codes, Bool, ◌||◌, Option, none, some, List, [], ◌∷◌, ◌++◌, string_eq, str_eq, contains,
  starts_with, is_empty, is_nil, if◌then◌else◌, Result, ok, Exc, ◌>>=◌,
}
use llmops_platform.Prelude.Float.{Float}
use llmops_platform.Gateway.Schemas.{
  Role, role_value, Message, ChatRequest, usage_of, ChatResponse, ChatResponseChunk,
}
use llmops_platform.Gateway.Registry.{LlmProvider, Stream}

abbrev pub anthropic_models : List Str
anthropic_models =
    codes "claude-opus-4-20250514"
    ∷ codes "claude-sonnet-4-20250514"
    ∷ codes "claude-haiku-4-20250506"
    ∷ []

-- `supports_model`
unfoldable pub supports_model : Str → Bool
unfolding starts_with str_eq
supports_model model = contains anthropic_models model || starts_with model (codes "claude-")

-- An entry of the vendor's message list.
pub record VendorMessage : Type 0 where
  pub role : Str
  pub content : Str

-- The loop of `_build_params`: the last system message, and the others in order.
pub record Split : Type 0 where
  pub system_message : Option Str
  pub messages : List VendorMessage

unfoldable pub add_message : Role → Str → Split → Split
add_message Role.system content s = record s { system_message = some content }
add_message role content s = record s {
  messages = s.messages ++ record { role = role_value role; content = content } ∷ [];
}

unfoldable pub split_messages : List Message → Split → Split
unfolding add_message role_value
split_messages [] s = s
split_messages (m ∷ ms) s = split_messages ms (add_message m.role m.content s)

abbrev pub no_messages : Split
no_messages = record { system_message = none; messages = [] }

-- A text that is given and not empty, and such a list.
abbrev pub if_text : Option Str → Option Str
if_text none = none
if_text (some s) = if is_empty s then none else some s

abbrev pub if_list : Option (List Str) → Option (List Str)
if_list none = none
if_list (some l) = if is_nil l then none else some l

abbrev pub or_stop : Option Str → Str
or_stop none = codes "stop"
or_stop (some s) = if is_empty s then codes "stop" else s

module _ (fl : Float) where
  open fl use {F}

  pub record Params : Type 0 where
    pub model : Str
    pub max_tokens : ℕ
    pub messages : List VendorMessage
    pub temperature : F
    pub top_p : F
    pub system_text : Option Str
    pub stop_sequences : Option (List Str)

  -- `_build_params`
  unfoldable pub build_params : ChatRequest fl → Params
  unfolding split_messages
  build_params r =
      let s = split_messages r.messages no_messages in
      record {
        model = r.model;
        max_tokens = r.max_tokens;
        messages = s.messages;
        temperature = r.temperature;
        top_p = r.top_p;
        system_text = if_text s.system_message;
        stop_sequences = if_list r.stop;
      }

  -- A content block has a text, or is of another kind.
  pub record VendorResponse : Type 0 where
    pub id : Str
    pub model : Str
    pub blocks : List (Option Str)
    pub stop_reason : Option Str
    pub input_tokens : ℕ
    pub output_tokens : ℕ

  unfoldable pub join_blocks : List (Option Str) → Str
  join_blocks [] = []
  join_blocks (none ∷ bs) = join_blocks bs
  join_blocks (some t ∷ bs) = t ++ join_blocks bs

  -- An event of the vendor's stream.
  pub data Event : Type 0 where
    content_block_delta : Option Str → Event
    message_stop : Option Str → ℕ → ℕ → Event
    other_event : Event

  -- The chunks that one event gives.
  unfoldable pub chunks_of : Str → Str → Event → List ChatResponseChunk
  chunks_of id model (content_block_delta none) = []
  chunks_of id model (content_block_delta (some text)) =
      record { id = id; model = model; delta_content = text; finish_reason = none; usage = none }
      ∷ []
  chunks_of id model (message_stop reason i o) =
      record {
        id = id;
        model = model;
        delta_content = codes "";
        finish_reason = some (or_stop reason);
        usage = some (usage_of i o);
      }
      ∷ []
  chunks_of id model other_event = []

  unfoldable pub stream_chunks : Str → Str → List Event → List ChatResponseChunk
  unfolding chunks_of
  stream_chunks id model [] = []
  stream_chunks id model (e ∷ es) = chunks_of id model e ++ stream_chunks id model es

  module _ (create : Params → Result VendorResponse) where
    -- `chat`
    unfoldable pub chat : ChatRequest fl → Result ChatResponse
    unfolding build_params join_blocks
    chat request = do
      response ← create (build_params request)
      ok (record {
        id = response.id;
        model = response.model;
        choices =
            record {
              index = 0;
              message = record { role = Role.assistant; content = join_blocks response.blocks };
              finish_reason = or_stop response.stop_reason;
            }
            ∷ [];
        usage = usage_of response.input_tokens response.output_tokens;
        metadata = [];
      })

    module _ (stream : Params → List Event × Option Exc) (response_id : Str) where
      -- `chat_stream`
      unfoldable pub chat_stream : ChatRequest fl → Stream
      unfolding build_params stream_chunks
      chat_stream request =
          let events = stream (build_params request) in
          record { chunks = stream_chunks response_id request.model events.0; failure = events.1 }

      -- `class AnthropicProvider`
      unfoldable pub provider : LlmProvider fl
      unfolding chat chat_stream supports_model
      provider = record {
        provider_name = codes "anthropic";
        supports_model = supports_model;
        chat = chat;
        chat_stream = chat_stream;
      }
