-- ===== src/Gateway/Providers/Gemini.antt =====
-- core/gateway/gemini.py. The vendor's client is a parameter, and so is `contains`, the test of a
-- text within a text.
use llmops_platform.Prelude.{
  ℕ, Str, codes, Bool, ◌||◌, Option, none, some, List, [], ◌∷◌, ◌++◌, string_eq, str_eq, contains,
  starts_with, is_empty, is_nil, if◌then◌else◌, Result, ok, Exc, ◌>>=◌,
}
use llmops_platform.Prelude.Float.{Float}
use llmops_platform.Prelude.Substring.{is_within}
use llmops_platform.Gateway.Schemas.{
  Role, Message, ChatRequest, Usage, usage_of, ChatResponse, ChatResponseChunk,
}
use llmops_platform.Gateway.Registry.{LlmProvider, Stream}
use llmops_platform.Gateway.Providers.Anthropic.{if_text, if_list}

abbrev pub gemini_models : List Str
gemini_models =
    codes "gemini-2.5-flash"
    ∷ codes "gemini-2.5-pro"
    ∷ codes "gemini-2.0-flash-001"
    ∷ codes "gemini-2.0-flash-lite-001"
    ∷ codes "gemini-3-flash-preview"
    ∷ []

-- `supports_model`
unfoldable pub supports_model : Str → Bool
unfolding starts_with str_eq
supports_model model = contains gemini_models model || starts_with model (codes "gemini-")

pub record Content : Type 0 where
  pub role : Str
  pub text : Str

-- The loop of `_build_contents`.
pub record Split : Type 0 where
  pub contents : List Content
  pub system_instruction : Option Str

unfoldable pub add_content : Role → Str → Split → Split
add_content Role.system text s = record s { system_instruction = some text }
add_content Role.assistant text s = record s {
  contents = s.contents ++ record { role = codes "model"; text = text } ∷ [];
}
add_content Role.user text s = record s {
  contents = s.contents ++ record { role = codes "user"; text = text } ∷ [];
}

unfoldable pub build_contents : List Message → Split → Split
unfolding add_content
build_contents [] s = s
build_contents (m ∷ ms) s = build_contents ms (add_content m.role m.content s)

abbrev pub no_contents : Split
no_contents = record { contents = []; system_instruction = none }

-- A candidate: the texts of its parts (a part may have none) and its finish reason in lower case.
pub record Candidate : Type 0 where
  pub parts : List (Option Str)
  pub finish_reason : Option Str

-- The counts of `usage_metadata`, each of which may be missing.
pub record UsageMetadata : Type 0 where
  pub prompt_token_count : Option ℕ
  pub candidates_token_count : Option ℕ

pub record VendorResponse : Type 0 where
  pub response_id : Option Str
  pub candidates : List Candidate
  pub usage_metadata : Option UsageMetadata

abbrev or_zero : Option ℕ → ℕ
or_zero none = 0
or_zero (some n) = n

unfoldable pub usage_from : Option UsageMetadata → Usage
usage_from none = usage_of 0 0
usage_from (some u) = usage_of (or_zero u.prompt_token_count) (or_zero u.candidates_token_count)

unfoldable pub join_parts : List (Option Str) → Str
join_parts [] = []
join_parts (none ∷ ps) = join_parts ps
join_parts (some t ∷ ps) = t ++ join_parts ps

first_parts : List Candidate → Str
unfolding join_parts
first_parts [] = []
first_parts (c ∷ cs) = join_parts c.parts

-- `finish_reason` of a response
unfoldable pub reason_of : Option Str → Str
reason_of none = codes "stop"
reason_of (some raw) =
    if is_empty raw
    then codes "stop"
    else if is_within (codes "max_tokens") raw
    then codes "length"
    else if is_within (codes "safety") raw
    then codes "content_filter"
    else codes "stop"

first_reason : List Candidate → Str
unfolding reason_of
first_reason [] = codes "stop"
first_reason (c ∷ cs) = reason_of c.finish_reason

module _ (fl : Float) where
  open fl use {F}

  pub record Config : Type 0 where
    pub temperature : F
    pub top_p : F
    pub max_output_tokens : ℕ
    pub system_instruction : Option Str
    pub stop_sequences : Option (List Str)

  -- `_build_config`
  unfoldable pub build_config : ChatRequest fl → Option Str → Config
  build_config r instruction = record {
    temperature = r.temperature;
    top_p = r.top_p;
    max_output_tokens = r.max_tokens;
    system_instruction = if_text instruction;
    stop_sequences = if_list r.stop;
  }

  -- The chunks of the parts with a text.
  unfoldable pub part_chunks : Str → Str → List (Option Str) → List ChatResponseChunk
  part_chunks id model [] = []
  part_chunks id model (none ∷ ps) = part_chunks id model ps
  part_chunks id model (some t ∷ ps) =
      let rest = part_chunks id model ps in
      if is_empty t
      then rest
      else record { id = id; model = model; delta_content = t; finish_reason = none; usage = none }
        ∷ rest

  abbrev map_usage : Option UsageMetadata → Option Usage
  map_usage none = none
  map_usage (some u) =
      some (usage_of (or_zero u.prompt_token_count) (or_zero u.candidates_token_count))

  finish_chunks : Str → Str → Option Str → Option UsageMetadata → List ChatResponseChunk
  finish_chunks id model none u = []
  finish_chunks id model (some raw) u =
      record {
        id = id;
        model = model;
        delta_content = codes "";
        finish_reason = some (codes "stop");
        usage = map_usage u;
      }
      ∷ []

  -- What one chunk of the vendor's stream gives. The finish reason is looked at only under a
  -- candidate with parts.
  unfoldable pub chunks_of : Str → Str → VendorResponse → List ChatResponseChunk
  unfolding part_chunks finish_chunks
  chunks_of id model r = elim r.candidates [
    | [] ↦ []
    | c ∷ cs ↦
        if is_nil c.parts
        then []
        else part_chunks id model c.parts ++ finish_chunks id model c.finish_reason r.usage_metadata
  ]

  unfoldable pub stream_chunks : Str → Str → List VendorResponse → List ChatResponseChunk
  unfolding chunks_of
  stream_chunks id model [] = []
  stream_chunks id model (r ∷ rs) = chunks_of id model r ++ stream_chunks id model rs

  abbrev or_id : Option Str → Str → Str
  or_id none fresh = fresh
  or_id (some s) fresh = if is_empty s then fresh else s

  module _ (generate_content : Str → List Content → Config → Result VendorResponse)
      (generate_content_stream : Str → List Content → Config → List VendorResponse × Option Exc)
      (fresh_id : Str) where
    -- `chat`
    unfoldable pub chat : ChatRequest fl → Result ChatResponse
    unfolding build_contents build_config first_parts first_reason usage_from
    chat request = do
      let s = build_contents request.messages no_contents
      response ←
          generate_content request.model s.contents (build_config request s.system_instruction)
      ok (record {
        id = or_id response.response_id fresh_id;
        model = request.model;
        choices =
            record {
              index = 0;
              message = record { role = Role.assistant; content = first_parts response.candidates };
              finish_reason = first_reason response.candidates;
            }
            ∷ [];
        usage = usage_from response.usage_metadata;
        metadata = [];
      })

    -- `chat_stream`
    unfoldable pub chat_stream : ChatRequest fl → Stream
    unfolding build_contents build_config stream_chunks
    chat_stream request =
        let s = build_contents request.messages no_contents in
        let events =
          generate_content_stream request.model s.contents
            (build_config request s.system_instruction) in
        record { chunks = stream_chunks fresh_id request.model events.0; failure = events.1 }

    -- `class GeminiProvider`
    unfoldable pub provider : LlmProvider fl
    unfolding chat chat_stream supports_model
    provider = record {
      provider_name = codes "gemini";
      supports_model = supports_model;
      chat = chat;
      chat_stream = chat_stream;
    }
