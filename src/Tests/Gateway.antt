-- ===== src/Tests/Gateway.antt =====
-- The gateway of src/llmops/core/gateway at concrete inputs.
use llmops_platform.Prelude.{
  ◌≡◌, ◌≢◌, refl, Str, codes, false, Option, none, some, List, [], ◌∷◌, ok, Exc, ◌==◌, string_eq,
  str_eq, map, arith,
}
use llmops_platform.Prelude.Float.{decimal}
use llmops_platform.Gateway.Schemas.{
  Role, system, user, Message, ChatRequest, Usage, ChatResponse, ChatResponseChunk,
}
use llmops_platform.Gateway.Registry.{LlmProvider, Stream, ProviderRegistry, resolve}
use llmops_platform.Gateway.Providers.Anthropic
use llmops_platform.Gateway.Providers.Gemini
use llmops_platform.Gateway.Providers.Messages.{
  last_system, dialogue, anthropic_message, gemini_message, translations_agree,
}
use llmops_platform.Gateway.Router.{Event, Caller, chat, chat_stream, collect}
use llmops_platform.Gateway.Router.Events.{Ended, run-Ended}
use llmops_platform.Gateway.Router.Streams.{Streamed, chat_stream-Streamed}

abbrev message : Role → Str → Message
message role text = record { role = role; content = text }

abbrev system_message : Message
system_message = message system (codes "be brief")

abbrev messages : List Message
messages = system_message ∷ message user (codes "hi") ∷ []

translations_agree_example :
    (Anthropic.split_messages messages Anthropic.no_messages ≡ record {
      system_message = last_system none messages;
      messages = map anthropic_message (dialogue messages);
    })
    × (Gemini.build_contents messages Gemini.no_contents ≡ record {
      contents = map gemini_message (dialogue messages);
      system_instruction = last_system none messages;
    })
translations_agree_example = translations_agree messages

has_system : system_message ∷ [] ≢ []
has_system h = ground arith

abbrev model : Str
model = codes "m"

abbrev usage : Usage
usage = record { input_tokens = 3; output_tokens = 2; total_tokens = 5 }

abbrev response : ChatResponse
response = record {
  id = codes "r";
  model = model;
  choices =
      record { index = 0; message = message user (codes "hello"); finish_reason = codes "stop" }
      ∷ [];
  usage = usage;
  metadata = [];
}

abbrev chunk : Str → Option Usage → ChatResponseChunk
chunk text u = record {
  id = codes "r";
  model = model;
  delta_content = text;
  finish_reason = none;
  usage = u;
}

abbrev stream : Stream
stream = record {
  chunks = chunk (codes "hel") none ∷ chunk (codes "lo") none ∷ chunk [] (some usage) ∷ [];
  failure = none;
}

abbrev provider : LlmProvider decimal
provider = record {
  provider_name = codes "p";
  supports_model = λ m. m == model;
  chat = λ r. ok response;
  chat_stream = λ r. stream;
}

abbrev registry : ProviderRegistry decimal
registry = provider ∷ []

abbrev request : ChatRequest decimal
request = record {
  model = model;
  messages = messages;
  temperature = 7000;
  max_tokens = 100;
  top_p = 10000;
  stop = none;
  stream = false;
  metadata = [];
}

abbrev caller : Caller
caller = record { service_name = codes "shop"; request_id = none }

abbrev accepts : Event decimal → Option Exc
accepts e = none

abbrev trace_id : Str
trace_id = codes "t1"

run-Ended_example :
    Ended decimal accepts registry trace_id caller request []
      (chat decimal accepts registry trace_id caller request [])
run-Ended_example = run-Ended decimal accepts registry trace_id caller request []

chat_stream-Streamed_example :
    Streamed decimal accepts registry trace_id caller request []
      (chat_stream decimal accepts registry trace_id caller request [])
chat_stream-Streamed_example =
    chat_stream-Streamed decimal accepts registry trace_id caller request []

-- The chunks are passed on.
streamed_chunks :
    (chat_stream decimal accepts registry trace_id caller request []).yielded ≡ stream.chunks
unfolding chat_stream collect resolve str_eq
streamed_chunks = refl
