-- ===== src/Gateway/Schemas.antt =====
-- core/gateway/schemas.py: the unified request and response.
use llmops_platform.Prelude.{
  ℕ, ◌+◌, Str, codes, Bool, Option, List, [], ◌∷◌, ◌==◌, string_eq, if◌then◌else◌, Result, ok, err,
  Exc,
}
use llmops_platform.Prelude.Dict.{Dict}
use llmops_platform.Prelude.Float.{Float}

-- `class Role`
pub data Role : Type 0 where
  system user assistant : Role

unfoldable pub role_value : Role → Str
role_value Role.system = codes "system"
role_value Role.user = codes "user"
role_value Role.assistant = codes "assistant"

-- `Role(text)`, which raises a `ValueError` for any other text.
unfoldable pub role_of : Str → Result Role
role_of s =
    if s == codes "system"
    then ok Role.system
    else if s == codes "user"
    then ok Role.user
    else if s == codes "assistant"
    then ok Role.assistant
    else err (Exc.bad_enum s)

pub record Message : Type 0 where
  pub role : Role
  pub content : Str

pub record ChatRequest (fl : Float) : Type 0 where
  pub model : Str
  pub messages : List Message
  pub temperature : fl.F
  pub max_tokens : ℕ
  pub top_p : fl.F
  pub stop : Option (List Str)
  pub stream : Bool
  pub metadata : Dict Str Str

pub record Usage : Type 0 where
  pub input_tokens : ℕ
  pub output_tokens : ℕ
  pub total_tokens : ℕ

abbrev pub no_usage : Usage
no_usage = record { input_tokens = 0; output_tokens = 0; total_tokens = 0 }

-- The `Usage` that both providers build.
abbrev pub usage_of : ℕ → ℕ → Usage
usage_of i o = record { input_tokens = i; output_tokens = o; total_tokens = i + o }

pub record Choice : Type 0 where
  pub index : ℕ
  pub message : Message
  pub finish_reason : Str

pub record ChatResponse : Type 0 where
  pub id : Str
  pub model : Str
  pub choices : List Choice
  pub usage : Usage
  pub metadata : Dict Str Str

content_of : List Choice → Str
content_of [] = []
content_of (c ∷ cs) = c.message.content

-- `ChatResponse.content`
unfoldable pub content : ChatResponse → Str
unfolding content_of
content r = content_of r.choices

pub record ChatResponseChunk : Type 0 where
  pub id : Str
  pub model : Str
  pub delta_content : Str
  pub finish_reason : Option Str
  pub usage : Option Usage
