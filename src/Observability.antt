-- ===== src/Observability.antt =====
-- core/observability: langfuse_backend.py and noop_backend.py, over base.py. What the Langfuse client is
-- told is a list; ending an observation and flushing the client only send it.
use llmops_platform.Prelude.{
  ℕ, ◌≡◌, ◌↔◌, Str, codes, Bool, true, false, Option, none, some, List, [], ◌∷◌, ◌++◌, string_eq,
  str_eq, str_eq_iff, Eq, arith,
}
use llmops_platform.Prelude.Dict.{Dict, lookup, insert}
use llmops_platform.Prelude.Float.{Float}
use llmops_platform.Gateway.Schemas.{Message}

-- A JSON value: a text, a number, Boolean or null by its JSON text, or a list or an object.
pub data Value : Type 0 where
  text scalar : Str → Value
  nested : Value

unfoldable pub value_eq : Value → Value → Bool
value_eq (text s) (text t) = str_eq s t
value_eq (scalar s) (scalar t) = str_eq s t
value_eq nested nested = true
value_eq _ _ = false

pub value_eq_iff : (v w : Value) → (value_eq v w ≡ true) ↔ (v ≡ w)
unfolding value_eq
value_eq_iff (text s) (text t) = ground (arith, str_eq_iff s t)
value_eq_iff (text s) (scalar t) = ground arith
value_eq_iff (text s) nested = ground arith
value_eq_iff (scalar s) (text t) = ground arith
value_eq_iff (scalar s) (scalar t) = ground (arith, str_eq_iff s t)
value_eq_iff (scalar s) nested = ground arith
value_eq_iff nested (text t) = ground arith
value_eq_iff nested (scalar t) = ground arith
value_eq_iff nested nested = ground arith

instance abbrev pub value_Eq : Eq Value
value_Eq = record { beq = value_eq; beq_iff = value_eq_iff }

abbrev pub Metadata : Type 0
Metadata = Dict Str Value

-- An `input` or `output`.
pub data Payload : Type 0 where
  sent_messages : List Message → Payload
  reply : Str → Payload

-- `Trace`, without the span that the Langfuse backend adds to its metadata
pub record Trace : Type 0 where
  pub trace_id : Str
  pub name : Str
  pub metadata : Metadata

pub data ObservationType : Type 0 where
  span generation : ObservationType

-- A call of `start_observation`.
pub record Sent : Type 0 where
  pub trace_id : Str
  pub name : Str
  pub as_type : ObservationType
  pub model : Option Str
  pub input : Option Payload
  pub output : Option Payload
  pub usage_details : Option (Dict Str ℕ)
  pub metadata : Metadata

pub data ScoreValue (fl : Float) : Type 0 where
  number : fl.F → ScoreValue fl
  words : Str → ScoreValue fl
  flag : Bool → ScoreValue fl

-- A call of `create_score`.
pub record SentScore (fl : Float) : Type 0 where
  pub trace_id : Str
  pub observation_id : Option Str
  pub name : Str
  pub value : ScoreValue fl
  pub comment : Option Str

pub record Client (fl : Float) : Type 0 where
  pub observations : List Sent
  pub scores : List (SentScore fl)

abbrev or_null : Option Str → Value
or_null none = scalar (codes "null")
or_null (some s) = text s

abbrev or_empty : Option Metadata → Metadata
or_empty none = []
or_empty (some d) = d

-- `{**d, **e}`
unfoldable pub merge : Metadata → Metadata → Metadata
merge d [] = d
merge d ((k, v) ∷ e) = merge (insert k v d) e

abbrev count_at : Str → Dict Str ℕ → ℕ
count_at k d = elim (lookup k d) [ none ↦ 0 | some n ↦ n ]

unfoldable pub usage_details_of : Option (Dict Str ℕ) → Option (Dict Str ℕ)
usage_details_of none = none
usage_details_of (some []) = none
usage_details_of (some (e ∷ usage)) = some (
    (codes "input", count_at (codes "input_tokens") (e ∷ usage))
    ∷ (codes "output", count_at (codes "output_tokens") (e ∷ usage))
    ∷ (codes "total", count_at (codes "total_tokens") (e ∷ usage))
    ∷ [])

module _ {fl : Float} where
  open fl use {of_ℕ}

  -- `LangfuseBackend.trace` up to its `yield`, with the id that the client draws
  unfoldable pub start_trace :
      (trace_id name : Str) (input : Option Payload) (user_id session_id : Option Str)
      (metadata : Option Metadata)
      → Client fl
      → Trace × Client fl
  unfolding merge
  start_trace trace_id name input user_id session_id metadata c = (
    record { trace_id = trace_id; name = name; metadata = or_empty metadata },
    record c {
      observations =
          c.observations
          ++ record {
            trace_id = trace_id;
            name = name;
            as_type = span;
            model = none;
            input = input;
            output = none;
            usage_details = none;
            metadata =
                merge
                  ((codes "user_id", or_null user_id)
                    ∷ (codes "session_id", or_null session_id)
                    ∷ [])
                  (or_empty metadata);
          }
            ∷ [];
    },
  )

  -- `LangfuseBackend.log_generation`
  unfoldable pub log_generation :
      (trace_id name model : Str) (input output : Payload) (usage : Option (Dict Str ℕ))
      (metadata : Option Metadata)
      → Client fl
      → Client fl
  unfolding usage_details_of
  log_generation trace_id name model input output usage metadata c = record c {
    observations =
        c.observations
        ++ record {
          trace_id = trace_id;
          name = name;
          as_type = generation;
          model = some model;
          input = some input;
          output = some output;
          usage_details = usage_details_of usage;
          metadata = or_empty metadata;
        }
          ∷ [];
  }

  abbrev score_value : ScoreValue fl → ScoreValue fl
  score_value (flag true) = number (of_ℕ 1)
  score_value (flag false) = number (of_ℕ 0)
  score_value v = v

  -- `LangfuseBackend.score`
  unfoldable pub submit_score :
      (trace_id name : Str) (value : ScoreValue fl) (observation_id comment : Option Str)
      → Client fl
      → Client fl
  submit_score trace_id name value observation_id comment c = record c {
    scores =
        c.scores
        ++ record {
          trace_id = trace_id;
          observation_id = observation_id;
          name = name;
          value = score_value value;
          comment = comment;
        }
          ∷ [];
  }

-- `NoopBackend.trace`, with the id that `uuid4` draws
unfoldable pub noop_trace : (trace_id name : Str) (metadata : Option Metadata) → Trace
noop_trace trace_id name metadata = record {
  trace_id = trace_id;
  name = name;
  metadata = or_empty metadata;
}
