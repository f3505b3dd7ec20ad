-- ===== src/Lib.antt =====
-- LLMOps platform: a gateway to language models with managed prompts, a scoring engine, tuning
-- experiments and background workers, in Python over PostgreSQL and Redis.
--
-- How the parts interact. A request passes the middleware (src/llmops/api/middleware and
-- src/llmops/metrics.py: the request id, the counting of requests, the API key, then the rate limit)
-- and reaches an endpoint of src/llmops/api/v1. That for completions puts a managed prompt in front
-- of the messages and calls the gateway (src/llmops/core/gateway): the router asks the registry for
-- a provider, runs it under a trace of the observability backend and charges the calling service at
-- the cost tracker, which keeps hashes in Redis or reads what Langfuse has been told. Prompts and
-- experiments are rows of tables that `PromptManager` and `ExperimentRunner` change, each method in
-- one session. A scoring pipeline runs scorers on a sample, for an endpoint or for the scoring
-- worker, which takes jobs from a Redis list; the composite scorer runs pipelines itself. The tuning
-- worker looks at the running experiments again and again. The endpoints turn the exceptions of the
-- core into status codes. The migration creates the tables.
--
-- Which file models what:
--   Prelude          texts as lists of code points, results and exceptions, dictionaries, floats as
--                    an interface (`Float`), units of work (`Tx`), stable sorting, table rows
--   Tuning.Base      src/llmops/core/tuning/base.py, src/llmops/db/models/experiment.py
--   Tuning.AbTest    src/llmops/core/tuning/ab_test.py
--   Tuning.Space, Tuning.Random
--                    src/llmops/core/tuning/parameter_space.py
--   Tuning.Results   src/llmops/core/tuning/experiment.py, the aggregation of `get_results`
--   Tuning.Rows, Tuning.Experiment
--                    src/llmops/core/tuning/experiment.py, `ExperimentRunner`, method by method
--   Tuning.Repository
--                    src/llmops/db/repositories/experiment.py
--   Prompts.Base     src/llmops/db/models/prompt.py
--   Prompts.Manager  src/llmops/core/prompts/manager.py, `PromptManager`, method by method
--   Prompts.Store    what the abstract `PromptStore` of src/llmops/core/prompts/base.py stands for: a
--                    specification, which `PromptManager` is measured against
--   Prompts.Renderer src/llmops/core/prompts/renderer.py
--   Prompts.Repository
--                    src/llmops/db/repositories/prompt.py
--   Middleware.Auth  src/llmops/api/middleware/auth.py, with `api_key_list` of src/llmops/config.py
--   Middleware.RateLimit
--                    src/llmops/api/middleware/rate_limit.py
--   Gateway.Schemas, Gateway.Registry
--                    schemas.py, base.py and registry.py of src/llmops/core/gateway, and
--                    `_register_providers` of src/llmops/main.py
--   Gateway.Providers
--                    anthropic.py and gemini.py of src/llmops/core/gateway
--   Gateway.Router   src/llmops/core/gateway/router.py
--   Gateway.Cost     src/llmops/core/gateway/cost_tracker.py; its child Traffic puts it under the
--                    router
--   Observability    src/llmops/core/observability
--   Gateway.Langfuse src/llmops/core/gateway/langfuse_cost_tracker.py; its child Attribution puts it
--                    under the router and the Langfuse backend
--   Scoring.Base     base.py and registry.py of src/llmops/core/scoring
--   Scoring.Pipeline src/llmops/core/scoring/pipeline.py
--   Scoring.Rules, Scoring.Judge, Scoring.Embedding, Scoring.Composite
--                    rule_based.py, llm_judge.py, embedding.py and composite.py of
--                    src/llmops/core/scoring/strategies
--   Scoring.Rows, Scoring.Repository
--                    src/llmops/db/models/score.py, src/llmops/db/repositories/score.py
--   Workers.Scoring, Workers.Tuning
--                    scoring_worker.py and tuning_worker.py of src/llmops/workers
--   Api.Gateway, Api.Prompts, Api.Tuning, Api.Scoring, Api.Status, Api.Answers
--                    gateway.py, prompts.py, tuning.py and scoring.py of src/llmops/api/v1, with the
--                    schemas of src/llmops/api/schemas that they use
--   Metrics          src/llmops/metrics.py, the labels of paths and the counting of requests
--   App              src/llmops/main.py, `create_app`, with src/llmops/dependencies.py,
--                    src/llmops/api/middleware/request_context.py, src/llmops/api/v1/admin.py, and
--                    the global cost tracker and rate limiter
--   Migrations       src/llmops/db/migrations/versions
--   Tests            the theorems at concrete inputs
-- The files below a component's file hold its lemmas and theorems.
--
-- State and effects. A method that runs in a database session is a function from the tables to a
-- result with the new tables; where it raises, the tables stay, as no commit is made. The endpoint
-- that evaluates commits in its middle, so it gives its tables back also where it raises later.
-- Sessions run one after another. Redis is an association list, and the commands of one pipeline
-- are executed together. A call that raises has had no effect of its own: a command of Redis whose
-- reply is lost, but which was executed, is left out. What the router does to its backends is a
-- list of events, any of which may be refused, the way back from the cost tracker's `record` and
-- the end of the trace included; what the Langfuse client is told is a list, too. A stream of
-- chunks is read to its end: consumers that leave early are left out. The scoring worker's `brpop`,
-- `json.loads`, pipeline, commit, submissions, flush and `lpush` may each raise in each attempt.
-- Ids and times that the database or `uuid4` draws are arguments. Integers are natural numbers:
-- Python's do not wrap around, and no code modelled here makes them negative. Floats are a type
-- with the operations that the code calls, and with no laws but those that a theorem names; the
-- tests run on numbers with four decimals. Python's `sum` of floats is a fold from the left; from
-- Python 3.12 on it is compensated, which may change the last digit.
--
-- The columns. Version numbers that are looked up are held against the range of their column, and so
-- are the winner of an experiment and the variant and the trace of a trial against theirs of 255
-- characters. Left out are the widths of other columns (names of prompts, experiments and pipelines,
-- traces of scores), texts that the driver refuses, with the NUL character or a lone surrogate,
-- numbers in JSON that are NaN or infinite, and more versions of a prompt than can be numbered.
--
-- Parameters, since their code is not in the repository: SHA-256, the random generator, the clients
-- of the model vendors, of Langfuse and of its observations API, the methods of Jinja2's
-- environment, the keys that a Redis scan gives, whether Redis is in reach, which steps of the
-- scoring worker raise, which attempts of the tuning worker the database breaks off, when the
-- signal to stop arrives, lower-casing, the digits of `str.isdigit`, regular expressions of users,
-- the JSON texts of numbers, `json.loads`, `float`, `str.format` and `math.sqrt`.
--
-- Fuel. The loop that expands a continuous range takes fuel; any fuel above the number of values
-- within the range is enough. The scoring worker's loop takes a number of rounds; as many as there
-- are attempts left for the jobs that wait are enough to empty its queue. The loop over the pages of
-- observations needs as many rounds as there are pages. A check of an experiment has at most four
-- attempts and is run with fuel for five; the tuning worker's loop needs a round for each second
-- that is left until its flag is set, and one more; its queries take no time.
--
-- Not modelled: logging, the sessions of the database, the start-up of the application and the
-- reading of its settings, latency histograms and the counters of the workers, which nothing reads,
-- the runner of the migrations, and the deployment files. They are calls of frameworks with no
-- logic of their own.
pub mod Prelude
pub mod Tuning
pub mod Prompts
pub mod Middleware
pub mod Metrics
pub mod Observability
pub mod Gateway
pub mod Scoring
pub mod Workers
pub mod Api
pub mod App
pub mod Migrations
mod Tests
