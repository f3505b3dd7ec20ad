-- ===== src/Tests.antt =====
-- The theorems at concrete inputs, and short runs of the model; one file for each part.
mod Tuning
mod Prompts
mod Middleware
mod Gateway
mod Cost
mod Langfuse
mod Evaluation
mod App
mod TuningWorker
mod Migrations
mod Scoring
mod Workers
mod Api
