-- ===== src/Normalize/Run/Closed.antt =====
-- A run of the stage is closed with an account of all raw jobs of its sources.
use bisakerja_scraper.Prelude.{ℕ, ◌+◌, ◌≡◌, List, [], ◌∷◌, length}
use bisakerja_scraper.Runs.{RunCounts}
use bisakerja_scraper.Normalize.Lookup.{Answers}
use bisakerja_scraper.Normalize.Ai.{Ai}
use bisakerja_scraper.Normalize.Batch.Sound.{CopesWith}
use bisakerja_scraper.Normalize.Run.{Source}

-- With an AI client, its batches have a positive size, and for each raw job of the source the upsert meets
-- at most one OperationalError and the log none; and the lookup of the backend's identities is not
-- required, or is configured, with a resolver, and answers.
abbrev pub IsSteady : Source → Type 0
IsSteady source = CopesWith source.stage source.ai source.raw_jobs × Answers source.lookup

-- The number of the raw jobs of all sources.
abbrev pub all_raw_jobs : List Source → ℕ
all_raw_jobs [] = 0
all_raw_jobs (source ∷ sources) = length source.raw_jobs + all_raw_jobs sources

-- Counts that add up to a number of raw jobs.
abbrev pub IsBalanced : ℕ → RunCounts → Type 0
IsBalanced n counts =
    (counts.fetched ≡ n)
    × (counts.normalized + counts.skipped ≡ n)
    × (counts.persisted ≡ counts.normalized)
    × (counts.parsed ≡ counts.normalized)
