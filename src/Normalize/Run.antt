-- ===== src/Normalize/Run.antt =====
-- src/jobs/pipeline.py: `run_normalize`, one source after the other. What the gate of a source sees depends
-- on the tables that the sources before it left. An exception that leaves `_normalize_source` leaves the
-- run open.
pub mod Closed
mod Tests
use bisakerja_scraper.Prelude.{
  ℕ, ◌+◌, String, Option, none, some, Bool, List, [], ◌∷◌, ◌>>=◌, if◌then◌else◌,
}
use bisakerja_scraper.Prelude.Text.{member}
use bisakerja_scraper.Models.{RawJob}
use bisakerja_scraper.Runs.{RunCounts, RunStatus, ScrapeRun, SourcePipelineResult, finish_stage_run}
use bisakerja_scraper.Normalize.{Stage, Work, SourceResult}
use bisakerja_scraper.Normalize.Lookup.{Lookup, gate_of}
use bisakerja_scraper.Normalize.Ai.{Ai}
use bisakerja_scraper.Normalize.Batch.{normalize_source_with}

-- A source with its stored raw jobs.
pub record Source : Type 0 where
  pub stage : Stage
  pub ai : Option Ai
  pub lookup : Lookup
  pub raw_jobs : List RawJob

-- `unique_sources_by_platform`, after the platforms that were seen.
pub unique_from : (seen : List String) → List Source → List Source
unique_from seen [] = []
unique_from seen (source ∷ sources) =
    let platform = source.stage.source_platform in
    let skipped = unique_from seen sources in
    let rest = unique_from (platform ∷ seen) sources in
    if member platform seen then skipped else source ∷ rest

pub unique_sources_by_platform : List Source → List Source
unique_sources_by_platform sources = unique_from [] sources

abbrev pub pipeline_result : Source → SourceResult → SourcePipelineResult
pipeline_result source result = record {
  source_platform = source.stage.source_platform;
  keyword = none;
  counts = result.counts;
  errors = result.errors;
}

-- The loop of `run_normalize`; `none` is an exception.
pub run_sources : List Source → Work → Option (List SourcePipelineResult × Work)
run_sources [] work = some ([], work)
run_sources (source ∷ sources) work = do
  gate ← gate_of source.lookup source.raw_jobs work
  (result, work') ← normalize_source_with source.stage source.ai gate source.raw_jobs work
  (results, work'') ← run_sources sources work'
  some (pipeline_result source result ∷ results, work'')

-- How `run_normalize` ends: with a result's status and counts and the run's row, or by an exception, which
-- leaves the row as it was.
pub data NormalizeEnd : Type 0 where
  closed : RunStatus × RunCounts × ScrapeRun → Work → NormalizeEnd
  left_open : ScrapeRun → NormalizeEnd

abbrev pub end_of : (now : ℕ) → ScrapeRun → Option (List SourcePipelineResult × Work) → NormalizeEnd
end_of now run none = left_open run
end_of now run (some (results, work)) = closed (finish_stage_run results now run) work

-- `run_normalize` of a run that was started.
pub run_normalize : List Source → (now : ℕ) → ScrapeRun → Work → NormalizeEnd
run_normalize sources now run work =
    end_of now run (run_sources (unique_sources_by_platform sources) work)
