-- ===== src/Runs/Merge.antt =====
-- `merge_source_results` and the end of a stage run, over all sources.
use bisakerja_scraper.Prelude.{
  ℕ, ◌+◌, ◌≡◌, ◌∙◌, sym, ap, subst, none, some, List, [], ◌∷◌, ◌++◌, arith,
}
use mathlib.Core.List.{append_assoc, append-nil}
use bisakerja_scraper.Runs.{
  RunCounts, RunErrorSummary, RunSummary, SourcePipelineResult, ScrapeRun, RunStatus, completed,
  partial, add_counts, merge_from, merge_source_results, finish_stage_run, complete_run,
  partial_run,
}

-- The sum of a counter over the sources.
abbrev pub total : (RunCounts → ℕ) → List SourcePipelineResult → ℕ
total counter [] = 0
total counter (result ∷ results) = counter result.counts + total counter results

abbrev pub totals : List SourcePipelineResult → RunCounts
totals results = record {
  fetched = total (λ counts. counts.fetched) results;
  parsed = total (λ counts. counts.parsed) results;
  normalized = total (λ counts. counts.normalized) results;
  persisted = total (λ counts. counts.persisted) results;
  skipped = total (λ counts. counts.skipped) results;
}

-- The sources' errors, in the order of the sources.
abbrev pub all_errors : List SourcePipelineResult → List RunErrorSummary
all_errors [] = []
all_errors (result ∷ results) = result.errors ++ all_errors results

merge_from-counts :
    (results : List SourcePipelineResult) (summary : RunSummary)
    → (merge_from results summary).counts ≡ add_counts summary.counts (totals results)
unfolding merge_from
merge_from-counts [] summary = ground arith
merge_from-counts (result ∷ results) summary = merge_from-counts results _ ∙ ground arith

merge_from-errors :
    (results : List SourcePipelineResult) (summary : RunSummary)
    → (merge_from results summary).errors ≡ summary.errors ++ all_errors results
unfolding merge_from
merge_from-errors [] summary = sym (append-nil summary.errors)
merge_from-errors (result ∷ results) summary =
    merge_from-errors results _ ∙ append_assoc summary.errors result.errors (all_errors results)

-- `merge_source_results` adds up each counter over the sources, and lists the sources' errors in the
-- order of the sources.
pub merge_source_results-totals :
    (results : List SourcePipelineResult)
    → ((merge_source_results results).counts ≡ totals results)
      × ((merge_source_results results).errors ≡ all_errors results)
unfolding merge_source_results
merge_source_results-totals results =
    (merge_from-counts results _ ∙ ground arith, merge_from-errors results _)

-- How the run's row is closed, for the errors of all sources.
abbrev pub IsClosed : List RunErrorSummary → RunStatus → ScrapeRun → Type 0
IsClosed [] status run =
    (status ≡ completed) × (run.error_category ≡ none) × (run.error_message ≡ none)
IsClosed (error ∷ errors) status run =
    (status ≡ partial)
    × (run.error_category ≡ some error.category)
    × (run.error_message ≡ some error.message)

finish_stage_run-IsClosed :
    (results : List SourcePipelineResult) (now : ℕ) (run : ScrapeRun)
    → let (status, counts, run') = finish_stage_run results now run in
      IsClosed (merge_source_results results).errors status run'
unfolding finish_stage_run complete_run partial_run
finish_stage_run-IsClosed results now run = ground arith

finish_stage_run-columns :
    (results : List SourcePipelineResult) (now : ℕ) (run : ScrapeRun)
    → let (status, counts, run') = finish_stage_run results now run in
      let merged = (merge_source_results results).counts in
      (counts ≡ merged)
      × (run'.status ≡ status)
      × (run'.finished_at ≡ some now)
      × (run'.raw_records_count ≡ merged.fetched)
      × (run'.normalized_records_count ≡ merged.normalized)
unfolding finish_stage_run complete_run partial_run
finish_stage_run-columns results now run = ground arith

-- At its end a stage run is closed by the errors of its sources: without any it is completed and its
-- row carries no error, and otherwise it is partial and its row carries the first error of the first
-- source that has one. The result and the row agree on the status, the row is finished at the given
-- time, the result's counts are the sums over the sources, and the row's counts are those of fetched and
-- normalised records.
pub finish_stage_run-closes :
    (results : List SourcePipelineResult) (now : ℕ) (run : ScrapeRun)
    → let (status, counts, run') = finish_stage_run results now run in
      IsClosed (all_errors results) status run'
      × (counts ≡ totals results)
      × (run'.status ≡ status)
      × (run'.finished_at ≡ some now)
      × (run'.raw_records_count ≡ total (λ counts. counts.fetched) results)
      × (run'.normalized_records_count ≡ total (λ counts. counts.normalized) results)
finish_stage_run-closes results now run =
    let (merged_counts, merged_errors) = merge_source_results-totals results in
    let (counts, status, finished, fetched, normalized) =
      finish_stage_run-columns results now run in
    (
      subst
          (λ errors.
            IsClosed errors (finish_stage_run results now run).0
              (finish_stage_run results now run).2)
          merged_errors (finish_stage_run-IsClosed results now run),
      counts ∙ merged_counts,
      status,
      finished,
      fetched ∙ ap (λ c. c.fetched) merged_counts,
      normalized ∙ ap (λ c. c.normalized) merged_counts,
    )
