-- ===== src/Runs/Tests.antt =====
-- Runs of the merging on two sources, one of which failed.
use bisakerja_scraper.Prelude.{◌≡◌, refl, none, some, true, List, [], ◌∷◌}
use bisakerja_scraper.Runs.{
  RunErrorSummary, SourcePipelineResult, ScrapeRun, RunStage, no_counts, start_run,
  merge_source_results, merge_from, finish_stage_run, partial_run,
}
use bisakerja_scraper.Runs.Merge.{
  total, totals, all_errors, IsClosed, merge_source_results-totals, finish_stage_run-closes,
}

abbrev failure : RunErrorSummary
failure = record {
  source_platform = "glints";
  category = "fetch_error";
  message = "timeout";
  external_id = none;
  retryable = some true;
}

abbrev results : List SourcePipelineResult
results =
    record {
      source_platform = "dealls";
      keyword = some "java";
      counts = record no_counts { fetched = 3; normalized = 2; skipped = 1 };
      errors = [];
    }
    ∷ record {
      source_platform = "glints";
      keyword = none;
      counts = record no_counts { fetched = 1 };
      errors = failure ∷ [];
    }
    ∷ []

abbrev run : ScrapeRun
run = start_run "r-scrape" "all" RunStage.scrape none 10

merged_fetched : (merge_source_results results).counts.fetched ≡ 4
unfolding merge_source_results merge_from
merged_fetched = refl

closed_partial : (finish_stage_run results 20 run).2.error_category ≡ some "fetch_error"
unfolding finish_stage_run merge_source_results merge_from partial_run
closed_partial = refl

merge_source_results-totals_example :
    ((merge_source_results results).counts ≡ totals results)
    × ((merge_source_results results).errors ≡ all_errors results)
merge_source_results-totals_example = merge_source_results-totals results

finish_stage_run-closes_example :
    let (status, counts, run') = finish_stage_run results 20 run in
    IsClosed (all_errors results) status run'
    × (counts ≡ totals results)
    × (run'.status ≡ status)
    × (run'.finished_at ≡ some 20)
    × (run'.raw_records_count ≡ total (λ counts. counts.fetched) results)
    × (run'.normalized_records_count ≡ total (λ counts. counts.normalized) results)
finish_stage_run-closes_example = finish_stage_run-closes results 20 run
