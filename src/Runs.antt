-- ===== src/Runs.antt =====
-- src/modules/runs/tracker.py, and from src/jobs/pipeline.py the merging of the sources' results and
-- the end of a stage run. A run is one row; the clock's reading is an argument.
pub mod Merge
mod Tests
use bisakerja_scraper.Prelude.{
  ℕ, ◌+◌, String, Option, none, some, Bool, List, [], ◌∷◌, ◌++◌, if◌then◌else◌, same_text,
}
use bisakerja_scraper.Prelude.Json.{Json, Items, Fields, truthy}
use bisakerja_scraper.Prelude.Text.{join_text}

pub data RunStatus : Type 0 where
  started completed failed partial : RunStatus

pub data RunStage : Type 0 where
  scrape normalize enrich sync notify_handoff pipeline : RunStage

pub record RunCounts : Type 0 where
  pub fetched : ℕ
  pub parsed : ℕ
  pub normalized : ℕ
  pub persisted : ℕ
  pub skipped : ℕ

abbrev pub no_counts : RunCounts
no_counts = record { fetched = 0; parsed = 0; normalized = 0; persisted = 0; skipped = 0 }

-- `RunCounts.model_dump`
abbrev pub dump_counts : RunCounts → Json
dump_counts counts = Json.obj (
    Fields.field "fetched" (Json.num counts.fetched) (
      Fields.field "parsed" (Json.num counts.parsed) (
        Fields.field "normalized" (Json.num counts.normalized) (
          Fields.field "persisted" (Json.num counts.persisted)
            (Fields.field "skipped" (Json.num counts.skipped) Fields.end)))))

pub record RunErrorSummary : Type 0 where
  pub source_platform : String
  pub category : String
  pub message : String
  pub external_id : Option String
  pub retryable : Option Bool

abbrev text_or_null : Option String → Json
text_or_null none = Json.null
text_or_null (some text) = Json.str text

abbrev bool_or_null : Option Bool → Json
bool_or_null none = Json.null
bool_or_null (some b) = Json.bool b

-- `RunErrorSummary.model_dump`
abbrev pub dump_error : RunErrorSummary → Json
dump_error error = Json.obj (
    Fields.field "sourcePlatform" (Json.str error.source_platform) (
      Fields.field "category" (Json.str error.category) (
        Fields.field "message" (Json.str error.message) (
          Fields.field "externalId" (text_or_null error.external_id)
            (Fields.field "retryable" (bool_or_null error.retryable) Fields.end)))))

pub record RunSummary : Type 0 where
  pub counts : RunCounts
  pub errors : List RunErrorSummary
  pub source_counts : List (String × RunCounts)

abbrev dump_errors : List RunErrorSummary → Items
dump_errors [] = Items.nil
dump_errors (error ∷ errors) = Items.cons (dump_error error) (dump_errors errors)

abbrev dump_source_counts : List (String × RunCounts) → Fields
dump_source_counts [] = Fields.end
dump_source_counts ((key, counts) ∷ rest) =
    Fields.field key (dump_counts counts) (dump_source_counts rest)

-- `RunSummary.model_dump`
abbrev pub dump_summary : RunSummary → Json
dump_summary summary = Json.obj (
    Fields.field "counts" (dump_counts summary.counts) (
      Fields.field "errors" (Json.arr (dump_errors summary.errors)) (
        Fields.field "sourceCounts" (Json.obj (dump_source_counts summary.source_counts))
          Fields.end)))

pub record ScrapeRun : Type 0 where
  pub id : String
  pub source_platform : String
  pub stage : RunStage
  pub status : RunStatus
  pub started_at : ℕ
  pub finished_at : Option ℕ
  pub raw_records_count : ℕ
  pub normalized_records_count : ℕ
  pub error_category : Option String
  pub error_message : Option String
  pub metadata_json : Option Fields

abbrev or_empty : Option Fields → Fields
or_empty none = Fields.end
or_empty (some fields) = fields

-- `start_run`; the identifier is given, or made by the database model.
pub start_run : (id source_platform : String) → RunStage → Option Fields → (now : ℕ) → ScrapeRun
start_run id source_platform stage metadata now = record {
  id = id;
  source_platform = source_platform;
  stage = stage;
  status = started;
  started_at = now;
  finished_at = none;
  raw_records_count = 0;
  normalized_records_count = 0;
  error_category = none;
  error_message = none;
  metadata_json = some (or_empty metadata);
}

-- `{**fields, key: value}`
unfoldable pub put : (key : String) → Json → Fields → Fields
put key value Fields.end = Fields.field key value Fields.end
put key value (Fields.field k v rest) =
    let rest' = put key value rest in
    if same_text k key then Fields.field k value rest else Fields.field k v rest'

abbrev with_summary : RunSummary → Option Fields → Option Fields
with_summary summary metadata = some (put "summary" (dump_summary summary) (or_empty metadata))

pub update_summary : RunSummary → ScrapeRun → ScrapeRun
update_summary summary run = record run {
  raw_records_count = summary.counts.fetched;
  normalized_records_count = summary.counts.normalized;
  metadata_json = with_summary summary run.metadata_json;
}

-- `_finish`
abbrev pub finish :
    RunStatus
    → RunSummary
    → (error_category error_message : Option String) → (now : ℕ) → ScrapeRun
    → ScrapeRun
finish status summary error_category error_message now run = record run {
  status = status;
  finished_at = some now;
  raw_records_count = summary.counts.fetched;
  normalized_records_count = summary.counts.normalized;
  error_category = error_category;
  error_message = error_message;
  metadata_json = with_summary summary run.metadata_json;
}

pub complete_run : RunSummary → ℕ → ScrapeRun → ScrapeRun
complete_run summary now run = finish completed summary none none now run

pub fail_run : RunSummary → (error_category error_message : String) → ℕ → ScrapeRun → ScrapeRun
fail_run summary error_category error_message now run =
    finish failed summary (some error_category) (some error_message) now run

abbrev first_category : List RunErrorSummary → Option String
first_category [] = none
first_category (error ∷ errors) = some error.category

abbrev first_message : List RunErrorSummary → Option String
first_message [] = none
first_message (error ∷ errors) = some error.message

pub partial_run : RunSummary → ℕ → ScrapeRun → ScrapeRun
partial_run summary now run =
    finish partial summary (first_category summary.errors) (first_message summary.errors) now run

-- What merging reads of a `SourcePipelineResult`.
pub record SourcePipelineResult : Type 0 where
  pub source_platform : String
  pub keyword : Option String
  pub counts : RunCounts
  pub errors : List RunErrorSummary

abbrev pub add_counts : RunCounts → RunCounts → RunCounts
add_counts a b = record {
  fetched = a.fetched + b.fetched;
  parsed = a.parsed + b.parsed;
  normalized = a.normalized + b.normalized;
  persisted = a.persisted + b.persisted;
  skipped = a.skipped + b.skipped;
}

abbrev keyed_by : (platform : String) → Option String → String
keyed_by platform none = platform
keyed_by platform (some keyword) =
    if truthy keyword then join_text platform (join_text ":" keyword) else platform

-- `source_counts[key] = counts`
pub put_counts : String → RunCounts → List (String × RunCounts) → List (String × RunCounts)
put_counts key counts [] = (key, counts) ∷ []
put_counts key counts ((k, old) ∷ rest) =
    let rest' = put_counts key counts rest in
    if same_text k key then (k, counts) ∷ rest else (k, old) ∷ rest'

-- The loop of `merge_source_results`.
pub merge_from : List SourcePipelineResult → RunSummary → RunSummary
merge_from [] summary = summary
merge_from (result ∷ results) summary = merge_from results (record {
  counts = add_counts summary.counts result.counts;
  errors = summary.errors ++ result.errors;
  source_counts =
      put_counts (keyed_by result.source_platform result.keyword) result.counts
        summary.source_counts;
})

pub merge_source_results : List SourcePipelineResult → RunSummary
merge_source_results results =
    merge_from results (record { counts = no_counts; errors = []; source_counts = [] })

abbrev finish_with :
    List RunErrorSummary → RunSummary → ℕ → ScrapeRun → RunStatus × RunCounts × ScrapeRun
finish_with [] summary now run = (completed, summary.counts, complete_run summary now run)
finish_with (error ∷ errors) summary now run =
    (partial, summary.counts, partial_run summary now run)

-- `_finish_stage_run`, and the end of `run`: the status and the counts of the PipelineResult, and the
-- run's row.
pub finish_stage_run :
    List SourcePipelineResult → (now : ℕ) → ScrapeRun → RunStatus × RunCounts × ScrapeRun
finish_stage_run results now run =
    let summary = merge_source_results results in finish_with summary.errors summary now run
