-- ===== src/Normalize.antt =====
-- src/jobs/pipeline.py: `_normalize_source` without an AI client, that is the gate, the loop over the
-- eligible raw jobs with the retry of database operations, and the quarantine of what fails. The
-- source's mapping, and how often a job's upsert meets an OperationalError, are parameters.
pub mod Counts
pub mod Handled
pub mod Ai
pub mod Lookup
pub mod Batch
pub mod Run
pub mod Lost
mod Tests
use bisakerja_scraper.Prelude.{
  ℕ, zero, suc, ◌+◌, ◌-◌, String, Option, none, some, Bool, true, false, not, ◌&&◌, List, [], ◌∷◌,
  ◌++◌, ◌==◌, if◌then◌else◌, length, keep,
}
use bisakerja_scraper.Prelude.Json.{Json, Items, Fields, get_field, truthy}
use bisakerja_scraper.Models.{NormalizedJob, RawJob}
use bisakerja_scraper.Runs.{RunCounts, RunErrorSummary, no_counts}
use bisakerja_scraper.Persistence.{CanonicalJob, upsert_normalized_job}
use bisakerja_scraper.Quarantine.{Quarantine, Failure, record_raw_job_failure, resolve_for_raw_job}
use bisakerja_scraper.Eligibility.{Scope, Decisions, Texts, eligible_raw_jobs}

-- An exception: a ScraperError with its details, or another with its class, text and `retryable`.
pub data Raised : Type 0 where
  scraper_error :
      (code message : String) (external_id : Option String) (retryable : Bool) (details : Fields)
      → Raised
  other_error : (class_name message : String) (retryable : Bool) → Raised

pub error_summary : (source_platform : String) → Raised → RunErrorSummary
error_summary source_platform (scraper_error code message external_id retryable details) = record {
  source_platform = source_platform;
  category = code;
  message = message;
  external_id = external_id;
  retryable = some retryable;
}
error_summary source_platform (other_error class_name message retryable) = record {
  source_platform = source_platform;
  category = class_name;
  message = message;
  external_id = none;
  retryable = none;
}

-- A value in a condition.
abbrev json_truthy : Json → Bool
json_truthy Json.null = false
json_truthy (Json.bool b) = b
json_truthy (Json.num n) = not (n == 0)
json_truthy (Json.str text) = truthy text
json_truthy (Json.arr Items.nil) = false
json_truthy (Json.arr (Items.cons x xs)) = true
json_truthy (Json.obj Fields.end) = false
json_truthy (Json.obj (Fields.field k v rest)) = true

abbrev text_only : Option Json → Option String
text_only (some (Json.str text)) = some text
text_only _ = none

-- `a or b`, of two values that may be missing.
abbrev value_or : Option Json → Option Json → Option Json
value_or none other = other
value_or (some value) other = if json_truthy value then some value else other

pub source_field_path_from : Raised → Option String
source_field_path_from (scraper_error code message external_id retryable details) =
    text_only (value_or (get_field "source_field_path" details) (get_field "field" details))
source_field_path_from (other_error class_name message retryable) = none

pub retryable_from : Raised → Bool
retryable_from (scraper_error code message external_id retryable details) = retryable
retryable_from (other_error class_name message retryable) = retryable

-- The tables that the stage writes, as the session sees them and as the last commit left them.
pub record Stores : Type 0 where
  pub normalized_jobs : List NormalizedJob
  pub quarantine : Quarantine

pub record Work : Type 0 where
  pub current : Stores
  pub committed : Stores

abbrev pub rolled_back : Work → Work
rolled_back work = record work { current = work.committed }

-- `_db_operation_with_retry`, on the attempts that are left and the number of OperationalErrors that the
-- operation raises in a row; `none` raises the last of them.
pub db_operation_with_retry : (attempts errors : ℕ) → (Stores → Stores) → Work → Option Work
db_operation_with_retry zero errors operation work = none
db_operation_with_retry (suc attempts) zero operation work =
    some (record work { current = operation work.current })
db_operation_with_retry (suc attempts) (suc errors) operation work =
    db_operation_with_retry attempts errors operation (rolled_back work)

pub data Mapped : Type 0 where
  mapped : CanonicalJob → Mapped
  failed : Raised → Mapped

-- What surrounds the stage.
pub record Stage : Type 0 where
  pub source_platform : String
  pub map_raw_job : RawJob → Mapped
  pub operational_errors : RawJob → ℕ
  pub operational_error : Raised
  pub new_id : RawJob → String
  pub now : ℕ
  pub has_quarantine : Bool

-- The variables of the loop.
pub record Progress : Type 0 where
  pub work : Work
  pub counts : RunCounts
  pub errors : List RunErrorSummary

abbrev pub quarantined : Stage → RawJob → Raised → Quarantine → Quarantine
quarantined s raw_job e rows =
    let summary = error_summary s.source_platform e in
    if s.has_quarantine
    then record_raw_job_failure raw_job
        (record {
          error_category = summary.category;
          error_message = summary.message;
          source_field_path = source_field_path_from e;
          retryable = retryable_from e;
        })
        rows
    else rows

-- `_record_normalize_failure`, which the `except` of the loop repeats.
abbrev pub note_failure : Stage → RawJob → Raised → Work → Progress → Progress
note_failure s raw_job e work p = record p {
  work = record work {
    current = record work.current { quarantine = quarantined s raw_job e work.current.quarantine };
  };
  errors = p.errors ++ error_summary s.source_platform e ∷ [];
  counts = record p.counts { skipped = p.counts.skipped + 1 };
}

abbrev pub released : Stage → RawJob → Quarantine → Quarantine
released s raw_job rows =
    if s.has_quarantine then (resolve_for_raw_job raw_job.id s.now rows).1 else rows

abbrev pub note_success : Stage → RawJob → Work → Progress → Progress
note_success s raw_job work p = record p {
  work = record work {
    current = record work.current { quarantine = released s raw_job work.current.quarantine };
  };
  counts = record p.counts {
    normalized = p.counts.normalized + 1;
    persisted = p.counts.persisted + 1;
  };
}

-- The operation of `_upsert_normalized_job_with_retry`.
abbrev pub upsert_operation : Stage → RawJob → CanonicalJob → Stores → Stores
upsert_operation s raw_job job stores = record stores {
  normalized_jobs =
      (upsert_normalized_job (s.new_id raw_job) (some raw_job.id) job stores.normalized_jobs).2;
}

-- When both attempts failed, the session is back at the last commit.
abbrev pub after_upsert : Stage → RawJob → Option Work → Progress → Progress
after_upsert s raw_job (some work) p = note_success s raw_job work p
after_upsert s raw_job none p = note_failure s raw_job s.operational_error (rolled_back p.work) p

abbrev pub normalize_mapped : Stage → RawJob → Mapped → Progress → Progress
normalize_mapped s raw_job (failed e) p = note_failure s raw_job e p.work p
normalize_mapped s raw_job (mapped job) p =
    after_upsert s raw_job
      (db_operation_with_retry 2 (s.operational_errors raw_job) (upsert_operation s raw_job job)
        p.work)
      p

-- The body of the loop.
pub normalize_one : Stage → RawJob → Progress → Progress
normalize_one s raw_job p = normalize_mapped s raw_job (s.map_raw_job raw_job) p

pub normalize_all : Stage → List RawJob → Progress → Progress
normalize_all s [] p = p
normalize_all s (raw_job ∷ rest) p = normalize_all s rest (normalize_one s raw_job p)

-- `eligibility_resolver`, once the backend's identities are looked up, with the table of its decisions, if
-- there is one. The errors of that lookup are in Normalize.Lookup.
pub data Gate : Type 0 where
  open_gate : Gate
  resolver : Scope → Decisions → Gate

abbrev pub pass : Gate → List RawJob → List RawJob
pass open_gate raw_jobs = raw_jobs
pass (resolver scope decisions) raw_jobs =
    eligible_raw_jobs (record scope { raw_jobs = raw_jobs }) decisions

pub record SourceResult : Type 0 where
  pub status_is_failed : Bool
  pub counts : RunCounts
  pub errors : List RunErrorSummary

abbrev any_error : List RunErrorSummary → Bool
any_error [] = false
any_error (e ∷ errors) = true

-- The variables before the loop.
abbrev pub started : (raw_jobs eligible : List RawJob) → Work → Progress
started raw_jobs eligible work = record {
  work = work;
  counts = record no_counts {
    fetched = length raw_jobs;
    skipped = length raw_jobs - length eligible;
  };
  errors = [];
}

-- The end of `_normalize_source`, with its commit.
abbrev pub finished : Progress → SourceResult × Work
finished p = (
  record {
    status_is_failed = any_error p.errors;
    counts = record p.counts { parsed = p.counts.normalized };
    errors = p.errors;
  },
  record { current = p.work.current; committed = p.work.current },
)

-- `_normalize_source` of the stored raw jobs, without an AI client.
pub normalize_source : Stage → Gate → List RawJob → Work → SourceResult × Work
normalize_source s gate raw_jobs work =
    let eligible = pass gate raw_jobs in
    finished (normalize_all s eligible (started raw_jobs eligible work))
