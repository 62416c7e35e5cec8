-- ===== src/Quarantine.antt =====
-- src/modules/quarantine/repository.py: the rows of raw jobs that could not be normalised. Rows are only
-- appended, so their order is that of their creation.
pub mod Resolve
pub mod Rows
mod Tests
use bisakerja_scraper.Prelude.{
  ℕ, ◌+◌, String, Option, none, some, Bool, true, false, ◌&&◌, List, [], ◌∷◌, ◌++◌, if◌then◌else◌,
  same_text, length, keep, map,
}
use bisakerja_scraper.Prelude.Json.{take_chars}
use bisakerja_scraper.Models.{RawJob}

pub data QuarantineStatus : Type 0 where
  open_row resolved : QuarantineStatus

pub record QuarantineInput : Type 0 where
  pub source_platform : String
  pub error_category : String
  pub error_message : String
  pub scrape_run_id : Option String
  pub raw_job_id : Option String
  pub external_id : Option String
  pub payload_hash : Option String
  pub source_field_path : Option String
  pub retryable : Bool

pub record NormalizationQuarantine : Type 0 where
  pub scrape_run_id : Option String
  pub raw_job_id : Option String
  pub source_platform : String
  pub external_id : Option String
  pub status : QuarantineStatus
  pub payload_hash : Option String
  pub error_category : String
  pub error_message : String
  pub source_field_path : Option String
  pub retryable : Bool
  pub resolved_at : Option ℕ

abbrev pub quarantine_row : QuarantineInput → NormalizationQuarantine
quarantine_row item = record {
  scrape_run_id = item.scrape_run_id;
  raw_job_id = item.raw_job_id;
  source_platform = item.source_platform;
  external_id = item.external_id;
  status = open_row;
  payload_hash = item.payload_hash;
  error_category = item.error_category;
  error_message = take_chars 500 item.error_message;
  source_field_path = item.source_field_path;
  retryable = item.retryable;
  resolved_at = none;
}

abbrev pub Quarantine : Type 0
Quarantine = List NormalizationQuarantine

-- `record`, whose name is a keyword here.
unfoldable pub record_item : QuarantineInput → Quarantine → Quarantine
record_item item rows = rows ++ quarantine_row item ∷ []

-- The arguments of `record_raw_job_failure` but the raw job.
pub record Failure : Type 0 where
  pub error_category : String
  pub error_message : String
  pub source_field_path : Option String
  pub retryable : Bool

abbrev pub failure_input : RawJob → Failure → QuarantineInput
failure_input raw_job failure = record {
  source_platform = raw_job.source_platform;
  error_category = failure.error_category;
  error_message = failure.error_message;
  scrape_run_id = some raw_job.scrape_run_id;
  raw_job_id = some raw_job.id;
  external_id = some raw_job.external_id;
  payload_hash = raw_job.payload_hash;
  source_field_path = failure.source_field_path;
  retryable = failure.retryable;
}

unfoldable pub record_raw_job_failure : RawJob → Failure → Quarantine → Quarantine
unfolding record_item
record_raw_job_failure raw_job failure rows = record_item (failure_input raw_job failure) rows

abbrev pub is_open : QuarantineStatus → Bool
is_open open_row = true
is_open resolved = false

abbrev pub same_source : Option String → String → Bool
same_source none platform = true
same_source (some source_platform) platform = same_text platform source_platform

-- The `where` of `list_open`.
abbrev pub is_listed : (source_platform : Option String) → NormalizationQuarantine → Bool
is_listed source_platform row =
    is_open row.status && same_source source_platform row.source_platform

-- The order by the creation time is that of the table, where a new row stands last.
unfoldable pub list_open : (source_platform : Option String) → Quarantine → Quarantine
list_open source_platform rows = keep (is_listed source_platform) rows

abbrev pub refers_to : (raw_job_id : String) → Option String → Bool
refers_to raw_job_id none = false
refers_to raw_job_id (some id) = same_text id raw_job_id

-- The `where` of `resolve_for_raw_job`.
abbrev pub is_open_for : (raw_job_id : String) → NormalizationQuarantine → Bool
is_open_for raw_job_id row = refers_to raw_job_id row.raw_job_id && is_open row.status

abbrev resolved_row : ℕ → NormalizationQuarantine → NormalizationQuarantine
resolved_row now row = record row { status = resolved; resolved_at = some now }

-- `resolve_for_raw_job`: the number of rows that it closes, and the table.
unfoldable pub resolve_for_raw_job : (raw_job_id : String) (now : ℕ) → Quarantine → ℕ × Quarantine
resolve_for_raw_job raw_job_id now rows = (
  length (keep (is_open_for raw_job_id) rows),
  map (λ row. if is_open_for raw_job_id row then resolved_row now row else row) rows,
)
