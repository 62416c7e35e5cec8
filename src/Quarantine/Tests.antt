-- ===== src/Quarantine/Tests.antt =====
-- Two failures of one raw job and one of another.
use bisakerja_scraper.Prelude.{◌+◌, ◌≡◌, refl, String, none, some, true, [], length, keep}
use bisakerja_scraper.Prelude.Json.{Json}
use bisakerja_scraper.Models.{RawJob}
use bisakerja_scraper.Quarantine.{
  Quarantine, Failure, record_raw_job_failure, record_item, resolve_for_raw_job, list_open,
}
use bisakerja_scraper.Quarantine.Resolve.{resolve_for_raw_job-list_open, is_of_other}

abbrev raw : String → RawJob
raw id = record {
  id = id;
  scrape_run_id = "r-scrape";
  source_platform = "dealls";
  external_id = id;
  source_url = none;
  raw_payload = Json.null;
  metadata_json = none;
  payload_hash = none;
  scraped_at = 5;
}

abbrev failure : Failure
failure = record {
  error_category = "NORMALIZE_ERROR";
  error_message = "title is required";
  source_field_path = some "title";
  retryable = true;
}

abbrev rows : Quarantine
unfolding record_raw_job_failure record_item
rows =
    record_raw_job_failure (raw "a") failure
      (record_raw_job_failure (raw "b") failure (record_raw_job_failure (raw "a") failure []))

two_closed : (resolve_for_raw_job "a" 9 rows).0 ≡ 2
unfolding rows resolve_for_raw_job
two_closed = refl

resolve_for_raw_job-list_open_example :
    let (closed, after) = resolve_for_raw_job "a" 9 rows in
    (list_open (some "dealls") after ≡ keep (is_of_other "a") (list_open (some "dealls") rows))
    × (closed + length (list_open none after) ≡ length (list_open none rows))
resolve_for_raw_job-list_open_example = resolve_for_raw_job-list_open (some "dealls") "a" 9 rows
