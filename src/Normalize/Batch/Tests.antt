-- ===== src/Normalize/Batch/Tests.antt =====
-- Two batches of raw jobs: the answer to the first one has a job and an error, and that to the second one is
-- of another raw job.
use bisakerja_scraper.Prelude.{
  ℕ, ◌≡◌, refl, String, Option, none, some, true, false, List, [], ◌∷◌, length,
}
use bisakerja_scraper.Prelude.Json.{Json}
use bisakerja_scraper.Prelude.Chunks.{chunks_from}
use bisakerja_scraper.Prelude.Upsert.{upsert_where, find_where}
use bisakerja_scraper.Models.{RawJob, active}
use bisakerja_scraper.Persistence.{CanonicalJob, upsert_normalized_job}
use bisakerja_scraper.Quarantine.{record_raw_job_failure, record_item, resolve_for_raw_job}
use bisakerja_scraper.Normalize.{
  other_error, Work, mapped, Stage, open_gate, SourceResult, db_operation_with_retry,
}
use bisakerja_scraper.Normalize.Ai.{
  Ai, AiBatchItemResult, SdkReply, answer, normalize_jobs, validate_batch, validate_items, same_ids,
}
use bisakerja_scraper.Normalize.Batch.{
  normalize_source_with, normalize_batches, normalize_batch, prepare, apply_results, find_raw_job,
  fail_all,
}

abbrev raw : String → RawJob
raw id = record {
  id = id;
  scrape_run_id = "r-scrape";
  source_platform = "dealls";
  external_id = id;
  source_url = none;
  raw_payload = Json.null;
  metadata_json = none;
  payload_hash = none;
  scraped_at = 5;
}

abbrev canonical : String → CanonicalJob
canonical external = record {
  platform = "dealls";
  external_job_id = external;
  source_url = "u";
  external_apply_url = none;
  title = "Engineer";
  company_name = "Acme";
  status = active;
  last_seen_at = 9;
  posted_at = none;
  payload = Json.null;
}

abbrev item : String → Option CanonicalJob → Option String → AiBatchItemResult
item id job error = record {
  item_id = id;
  normalized_job = job;
  error_code = error;
  error_message = error;
}

abbrev reply_to : List RawJob → SdkReply
reply_to (first ∷ second ∷ rest) =
    answer
      (item first.id (some (canonical first.id)) none ∷ item second.id none (some "no title") ∷ [])
reply_to _ = answer (item "other" none (some "no title") ∷ [])

abbrev ai : (log_errors : ℕ) → Ai
ai log_errors = record {
  batch_size = 2;
  has_normalize_jobs = true;
  parse = reply_to;
  with_defaults = λ row job. some job;
  has_prompt = λ row. true;
  map_with_ai = λ row. mapped (canonical row.id);
  log_errors = λ row. log_errors;
}

abbrev stage : Stage
stage = record {
  source_platform = "dealls";
  map_raw_job = λ row. mapped (canonical row.id);
  operational_errors = λ row. 1;
  operational_error = other_error "OperationalError" "server closed the connection" false;
  new_id = λ row. row.id;
  now = 20;
  has_quarantine = true;
}

abbrev empty : Work
empty = record {
  current = record { normalized_jobs = []; quarantine = [] };
  committed = record { normalized_jobs = []; quarantine = [] };
}

abbrev raw_jobs : List RawJob
raw_jobs = raw "a" ∷ raw "b" ∷ raw "c" ∷ []

abbrev counts_of : Option (SourceResult × Work) → Option (ℕ × ℕ × ℕ)
counts_of none = none
counts_of (some (result, work)) =
    some (result.counts.normalized, result.counts.skipped, length work.committed.normalized_jobs)

one_normalised :
    counts_of (normalize_source_with stage (some (ai 0)) open_gate raw_jobs empty) ≡ some (1, 2, 1)
unfolding normalize_source_with normalize_batches normalize_batch prepare apply_results find_raw_job
    fail_all normalize_jobs validate_batch validate_items same_ids chunks_from
    db_operation_with_retry upsert_normalized_job upsert_where find_where record_raw_job_failure
    record_item resolve_for_raw_job
one_normalised = refl

-- A log row's insertion that fails once is repeated without the row that it refers to, and the stage ends.
aborted_by_log :
    counts_of (normalize_source_with stage (some (ai 1)) open_gate raw_jobs empty) ≡ none
unfolding normalize_source_with normalize_batches normalize_batch prepare apply_results find_raw_job
    fail_all normalize_jobs validate_batch validate_items same_ids chunks_from
    db_operation_with_retry upsert_normalized_job upsert_where find_where record_raw_job_failure
    record_item resolve_for_raw_job
aborted_by_log = refl
