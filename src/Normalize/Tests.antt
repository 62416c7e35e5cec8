-- ===== src/Normalize/Tests.antt =====
-- Runs of the stage on three raw jobs, the last of which meets an OperationalError when `unlucky`.
use bisakerja_scraper.Prelude.{
  ◌+◌, ◌≡◌, refl, String, none, some, Bool, true, false, List, [], ◌∷◌, length, All, same_text,
  if◌then◌else◌,
}
use bisakerja_scraper.Prelude.Json.{Json, Fields}
use bisakerja_scraper.Prelude.Upsert.{upsert_where, find_where}
use bisakerja_scraper.Models.{RawJob, active}
use bisakerja_scraper.Persistence.{CanonicalJob, upsert_normalized_job}
use bisakerja_scraper.Quarantine.{record_raw_job_failure, record_item, resolve_for_raw_job}
use bisakerja_scraper.Normalize.{
  Raised, scraper_error, other_error, source_field_path_from, Work, mapped, failed, Stage,
  open_gate, normalize_source, normalize_all, normalize_one, db_operation_with_retry,
}
use bisakerja_scraper.Normalize.Handled.{IsHandled, normalize_source-IsHandled}
use bisakerja_scraper.Normalize.Lost.{normalize_source-lost}

abbrev raw : String → RawJob
raw id = record {
  id = id;
  scrape_run_id = "r-scrape";
  source_platform = "dealls";
  external_id = id;
  source_url = none;
  raw_payload = Json.null;
  metadata_json = none;
  payload_hash = none;
  scraped_at = 5;
}

abbrev canonical : String → CanonicalJob
canonical external = record {
  platform = "dealls";
  external_job_id = external;
  source_url = "u";
  external_apply_url = none;
  title = "Engineer";
  company_name = "Acme";
  status = active;
  last_seen_at = 9;
  posted_at = none;
  payload = Json.null;
}

abbrev missing_title : Raised
missing_title = scraper_error "NORMALIZE_ERROR" "title is required" (some "b") false (
    Fields.field "source_field_path" (Json.str "")
      (Fields.field "field" (Json.str "title") Fields.end))

field_path : source_field_path_from missing_title ≡ some "title"
unfolding source_field_path_from
field_path = refl

abbrev stage : (unlucky : Bool) → Stage
stage unlucky = record {
  source_platform = "dealls";
  map_raw_job =
      λ row. if same_text row.id "b" then failed missing_title else mapped (canonical row.id);
  operational_errors = λ row. if unlucky then (if same_text row.id "c" then 1 else 0) else 0;
  operational_error = other_error "OperationalError" "server closed the connection" false;
  new_id = λ row. row.id;
  now = 20;
  has_quarantine = true;
}

abbrev empty : Work
empty = record {
  current = record { normalized_jobs = []; quarantine = [] };
  committed = record { normalized_jobs = []; quarantine = [] };
}

abbrev raw_jobs : List RawJob
raw_jobs = raw "a" ∷ raw "b" ∷ raw "c" ∷ []

all_stored :
    let (result, after) = normalize_source (stage false) open_gate raw_jobs empty in
    (result.counts.normalized ≡ 2)
    × (length after.committed.normalized_jobs ≡ 2)
    × (length after.committed.quarantine ≡ 1)
unfolding normalize_source normalize_all normalize_one db_operation_with_retry upsert_normalized_job
    upsert_where find_where record_raw_job_failure record_item resolve_for_raw_job
all_stored = (refl, refl, refl)

one_stored :
    let (result, after) = normalize_source (stage true) open_gate raw_jobs empty in
    (result.counts.normalized ≡ 2)
    × (length after.committed.normalized_jobs ≡ 1)
    × (length after.committed.quarantine ≡ 0)
unfolding normalize_source normalize_all normalize_one db_operation_with_retry upsert_normalized_job
    upsert_where find_where record_raw_job_failure record_item resolve_for_raw_job
one_stored = (refl, refl, refl)

normalize_source-IsHandled_example :
    All
      (λ row.
        IsHandled
          (normalize_source (stage false) open_gate raw_jobs empty).1.committed
          row
          ((stage false).map_raw_job row))
      raw_jobs
normalize_source-IsHandled_example =
    normalize_source-IsHandled (stage false) refl open_gate raw_jobs empty
      (refl, (refl, (refl, tt))) (refl, (refl, (refl, tt)))

normalize_source-lost_example :
    let (result, after) = normalize_source (stage true) open_gate raw_jobs empty in
    (after.committed.normalized_jobs ≡ (upsert_normalized_job "c" (some "c") (canonical "c") []).2)
    × (result.counts.normalized
        ≡ (normalize_source
            (stage true)
            open_gate
            (raw "a" ∷ raw "b" ∷ [])
            empty).0.counts.normalized
          + 1)
normalize_source-lost_example =
    normalize_source-lost (stage true) (raw "a" ∷ raw "b" ∷ []) (raw "c") (canonical "c") empty refl
      refl
