-- ===== src/Eligibility/Tests.antt =====
-- Runs of the resolver on a batch of four raw jobs; the texts are trimmed and lower-cased already.
use bisakerja_scraper.Prelude.{
  ◌≡◌, refl, String, Option, none, some, true, [], ◌∷◌, if◌then◌else◌, arith,
}
use bisakerja_scraper.Prelude.Json.{Json, Fields}
use bisakerja_scraper.Prelude.Text.{member}
use bisakerja_scraper.Models.{NormalizedJob, RawJob, active}
use bisakerja_scraper.Sync.Events.{SyncEvent, failed}
use bisakerja_scraper.Eligibility.{
  Scope, decide, eligible_raw_jobs, find_normalized, selected, resolve_for_raw_jobs, resolve_from,
  latest_event, upsert, find_decision, keep_eligible,
}
use bisakerja_scraper.Eligibility.Rows.{AreDistinct}
use bisakerja_scraper.Eligibility.Gate.{AllNew, eligible_raw_jobs-AllNew}

abbrev raw : String → String → RawJob
raw id external = record {
  id = id;
  scrape_run_id = "r-scrape";
  source_platform = "dealls";
  external_id = external;
  source_url = none;
  raw_payload = Json.null;
  metadata_json = none;
  payload_hash = some "h1";
  scraped_at = 5;
}

abbrev stored : NormalizedJob
stored = record {
  id = "n1";
  raw_job_id = none;
  source_platform = "dealls";
  external_id = "c";
  title = "t";
  company_name = "c";
  source_url = "u";
  apply_url = none;
  status = active;
  normalized_payload = Json.null;
  last_seen_at = 0;
  posted_at = none;
}

abbrev event : SyncEvent
event = record {
  scrape_run_id = none;
  normalized_job_id = "n1";
  source_platform = "dealls";
  external_id = "c";
  status = failed;
  target = "backend";
  payload_hash = "h";
  attempt_count = 3;
  attempted_at = 4;
  completed_at = none;
  error_category = none;
  error_message = none;
  response_summary = none;
  metadata_json = none;
}

abbrev backend_has : String → String → Option Fields
backend_has source external = if member external ("b" ∷ []) then some Fields.end else none

abbrev scope : Scope
scope = record {
  texts = record {
    strip = λ text. text;
    lower = λ text. text;
    sha256 = λ text. text;
    stable_payload_hash = λ _. "h0";
  };
  scrape_run_id = "r-scrape";
  raw_jobs = raw "1" "a" ∷ raw "2" "b" ∷ raw "3" "c" ∷ raw "4" "a" ∷ raw "5" "" ∷ [];
  backend_existing = backend_has;
  allow_reprocess = true;
  max_sync_attempts = 3;
  normalized_jobs = stored ∷ [];
  sync_events = event ∷ [];
}

only_first : eligible_raw_jobs scope [] ≡ raw "1" "a" ∷ []
unfolding eligible_raw_jobs resolve_for_raw_jobs resolve_from upsert find_decision decide
    find_normalized selected keep_eligible latest_event
only_first = refl

stored_found : find_normalized scope "dealls" "c" scope.normalized_jobs ≡ some stored
unfolding find_normalized selected
stored_found = refl

scope-AreDistinct : AreDistinct scope.raw_jobs
scope-AreDistinct = ground arith

eligible_raw_jobs-AllNew_example : AllNew scope [] (eligible_raw_jobs scope [])
eligible_raw_jobs-AllNew_example = eligible_raw_jobs-AllNew scope [] scope-AreDistinct
