-- ===== src/Normalize/Run/Tests.antt =====
-- A run of three sources, the last of which has the first one's platform; the second one has an AI client.
use bisakerja_scraper.Prelude.{
  ◌≡◌, refl, String, Option, none, some, true, false, List, [], ◌∷◌, length,
}
use bisakerja_scraper.Prelude.Json.{Json}
use bisakerja_scraper.Models.{RawJob, active}
use bisakerja_scraper.Runs.{normalize, ScrapeRun, start_run}
use bisakerja_scraper.Persistence.{CanonicalJob}
use bisakerja_scraper.Eligibility.{Scope}
use bisakerja_scraper.Normalize.{other_error, Work, mapped, Stage}
use bisakerja_scraper.Normalize.Lookup.{Lookup, gate_of}
use bisakerja_scraper.Normalize.Ai.{Ai, timeout_error}
use bisakerja_scraper.Normalize.Run.{
  Source, left_open, unique_sources_by_platform, unique_from, run_sources, run_normalize,
}

abbrev raw : (platform id : String) → RawJob
raw platform id = record {
  id = id;
  scrape_run_id = "r-scrape";
  source_platform = platform;
  external_id = id;
  source_url = none;
  raw_payload = Json.null;
  metadata_json = none;
  payload_hash = none;
  scraped_at = 5;
}

abbrev canonical : RawJob → CanonicalJob
canonical raw_job = record {
  platform = raw_job.source_platform;
  external_job_id = raw_job.external_id;
  source_url = "u";
  external_apply_url = none;
  title = "Engineer";
  company_name = "Acme";
  status = active;
  last_seen_at = 9;
  posted_at = none;
  payload = Json.null;
}

abbrev stage : (platform : String) → Stage
stage platform = record {
  source_platform = platform;
  map_raw_job = λ row. mapped (canonical row);
  operational_errors = λ row. 0;
  operational_error = other_error "OperationalError" "server closed the connection" true;
  new_id = λ row. row.id;
  now = 20;
  has_quarantine = true;
}

abbrev late_ai : Ai
late_ai = record {
  batch_size = 20;
  has_normalize_jobs = true;
  parse = λ prompt. timeout_error;
  with_defaults = λ row job. some job;
  has_prompt = λ row. true;
  map_with_ai = λ row. mapped (canonical row);
  log_errors = λ row. 0;
}

-- There is no resolver, and no lookup is required.
abbrev optional : Lookup
optional = record {
  eligibility_resolver = none;
  require_backend_identity_lookup = false;
  backend_identity_lookup = none;
}

abbrev scope : Scope
scope = record {
  texts = record {
    strip = λ text. text;
    lower = λ text. text;
    sha256 = λ text. text;
    stable_payload_hash = λ payload. "h";
  };
  scrape_run_id = "r-scrape";
  raw_jobs = [];
  backend_existing = λ platform external. none;
  allow_reprocess = false;
  max_sync_attempts = 3;
  normalized_jobs = [];
  sync_events = [];
}

-- The backend is asked, and has none of the jobs.
abbrev required : Lookup
required = record {
  eligibility_resolver = some (λ work. (scope, []));
  require_backend_identity_lookup = true;
  backend_identity_lookup = some (λ found. some (λ platform external. none));
}

abbrev source : (platform : String) → Option Ai → List RawJob → Source
source platform ai raw_jobs = record {
  stage = stage platform;
  ai = ai;
  lookup = optional;
  raw_jobs = raw_jobs;
}

abbrev sources : List Source
sources =
    source "dealls" none (raw "dealls" "a" ∷ raw "dealls" "b" ∷ [])
    ∷ record (source "glints" (some late_ai) (raw "glints" "a" ∷ [])) { lookup = required }
    ∷ source "dealls" none (raw "dealls" "a" ∷ [])
    ∷ []

two_platforms : length (unique_sources_by_platform sources) ≡ 2
unfolding unique_sources_by_platform unique_from
two_platforms = refl

abbrev run : ScrapeRun
run = start_run "r-normalize" "all" normalize none 1

abbrev empty : Work
empty = record {
  current = record { normalized_jobs = []; quarantine = [] };
  committed = record { normalized_jobs = []; quarantine = [] };
}

-- A lookup that is required and not configured leaves the run open.
abbrev unconfigured : Source
unconfigured = record (source "dealls" none (raw "dealls" "a" ∷ [])) {
  lookup = record optional { require_backend_identity_lookup = true };
}

stays_open : run_normalize (unconfigured ∷ []) 30 run empty ≡ left_open run
unfolding run_normalize run_sources unique_sources_by_platform unique_from gate_of
stays_open = refl
