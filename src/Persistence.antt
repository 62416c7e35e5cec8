-- ===== src/Persistence.antt =====
-- src/modules/persistence/repositories.py: the upserts of raw and normalised jobs, their transaction, and
-- the pages of jobs. The hash, the database's comparison of texts and its ILIKE are parameters.
pub mod Identity
pub mod Columns
pub mod Write
pub mod Pages
mod Tests
use bisakerja_scraper.Prelude.{
  ℕ, ◌-◌, ◌*◌, String, Option, none, some, Bool, true, false, ◌&&◌, ◌||◌, List, [], ◌∷◌, ltb, ◌==◌,
  if◌then◌else◌, same_text, length, take, drop, keep, get_elem?,
}
use bisakerja_scraper.Prelude.Json.{Json, truthy}
use bisakerja_scraper.Prelude.Text.{join_text}
use bisakerja_scraper.Prelude.Upsert.{upsert_where}
use bisakerja_scraper.Prelude.Sort.{sort_by}
use bisakerja_scraper.Models.{NormalizedJob, RawJob, CanonicalJobStatus, same_status}

pub record RawJobInput : Type 0 where
  pub scrape_run_id : String
  pub source_platform : String
  pub external_id : String
  pub source_url : Option String
  pub raw_payload : Json
  pub metadata_json : Option Json
  pub scraped_at : Option ℕ

-- The attributes of a `CanonicalJobSchema` that are stored; `payload` is its `model_dump`.
pub record CanonicalJob : Type 0 where
  pub platform : String
  pub external_job_id : String
  pub source_url : String
  pub external_apply_url : Option String
  pub title : String
  pub company_name : String
  pub status : CanonicalJobStatus
  pub last_seen_at : ℕ
  pub posted_at : Option ℕ
  pub payload : Json

abbrev time_or : Option ℕ → ℕ → ℕ
time_or none now = now
time_or (some time) now = time

abbrev pub is_raw : (source_platform external_id : String) → RawJob → Bool
is_raw source_platform external_id row =
    same_text row.source_platform source_platform && same_text row.external_id external_id

abbrev pub raw_row : (hash : Json → String) (id : String) (now : ℕ) → RawJobInput → RawJob
raw_row hash id now job = record {
  id = id;
  scrape_run_id = job.scrape_run_id;
  source_platform = job.source_platform;
  external_id = job.external_id;
  source_url = job.source_url;
  raw_payload = job.raw_payload;
  metadata_json = job.metadata_json;
  payload_hash = some (hash job.raw_payload);
  scraped_at = time_or job.scraped_at now;
}

abbrev pub changed_raw : (hash : Json → String) (now : ℕ) → RawJobInput → RawJob → RawJob
changed_raw hash now job row = record row {
  scrape_run_id = job.scrape_run_id;
  source_url = job.source_url;
  raw_payload = job.raw_payload;
  metadata_json = job.metadata_json;
  payload_hash = some (hash job.raw_payload);
  scraped_at = time_or job.scraped_at now;
}

-- `upsert_raw_job`: the row's reference, whether it is new, and the table; `id` is for a new row.
unfoldable pub upsert_raw_job :
    (hash : Json → String) (id : String) (now : ℕ)
    → RawJobInput
    → List RawJob
    → ℕ × Bool × List RawJob
upsert_raw_job hash id now job table =
    upsert_where (is_raw job.source_platform job.external_id) (raw_row hash id now job)
      (changed_raw hash now job) table

abbrev pub is_normalized : (source_platform external_id : String) → NormalizedJob → Bool
is_normalized source_platform external_id row =
    same_text row.source_platform source_platform && same_text row.external_id external_id

abbrev pub normalized_row :
    (id : String) (raw_job_id : Option String) → CanonicalJob → NormalizedJob
normalized_row id raw_job_id job = record {
  id = id;
  raw_job_id = raw_job_id;
  source_platform = job.platform;
  external_id = job.external_job_id;
  title = job.title;
  company_name = job.company_name;
  source_url = job.source_url;
  apply_url = job.external_apply_url;
  status = job.status;
  normalized_payload = job.payload;
  last_seen_at = job.last_seen_at;
  posted_at = job.posted_at;
}

abbrev pub changed_normalized :
    (raw_job_id : Option String) → CanonicalJob → NormalizedJob → NormalizedJob
changed_normalized raw_job_id job row = record row {
  raw_job_id = raw_job_id;
  title = job.title;
  company_name = job.company_name;
  source_url = job.source_url;
  apply_url = job.external_apply_url;
  status = job.status;
  normalized_payload = job.payload;
  last_seen_at = job.last_seen_at;
  posted_at = job.posted_at;
}

unfoldable pub upsert_normalized_job :
    (id : String) (raw_job_id : Option String)
    → CanonicalJob
    → List NormalizedJob
    → ℕ × Bool × List NormalizedJob
upsert_normalized_job id raw_job_id job table =
    upsert_where (is_normalized job.platform job.external_job_id) (normalized_row id raw_job_id job)
      (changed_normalized raw_job_id job) table

pub record Tables : Type 0 where
  pub raw_jobs : List RawJob
  pub normalized_jobs : List NormalizedJob

-- A SQLAlchemy session: what it sees, and what the last commit left.
pub record Session : Type 0 where
  pub current : Tables
  pub committed : Tables
  pub in_transaction : Bool

pub rollback : Session → Session
rollback session = record session { current = session.committed; in_transaction = false }

pub data WriteResult : Type 0 where
  written : (raw_created normalized_created : Bool) → WriteResult
  persist_error : WriteResult

-- What the environment gives to a write: new identifiers, the clock, and whether any statement of the
-- block raises a SQLAlchemyError.
pub record WriteContext : Type 0 where
  pub hash : Json → String
  pub raw_id : String
  pub normalized_id : String
  pub now : ℕ
  pub raises : Bool

abbrev pub raw_id_at : Option RawJob → Option String
raw_id_at none = none
raw_id_at (some row) = some row.id

-- The two upserts of `write_job`; the second one refers to the first one's row.
pub write_tables : WriteContext → RawJobInput → CanonicalJob → Tables → Bool × Bool × Tables
write_tables c raw_input job tables =
    let (i, raw_created, raw_jobs) =
      upsert_raw_job c.hash c.raw_id c.now raw_input tables.raw_jobs in
    let raw_job_id = raw_id_at (get_elem? raw_jobs i) in
    let (j, normalized_created, normalized_jobs) =
      upsert_normalized_job c.normalized_id raw_job_id job tables.normalized_jobs in
    (
      raw_created,
      normalized_created,
      record { raw_jobs = raw_jobs; normalized_jobs = normalized_jobs },
    )

abbrev pub conclude_write :
    (raises in_transaction : Bool) → Bool × Bool × Tables → Session → WriteResult × Session
conclude_write true in_transaction (raw_created, normalized_created, tables) session =
    (persist_error, rollback session)
conclude_write false true (raw_created, normalized_created, tables) session =
    (written raw_created normalized_created, record session { current = tables })
conclude_write false false (raw_created, normalized_created, tables) session = (
  written raw_created normalized_created,
  record { current = tables; committed = tables; in_transaction = false },
)

-- `write_job`: the transaction that it begins is committed; one that it finds is left open.
pub write_job : WriteContext → RawJobInput → CanonicalJob → Session → WriteResult × Session
write_job c raw_input job session =
    conclude_write c.raises session.in_transaction (write_tables c raw_input job session.current)
      session

pub record JobListFilters : Type 0 where
  pub source_platform : Option String
  pub freshness : Option CanonicalJobStatus
  pub location : Option String
  pub keyword : Option String

-- The database's order of texts, its ILIKE, the cast of a payload to text, and `str.strip`.
pub record Database : Type 0 where
  pub text_before : String → String → Bool
  pub ilike : (text needle : String) → Bool
  pub payload_text : Json → String
  pub strip : String → String

pub like_needle : Database → String → String
like_needle d value = join_text "%" (join_text (d.strip value) "%")

-- A filter that is None or empty is left out.
abbrev given : Option String → (String → Bool) → Bool
given none test = true
given (some value) test = if truthy value then test value else true

abbrev fresh : Option CanonicalJobStatus → CanonicalJobStatus → Bool
fresh none status = true
fresh (some freshness) status = same_status status freshness

-- `apply_job_filters`, on one row.
pub passes : Database → JobListFilters → NormalizedJob → Bool
passes d filters row =
    let payload = d.payload_text row.normalized_payload in
    given filters.source_platform (λ platform. same_text row.source_platform platform)
    && fresh filters.freshness row.status
    && given filters.location (λ location. d.ilike payload (like_needle d location))
    && given filters.keyword (λ keyword.
      let needle = like_needle d keyword in
      d.ilike row.title needle || d.ilike row.company_name needle || d.ilike payload needle)

-- `order_by(last_seen_at.desc(), id.asc())`
pub comes_first : Database → NormalizedJob → NormalizedJob → Bool
comes_first d a b =
    ltb b.last_seen_at a.last_seen_at
    || (a.last_seen_at == b.last_seen_at && d.text_before a.id b.id)

abbrev pub ordered : Database → List NormalizedJob → List NormalizedJob
ordered d rows = sort_by (comes_first d) rows

pub record PaginatedJobs : Type 0 where
  pub jobs : List NormalizedJob
  pub total : ℕ

-- `list_jobs`, of a page from 1 on.
pub list_jobs : Database → JobListFilters → (page limit : ℕ) → List NormalizedJob → PaginatedJobs
list_jobs d filters page limit table =
    let matches = keep (passes d filters) table in
    record {
      jobs = take limit (drop ((page - 1) * limit) (ordered d matches));
      total = length matches;
    }
