-- ===== src/Models.antt =====
-- src/modules/persistence/models.py and src/modules/jobs/schemas.py: the database rows that the
-- components share. Identifiers and hashes are texts, and times are microseconds.
use bisakerja_scraper.Prelude.{ℕ, String, Option, Bool, true, false}
use bisakerja_scraper.Prelude.Json.{Json}

pub data CanonicalJobStatus : Type 0 where
  active stale inactive expired unknown : CanonicalJobStatus

pub record NormalizedJob : Type 0 where
  pub id : String
  pub raw_job_id : Option String
  pub source_platform : String
  pub external_id : String
  pub title : String
  pub company_name : String
  pub source_url : String
  pub apply_url : Option String
  pub status : CanonicalJobStatus
  pub normalized_payload : Json
  pub last_seen_at : ℕ
  pub posted_at : Option ℕ

pub record RawJob : Type 0 where
  pub id : String
  pub scrape_run_id : String
  pub source_platform : String
  pub external_id : String
  pub source_url : Option String
  pub raw_payload : Json
  pub metadata_json : Option Json
  pub payload_hash : Option String
  pub scraped_at : ℕ

-- `==` of two statuses.
abbrev pub same_status : CanonicalJobStatus → CanonicalJobStatus → Bool
same_status active active = true
same_status stale stale = true
same_status inactive inactive = true
same_status expired expired = true
same_status unknown unknown = true
same_status _ _ = false
