-- ===== src/Persistence/Tests.antt =====
-- Runs of the repositories on small tables.
use mathlib.Core.List.{Perm}
use bisakerja_scraper.Prelude.{
  ◌*◌, ◌≤◌, ◌≡◌, refl, String, none, some, true, false, List, [], ◌∷◌, length, keep, arith,
}
use bisakerja_scraper.Prelude.Json.{Json}
use bisakerja_scraper.Prelude.Upsert.{upsert_where, find_where}
use bisakerja_scraper.Prelude.Sort.{sort_by, insert_sorted}
use bisakerja_scraper.Models.{NormalizedJob, active}
use bisakerja_scraper.Persistence.{
  RawJobInput, CanonicalJob, Session, written, WriteContext, Database, JobListFilters,
  upsert_normalized_job, normalized_row, changed_normalized, write_job, write_tables,
  upsert_raw_job, list_jobs, passes, comes_first,
}
use bisakerja_scraper.Persistence.Write.{Written, write_job-Written}
use bisakerja_scraper.Persistence.Pages.{joined_pages, joined_pages-perm}

abbrev raw_input : RawJobInput
raw_input = record {
  scrape_run_id = "r-scrape";
  source_platform = "glints";
  external_id = "7";
  source_url = none;
  raw_payload = Json.null;
  metadata_json = none;
  scraped_at = some 5;
}

abbrev canonical : String → CanonicalJob
canonical external = record {
  platform = "glints";
  external_job_id = external;
  source_url = "u";
  external_apply_url = none;
  title = "Engineer";
  company_name = "Acme";
  status = active;
  last_seen_at = 9;
  posted_at = none;
  payload = Json.null;
}

abbrev older : NormalizedJob
older = record (normalized_row "n1" none (canonical "7")) { last_seen_at = 3 }

abbrev other : NormalizedJob
other = normalized_row "n2" none (canonical "8")

abbrev table : List NormalizedJob
table = older ∷ other ∷ []

updated_in_place :
    upsert_normalized_job "n3" (some "raw") (canonical "7") table
    ≡ (0, false, changed_normalized (some "raw") (canonical "7") older ∷ other ∷ [])
unfolding upsert_normalized_job upsert_where find_where
updated_in_place = refl

abbrev context : WriteContext
context = record { hash = λ _. "h"; raw_id = "raw"; normalized_id = "n3"; now = 6; raises = false }

abbrev session : Session
session = record {
  current = record { raw_jobs = []; normalized_jobs = table };
  committed = record { raw_jobs = []; normalized_jobs = table };
  in_transaction = false;
}

write_result : (write_job context raw_input (canonical "7") session).0 ≡ written true false
unfolding write_job write_tables upsert_raw_job upsert_normalized_job upsert_where find_where
write_result = refl

write_job-Written_example :
    let (result, after) = write_job context raw_input (canonical "7") session in
    Written context raw_input (canonical "7") "glints" "8" session result after
write_job-Written_example =
    write_job-Written context raw_input (canonical "7") "glints" "8" session (omega arith)
      (omega arith) refl refl

abbrev database : Database
database = record {
  text_before = λ a b. true;
  ilike = λ text needle. true;
  payload_text = λ _. "";
  strip = λ text. text;
}

abbrev all_jobs : JobListFilters
all_jobs = record {
  source_platform = some "glints";
  freshness = none;
  location = none;
  keyword = none;
}

first_page : (list_jobs database all_jobs 1 1 table).jobs ≡ other ∷ []
unfolding list_jobs passes sort_by insert_sorted comes_first
first_page = refl

two_in_all : (list_jobs database all_jobs 1 1 table).total ≤ 2 * 1
unfolding list_jobs passes
two_in_all = omega arith

joined_pages-perm_example :
    Perm (joined_pages database all_jobs 2 1 table) (keep (passes database all_jobs) table)
    × ((list_jobs database all_jobs 1 1 table).total
        ≡ length (joined_pages database all_jobs 2 1 table))
joined_pages-perm_example = joined_pages-perm database all_jobs 2 1 1 table two_in_all
