-- ===== src/Scrape/Tests.antt =====
-- Runs of the fetchers on sources of two pages.
use bisakerja_scraper.Prelude.{
  ℕ, ◌≡◌, refl, String, none, some, false, [], ◌∷◌, ◌==◌, if◌then◌else◌, arith,
}
use bisakerja_scraper.Prelude.Json.{Json}
use bisakerja_scraper.Scrape.{
  RawSourceJob, Answer, PagedSource, PaginatedFetchResult, fetched, SourceException, StopReason,
  target_reached, fetch_pages, fetch_source, dedupe_new_jobs, enrich_all,
}
use bisakerja_scraper.Scrape.Loop.{KeepsIds}
use bisakerja_scraper.Scrape.Sound.{IsSound, fetch_source-IsSound}
use bisakerja_scraper.Scrape.Sources.{
  Settings, DeallsPagination, JobStreetPagination, ChallengeState, dealls, jobstreet, fetch_live,
  target_limit_of,
}

abbrev job : String → RawSourceJob
job id = record {
  source_platform = "dealls";
  external_id = id;
  source_url = "u";
  raw_payload = Json.null;
}

abbrev two_pages : ℕ → ℕ → Answer DeallsPagination
two_pages attempt number =
    let pagination : DeallsPagination = record { total_docs = 3; total_pages = 2 } in
    if number == 1
    then Answer.page (job "a" ∷ job "b" ∷ []) pagination
    else Answer.page (job "b" ∷ job "c" ∷ []) pagination

abbrev as_listed : ℕ → RawSourceJob → RawSourceJob
as_listed attempt listed = listed

abbrev source : PagedSource DeallsPagination
source = dealls two_pages as_listed

abbrev settings : Settings
settings = record {
  scraper_max_items_per_keyword = 50;
  scraper_max_items_per_source_run = 50;
  scraper_max_pages_per_keyword = 5;
}

abbrev both_pages : PaginatedFetchResult
both_pages = record {
  raw_jobs = job "a" ∷ job "b" ∷ job "c" ∷ [];
  pages_attempted = 2;
  pages_succeeded = 2;
  pages_failed = 0;
  stop_reason = StopReason.target_reached;
  deduped_count = 1;
  total_available = some 3;
}

exhausted :
    fetch_live source settings 9
    ≡ fetched (record both_pages { stop_reason = StopReason.source_exhausted }) none
unfolding fetch_live target_limit_of fetch_source fetch_pages dedupe_new_jobs enrich_all dealls
exhausted = refl

source-KeepsIds : (attempt : ℕ) → KeepsIds (source.enriched attempt)
unfolding dealls
source-KeepsIds attempt = record { keeps = λ job job' e. ground arith }

fetch_source-IsSound_example : IsSound 3 5 (fetch_source source 3 5)
fetch_source-IsSound_example = fetch_source-IsSound source 3 5 source-KeepsIds

abbrev guarded : ℕ → ℕ → Answer JobStreetPagination
guarded attempt number =
    Answer.failed (SourceException.fetch_failure (some 403) (some "cloudflare_challenge"))

abbrev challenged_source : PagedSource JobStreetPagination
challenged_source = jobstreet guarded as_listed

abbrev free : ChallengeState
free = record { blocked = false; reason = StopReason.cloudflare_challenge }
