-- ===== src/Scrape/Sources.antt =====
-- src/cli/pipeline.py: the fetchers of the five live sources, as instances of the loop. What the adapters
-- answer, and the merging of a job with its details, are parameters; a merge that is `some` never raises.
use bisakerja_scraper.Prelude.{
  ℕ, ◌+◌, ◌-◌, ◌*◌, min, max, Option, none, some, Bool, true, false, not, ◌&&◌, [], leb, ◌==◌,
  if◌then◌else◌, length,
}
use bisakerja_scraper.Scrape.{
  RawSourceJob, Answer, PagedSource, PaginatedFetchResult, Fetched, fetched, raised,
  SourceException, fetch_failure, is_challenge, StopReason, cloudflare_challenge,
  cloudflare_challenge_cookie_required, fetch_source,
}

-- The settings that bound every fetcher.
pub record Settings : Type 0 where
  pub scraper_max_items_per_keyword : ℕ
  pub scraper_max_items_per_source_run : ℕ
  pub scraper_max_pages_per_keyword : ℕ

unfoldable pub target_limit_of : Settings → (limit : ℕ) → ℕ
target_limit_of settings limit =
    min limit (min settings.scraper_max_items_per_keyword settings.scraper_max_items_per_source_run)

-- A source numbers its pages from 1.
abbrev next_page : ℕ → ℕ
next_page page = page + 1

-- `total_pages and page >= total_pages`
abbrev last_page : (total_pages page : ℕ) → Bool
last_page total_pages page = not (total_pages == 0) && leb total_pages page

pub record DeallsPagination : Type 0 where
  pub total_docs : ℕ
  pub total_pages : ℕ

unfoldable pub dealls :
    (ℕ → ℕ → Answer DeallsPagination)
    → (ℕ → RawSourceJob → RawSourceJob)
    → PagedSource DeallsPagination
dealls answer fetch_enriched_job = record {
  answer = answer;
  enriched = λ attempt job. some (fetch_enriched_job attempt job);
  first = 1;
  total_available = λ page total raw_jobs pagination. some pagination.total_docs;
  exhausted = λ page raw_jobs pagination. last_page pagination.total_pages page;
  next = λ page pagination. next_page page;
}

pub record GlintsPagination : Type 0 where
  pub has_more : Bool

abbrev or_zero : Option ℕ → ℕ
or_zero none = 0
or_zero (some n) = n

pub glints :
    (page_size : ℕ)
    → (ℕ → ℕ → Answer GlintsPagination)
    → (RawSourceJob → RawSourceJob)
    → PagedSource GlintsPagination
glints page_size answer merge_glints_list_with_fallback = record {
  answer = answer;
  enriched = λ attempt job. some (merge_glints_list_with_fallback job);
  first = 1;
  total_available = λ page total raw_jobs pagination.
      some (max (or_zero total) ((page - 1) * page_size + length raw_jobs));
  exhausted = λ page raw_jobs pagination. not pagination.has_more;
  next = λ page pagination. next_page page;
}

pub record JobStreetPagination : Type 0 where
  pub total_count : ℕ
  pub total_pages : ℕ

unfoldable pub jobstreet :
    (ℕ → ℕ → Answer JobStreetPagination)
    → (ℕ → RawSourceJob → RawSourceJob)
    → PagedSource JobStreetPagination
jobstreet answer fetch_enriched_job = record {
  answer = answer;
  enriched = λ attempt job. some (fetch_enriched_job attempt job);
  first = 1;
  total_available = λ page total raw_jobs pagination. some pagination.total_count;
  exhausted = λ page raw_jobs pagination. last_page pagination.total_pages page;
  next = λ page pagination. next_page page;
}

pub record KalibrrPagination : Type 0 where
  pub total_count : ℕ
  pub limit : ℕ

-- `merge_kalibrr_list_and_detail` raises a ParseError on a job with no identifier.
pub kalibrr :
    (page_size : ℕ)
    → (ℕ → ℕ → Answer KalibrrPagination)
    → (RawSourceJob → Option RawSourceJob)
    → PagedSource KalibrrPagination
kalibrr page_size answer merge_kalibrr_list_and_detail = record {
  answer = answer;
  enriched = λ attempt job. merge_kalibrr_list_and_detail job;
  first = 0;
  total_available = λ offset total raw_jobs pagination. some pagination.total_count;
  exhausted = λ offset raw_jobs pagination. leb pagination.total_count (offset + length raw_jobs);
  next = λ offset pagination. offset + min (max pagination.limit 1) page_size;
}

pub record KitalulusPagination : Type 0 where
  pub total_count : ℕ
  pub has_next_page : Bool

-- `fetch_enriched_job` raises a ParseError on a job with no slug.
pub kitalulus :
    (ℕ → ℕ → Answer KitalulusPagination)
    → (ℕ → RawSourceJob → Option RawSourceJob)
    → PagedSource KitalulusPagination
kitalulus answer fetch_enriched_job = record {
  answer = answer;
  enriched = fetch_enriched_job;
  first = 1;
  total_available = λ page total raw_jobs pagination. some pagination.total_count;
  exhausted = λ page raw_jobs pagination. not pagination.has_next_page;
  next = λ page pagination. next_page page;
}

-- A fetcher of a source, with the keyword's limit.
unfoldable pub fetch_live : {P : Type 0} → PagedSource P → Settings → (limit : ℕ) → Fetched
fetch_live s settings limit =
    fetch_source s (target_limit_of settings limit) settings.scraper_max_pages_per_keyword

-- The page size that is asked for: at most the setting, and no more than is wanted.
pub page_size_of : (page_setting target_limit : ℕ) → ℕ
page_size_of page_setting target_limit = min page_setting (max target_limit 1)

-- The fetchers; the adapter is asked for pages of the size.
pub fetch_dealls :
    (page_size_answer : ℕ → ℕ → ℕ → Answer DeallsPagination)
    → (ℕ → RawSourceJob → RawSourceJob)
    → Settings
    → (dealls_page_size limit : ℕ) → Fetched
fetch_dealls page_size_answer fetch_enriched_job settings dealls_page_size limit =
    let page_size = min (page_size_of dealls_page_size (target_limit_of settings limit)) 20 in
    fetch_live (dealls (page_size_answer page_size) fetch_enriched_job) settings limit

pub fetch_glints :
    (page_size_answer : ℕ → ℕ → ℕ → Answer GlintsPagination)
    → (RawSourceJob → RawSourceJob)
    → Settings
    → (glints_page_size limit : ℕ) → Fetched
fetch_glints page_size_answer merge_glints_list_with_fallback settings glints_page_size limit =
    let page_size = page_size_of glints_page_size (target_limit_of settings limit) in
    fetch_live (glints page_size (page_size_answer page_size) merge_glints_list_with_fallback)
      settings limit

-- The page size bounds the steps of the offset only: the query does not carry it.
pub fetch_kalibrr :
    (ℕ → ℕ → Answer KalibrrPagination)
    → (RawSourceJob → Option RawSourceJob)
    → Settings
    → (kalibrr_page_size limit : ℕ) → Fetched
fetch_kalibrr answer merge_kalibrr_list_and_detail settings kalibrr_page_size limit =
    let page_size = min (page_size_of kalibrr_page_size (target_limit_of settings limit)) 100 in
    fetch_live (kalibrr page_size answer merge_kalibrr_list_and_detail) settings limit

pub fetch_kitalulus :
    (page_size_answer : ℕ → ℕ → ℕ → Answer KitalulusPagination)
    → (ℕ → RawSourceJob → Option RawSourceJob)
    → Settings
    → (kitalulus_page_size limit : ℕ) → Fetched
fetch_kitalulus page_size_answer fetch_enriched_job settings kitalulus_page_size limit =
    let page_size = min (page_size_of kitalulus_page_size (target_limit_of settings limit)) 100 in
    fetch_live (kitalulus (page_size_answer page_size) fetch_enriched_job) settings limit

-- `challenge_state`, which the JobStreet sources of one run share.
pub record ChallengeState : Type 0 where
  pub blocked : Bool
  pub reason : StopReason

abbrev pub challenge_reason : (has_cookie : Bool) → StopReason
challenge_reason true = cloudflare_challenge
challenge_reason false = cloudflare_challenge_cookie_required

abbrev challenged :
    (has_cookie is_challenge : Bool)
    → PaginatedFetchResult
    → SourceException
    → ChallengeState
    → Fetched × ChallengeState
challenged has_cookie false result e state = (fetched result (some e), state)
challenged has_cookie true result e state = (
  fetched (record result { stop_reason = challenge_reason has_cookie }) (some e),
  record { blocked = true; reason = challenge_reason has_cookie },
)

abbrev pub blocker_of : SourceException → Bool
blocker_of (fetch_failure status blocker) = is_challenge blocker
blocker_of _ = false

abbrev note_challenge : (has_cookie : Bool) → Fetched → ChallengeState → Fetched × ChallengeState
note_challenge has_cookie raised state = (raised, state)
note_challenge has_cookie (fetched result none) state = (fetched result none, state)
note_challenge has_cookie (fetched result (some e)) state =
    challenged has_cookie (blocker_of e) result e state

abbrev pub not_attempted : StopReason → PaginatedFetchResult
not_attempted reason = record {
  raw_jobs = [];
  pages_attempted = 0;
  pages_succeeded = 0;
  pages_failed = 0;
  stop_reason = reason;
  deduped_count = 0;
  total_available = none;
}

-- The JobStreet fetcher; `has_cookie` says that a cookie that is not blank is configured.
unfoldable pub fetch_jobstreet :
    PagedSource JobStreetPagination
    → Settings
    → (limit : ℕ) (has_cookie : Bool) → ChallengeState
    → Fetched × ChallengeState
fetch_jobstreet s settings limit has_cookie state =
    if state.blocked
    then (fetched (not_attempted state.reason) none, state)
    else note_challenge has_cookie (fetch_live s settings limit) state
