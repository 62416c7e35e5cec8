-- ===== src/Scrape.antt =====
-- src/cli/pipeline.py: the live sources, that is the loop over a source's result pages with its reasons
-- to stop, and `LivePipelineSource.fetch_raw_jobs`. What a source answers to each attempt, and what the
-- fetching of details makes of a job, are parameters.
pub mod Loop
pub mod Sources
pub mod Sound
pub mod Limit
pub mod Challenge
mod Tests
use bisakerja_scraper.Prelude.{
  ℕ, zero, suc, ◌+◌, ◌-◌, ◌*◌, min, max, String, Option, none, some, Bool, true, false, ◌&&◌, List,
  [], ◌∷◌, ◌++◌, ltb, leb, ◌==◌, if◌then◌else◌, same_text, length, take,
}
use bisakerja_scraper.Prelude.Json.{Json}
use bisakerja_scraper.Prelude.Text.{member}

-- `RawSourceJob`, which each source declares alike.
pub record RawSourceJob : Type 0 where
  pub source_platform : String
  pub external_id : String
  pub source_url : String
  pub raw_payload : Json

-- The texts that `stop_reason` takes.
pub data StopReason : Type 0 where
  target_reached source_exhausted max_pages_reached : StopReason
  parse_error cloudflare_challenge cloudflare_challenge_cookie_required invalid_request
        auth_required rate_limited source_unavailable fetch_error source_error :
      StopReason

-- An exception: a ParseError, a FetchError with the status and the blocker of its details, or another.
pub data SourceException : Type 0 where
  parse_failure other_failure : SourceException
  fetch_failure : (status_code : Option ℕ) (blocker : Option String) → SourceException

abbrev pub is_challenge : Option String → Bool
is_challenge none = false
is_challenge (some blocker) = same_text blocker "cloudflare_challenge"

abbrev status_reason : Option ℕ → StopReason
status_reason none = fetch_error
status_reason (some status) =
    if status == 400
    then invalid_request
    else if status == 401
    then auth_required
    else if status == 403
    then auth_required
    else if status == 429
    then rate_limited
    else if leb 500 status
    then source_unavailable
    else fetch_error

pub stop_reason_from_exception : SourceException → StopReason
stop_reason_from_exception parse_failure = parse_error
stop_reason_from_exception (fetch_failure status blocker) =
    if is_challenge blocker then cloudflare_challenge else status_reason status
stop_reason_from_exception other_failure = source_error

-- `dedupe_new_jobs`: the new jobs, the number of the others, and the set of identifiers, which is a list
-- here that grows at its end.
pub dedupe_new_jobs : List RawSourceJob → List String → List RawSourceJob × ℕ × List String
dedupe_new_jobs [] seen = ([], 0, seen)
dedupe_new_jobs (job ∷ jobs) seen =
    let known = member job.external_id seen in
    let (selected, deduped, seen') =
      dedupe_new_jobs jobs (if known then seen else seen ++ job.external_id ∷ []) in
    if known then (selected, deduped + 1, seen') else (job ∷ selected, deduped, seen')

-- What one attempt brings: a page, a FetchError or a ParseError, or another exception.
pub data Answer (P : Type 0) : Type 0 where
  page : (raw_jobs : List RawSourceJob) (pagination : P) → Answer P
  failed : SourceException → Answer P
  broken : Answer P

-- A source: its answer to an attempt at a cursor, which is a page's number or an offset; what becomes of
-- a job that it lists, `none` for an exception; and how it reads its pagination.
pub record PagedSource (P : Type 0) : Type 0 where
  pub answer : (attempt cursor : ℕ) → Answer P
  pub enriched : (attempt : ℕ) → RawSourceJob → Option RawSourceJob
  pub first : ℕ
  pub total_available : (cursor : ℕ) → Option ℕ → List RawSourceJob → P → Option ℕ
  pub exhausted : (cursor : ℕ) → List RawSourceJob → P → Bool
  pub next : (cursor : ℕ) → P → ℕ

pub record PaginatedFetchResult : Type 0 where
  pub raw_jobs : List RawSourceJob
  pub pages_attempted : ℕ
  pub pages_succeeded : ℕ
  pub pages_failed : ℕ
  pub stop_reason : StopReason
  pub deduped_count : ℕ
  pub total_available : Option ℕ

-- A fetcher returns, with the exception that it stopped at, or lets an exception through.
pub data Fetched : Type 0 where
  fetched : PaginatedFetchResult → Option SourceException → Fetched
  raised : Fetched

-- The variables of the loop.
pub record Fetching : Type 0 where
  pub seen_external_ids : List String
  pub collected : List RawSourceJob
  pub deduped_count : ℕ
  pub pages_attempted : ℕ
  pub pages_succeeded : ℕ
  pub total_available : Option ℕ
  pub empty_pages : ℕ
  pub cursor : ℕ

abbrev pub stop : Fetching → (pages_failed : ℕ) → StopReason → Option SourceException → Fetched
stop f pages_failed stop_reason exception =
    fetched
      (record {
        raw_jobs = f.collected;
        pages_attempted = f.pages_attempted;
        pages_succeeded = f.pages_succeeded;
        pages_failed = pages_failed;
        stop_reason = stop_reason;
        deduped_count = f.deduped_count;
        total_available = f.total_available;
      })
      exception

-- `map_with_concurrency` keeps the order, and raises what any of its calls raises.
pub enrich_all :
    (RawSourceJob → Option RawSourceJob) → List RawSourceJob → Option (List RawSourceJob)
enrich_all enriched [] = some []
enrich_all enriched (job ∷ jobs) = elim (enriched job) [
  | none ↦ none
  | some job' ↦ elim (enrich_all enriched jobs) [ none ↦ none | some jobs' ↦ some (job' ∷ jobs') ]
]

-- `if not page_jobs: empty_pages += 1`
abbrev pub empties : List RawSourceJob → ℕ → ℕ
empties [] empty_pages = empty_pages + 1
empties (job ∷ jobs) empty_pages = 0

module _ {P : Type 0} (s : PagedSource P) (target_limit : ℕ) where
  -- The tests at the end of the loop's body; `again` is the next round.
  abbrev pub after_page :
      (again : Fetching → Fetched)
      → List RawSourceJob
      → P
      → Fetching
      → Option (List RawSourceJob)
      → Fetched
  after_page again raw_jobs pagination f none = raised
  after_page again raw_jobs pagination f (some jobs) =
      let g = record f { collected = f.collected ++ jobs } in
      let rest = again (record g { cursor = s.next f.cursor pagination }) in
      if leb target_limit (length g.collected)
      then stop g 0 target_reached none
      else if leb 2 g.empty_pages
      then stop g 0 source_exhausted none
      else if s.exhausted f.cursor raw_jobs pagination
      then stop g 0 source_exhausted none
      else rest

  -- The loop's body after the attempt is counted.
  abbrev pub on_answer : (again : Fetching → Fetched) → Fetching → Answer P → Fetched
  on_answer again f broken = raised
  on_answer again f (failed e) = stop f 1 (stop_reason_from_exception e) (some e)
  on_answer again f (page raw_jobs pagination) =
      let (page_jobs, deduped_now, seen) = dedupe_new_jobs raw_jobs f.seen_external_ids in
      after_page again raw_jobs pagination
        (record f {
          pages_succeeded = f.pages_succeeded + 1;
          total_available = s.total_available f.cursor f.total_available raw_jobs pagination;
          seen_external_ids = seen;
          deduped_count = f.deduped_count + deduped_now;
          empty_pages = empties page_jobs f.empty_pages;
        })
        (enrich_all (s.enriched f.pages_attempted) page_jobs)

  -- The `while` loop with its `else`, by the number of pages that may still be attempted.
  pub fetch_pages : (pages_left : ℕ) → Fetching → Fetched
  fetch_pages zero f =
      stop f 0 (if ltb (length f.collected) target_limit then max_pages_reached else target_reached)
        none
  fetch_pages (suc pages_left) f =
      let g = record f { pages_attempted = f.pages_attempted + 1 } in
      let round = on_answer (fetch_pages pages_left) g (s.answer g.pages_attempted g.cursor) in
      if ltb (length f.collected) target_limit then round else stop f 0 target_reached none

  abbrev pub starting : Fetching
  starting = record {
    seen_external_ids = [];
    collected = [];
    deduped_count = 0;
    pages_attempted = 0;
    pages_succeeded = 0;
    total_available = none;
    empty_pages = 0;
    cursor = s.first;
  }

  pub fetch_source : (max_pages : ℕ) → Fetched
  fetch_source max_pages = fetch_pages max_pages starting

-- A selected job of `fetch_raw_jobs`, with the `truncatedCount` of its metadata.
pub record LiveRawJob : Type 0 where
  pub source_job : RawSourceJob
  pub keyword : String
  pub requested_limit : ℕ
  pub truncated_count : ℕ
  pub pagination_report : PaginatedFetchResult

abbrev pub live_jobs :
    (keyword : String) (requested_limit truncated_count : ℕ)
    → PaginatedFetchResult
    → List RawSourceJob
    → List LiveRawJob
live_jobs keyword requested_limit truncated_count report [] = []
live_jobs keyword requested_limit truncated_count report (job ∷ jobs) =
    record {
      source_job = job;
      keyword = keyword;
      requested_limit = requested_limit;
      truncated_count = truncated_count;
      pagination_report = report;
    }
    ∷ live_jobs keyword requested_limit truncated_count report jobs

-- `LivePipelineSource.fetch_raw_jobs` of what its fetcher returned.
pub fetch_raw_jobs :
    (keyword : String) (requested_limit : ℕ) → PaginatedFetchResult → List LiveRawJob
fetch_raw_jobs keyword requested_limit report =
    let selected = take requested_limit report.raw_jobs in
    live_jobs keyword requested_limit (length report.raw_jobs - length selected) report selected
