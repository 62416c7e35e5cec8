-- ===== src/Scrape/Sound.antt =====
-- What a fetcher's result says of the pages and the jobs.
use bisakerja_scraper.Prelude.{
  ℕ, zero, suc, ◌+◌, ◌≤◌, ◌<◌, ◌≡◌, ◌∙◌, refl, sym, ap, subst, some, List, ◌++◌, length, arith,
  Bool-cases, Option-cases, inl, inr, ltb, leb,
}
use mathlib.Core.List.{map-append}
use bisakerja_scraper.Scrape.{
  RawSourceJob, Answer, page, failed, broken, PagedSource, PaginatedFetchResult, Fetched, fetched,
  raised, Fetching, StopReason, SourceException, target_reached, source_exhausted,
  max_pages_reached, stop_reason_from_exception, dedupe_new_jobs, enrich_all, after_page, on_answer,
  fetch_pages, fetch_source, starting, empties,
}
use bisakerja_scraper.Scrape.Loop.{ids, AreDistinct, KeepsIds, dedupe_new_jobs-seen, enrich_all-ids}

-- What each reason to stop says.
abbrev pub StoppedBy : StopReason → (target max_pages : ℕ) → PaginatedFetchResult → Type 0
StoppedBy target_reached target max_pages r = (target ≤ length r.raw_jobs) × (r.pages_failed ≡ 0)
StoppedBy max_pages_reached target max_pages r =
    (length r.raw_jobs < target) × (r.pages_attempted ≡ max_pages) × (r.pages_failed ≡ 0)
StoppedBy source_exhausted target max_pages r = (length r.raw_jobs < target) × (r.pages_failed ≡ 0)
StoppedBy _ target max_pages r = (length r.raw_jobs < target) × (r.pages_failed ≡ 1)

-- A fetcher's result is sound: it attempted at most the allowed pages, each of which succeeded or failed,
-- its jobs have distinct identifiers, and its reason to stop is the true one.
abbrev pub IsSound : (target max_pages : ℕ) → Fetched → Type 0
IsSound target max_pages raised = Unit
IsSound target max_pages (fetched r e) =
    (r.pages_attempted ≤ max_pages)
    × (r.pages_attempted ≡ r.pages_succeeded + r.pages_failed)
    × AreDistinct (ids r.raw_jobs)
    × StoppedBy r.stop_reason target max_pages r

-- The state at the head of the loop.
record IsReady (max_pages pages_left : ℕ) (f : Fetching) : Type 0 where
  spent : f.pages_attempted + pages_left ≡ max_pages
  succeeded : f.pages_attempted ≡ f.pages_succeeded
  same_ids : f.seen_external_ids ≡ ids f.collected
  distinct : AreDistinct f.seen_external_ids

error-StoppedBy :
    (target max_pages : ℕ) (e : SourceException) (r : PaginatedFetchResult)
    → length r.raw_jobs < target
    → r.pages_failed ≡ 1
    → StoppedBy (stop_reason_from_exception e) target max_pages r
unfolding stop_reason_from_exception
error-StoppedBy target max_pages e r h k = ground arith

-- The state when a page is attempted.
record IsAttempting (target max_pages pages_left : ℕ) (f : Fetching) : Type 0 where
  spent : f.pages_attempted + pages_left ≡ max_pages
  attempted : f.pages_attempted ≡ f.pages_succeeded + 1
  same_ids : f.seen_external_ids ≡ ids f.collected
  distinct : AreDistinct f.seen_external_ids
  wanted : length f.collected < target

module _ {P : Type 0} (s : PagedSource P) (target max_pages : ℕ)
    (keep_ids : (attempt : ℕ) → KeepsIds (s.enriched attempt)) where
  module _ (pages_left : ℕ) (again : Fetching → Fetched)
      (ih : (g : Fetching)
        → IsReady max_pages pages_left g
        → IsSound target max_pages (again g)) where
    -- The end of the body, for the state in which the page's jobs are collected.
    after_page-IsSound :
        (raw_jobs : List RawSourceJob) (pagination : P) (f : Fetching) (jobs : List RawSourceJob)
        → IsReady max_pages pages_left (record f { collected = f.collected ++ jobs })
        → IsSound target max_pages (after_page s target again raw_jobs pagination f (some jobs))
    after_page-IsSound raw_jobs pagination f jobs ready =
        let g = record f { collected = f.collected ++ jobs } in
        let next : IsReady max_pages pages_left (record g { cursor = s.next f.cursor pagination }) =
          record {
            spent = ready.spent;
            succeeded = ready.succeeded;
            same_ids = ready.same_ids;
            distinct = ready.distinct;
          } in
        let rest = ih (record g { cursor = s.next f.cursor pagination }) next in
        let distinct = subst AreDistinct ready.same_ids ready.distinct in
        elim (Bool-cases (leb target (length g.collected))) [
          | inl reached ↦
              rw reached
                (omega (arith, ready.spent), omega (arith, ready.succeeded), distinct, ground arith)
          | inr short ↦ elim (Bool-cases (leb 2 f.empty_pages)) [
            | inl empty ↦
                rw (short, empty)
                  (
                    omega (arith, ready.spent),
                    omega (arith, ready.succeeded),
                    distinct,
                    ground arith,
                  )
            | inr full ↦ elim (Bool-cases (s.exhausted f.cursor raw_jobs pagination)) [
              | inl last ↦
                  rw (short, full, last)
                    (
                      omega (arith, ready.spent),
                      omega (arith, ready.succeeded),
                      distinct,
                      ground arith,
                    )
              | inr more ↦ rw (short, full, more) rest
            ]
          ]
        ]

    on_answer-IsSound :
        (f : Fetching) (answer : Answer P)
        → IsAttempting target max_pages pages_left f
        → IsSound target max_pages (on_answer s target again f answer)
    on_answer-IsSound f broken h = tt
    on_answer-IsSound f (failed e) h = (
      omega (arith, h.spent),
      omega (arith, h.attempted),
      subst AreDistinct h.same_ids h.distinct,
      error-StoppedBy target max_pages e _ h.wanted refl,
    )
    on_answer-IsSound f (page raw_jobs pagination) h =
        let (page_jobs, deduped_now, seen) = dedupe_new_jobs raw_jobs f.seen_external_ids in
        let g = record f {
          pages_succeeded = f.pages_succeeded + 1;
          total_available = s.total_available f.cursor f.total_available raw_jobs pagination;
          seen_external_ids = seen;
          deduped_count = f.deduped_count + deduped_now;
          empty_pages = empties page_jobs f.empty_pages;
        } in
        let (grown, distinct) = dedupe_new_jobs-seen raw_jobs f.seen_external_ids h.distinct in
        elim (Option-cases (enrich_all (s.enriched f.pages_attempted) page_jobs)) [
          | inl missing ↦ rw missing tt
          | inr (jobs, e) ↦
              let same =
                enrich_all-ids (s.enriched f.pages_attempted) page_jobs jobs
                  (keep_ids f.pages_attempted) e in
              rw e (
                after_page-IsSound raw_jobs pagination g jobs (record {
                  spent = h.spent;
                  succeeded = h.attempted;
                  same_ids =
                      grown
                      ∙ ap (λ seen. seen ++ ids page_jobs) h.same_ids
                      ∙ ap (λ new. ids f.collected ++ new) (sym same)
                      ∙ sym (map-append (λ job. job.external_id) f.collected jobs);
                  distinct = distinct;
                }))
        ]

  fetch_pages-IsSound :
      (pages_left : ℕ) (f : Fetching)
      → IsReady max_pages pages_left f
      → IsSound target max_pages (fetch_pages s target pages_left f)
  unfolding fetch_pages
  fetch_pages-IsSound zero f h =
      let distinct = subst AreDistinct h.same_ids h.distinct in
      elim (Bool-cases (ltb (length f.collected) target)) [
        | inl short ↦
            rw short (
              omega (arith, h.spent),
              omega (arith, h.succeeded),
              distinct,
              ground (arith, h.spent),
            )
        | inr reached ↦
            rw reached (omega (arith, h.spent), omega (arith, h.succeeded), distinct, ground arith)
      ]
  fetch_pages-IsSound (suc pages_left) f h =
      let g = record f { pages_attempted = f.pages_attempted + 1 } in
      elim (Bool-cases (ltb (length f.collected) target)) [
        | inl short ↦ rw short (
            on_answer-IsSound pages_left (fetch_pages s target pages_left)
              (fetch_pages-IsSound pages_left) g (s.answer g.pages_attempted g.cursor)
              (record {
                spent = omega (arith, h.spent);
                attempted = omega (arith, h.succeeded);
                same_ids = h.same_ids;
                distinct = h.distinct;
                wanted = ground arith;
              }))
        | inr reached ↦ rw reached (
          omega (arith, h.spent),
          omega (arith, h.succeeded),
          subst AreDistinct h.same_ids h.distinct,
          ground arith,
        )
      ]

-- Whatever a source answers, if the enrichment keeps the jobs' identifiers, then a fetcher that returns has
-- attempted at most the allowed pages, each of which succeeded or failed, it returns no identifier
-- twice, and its reason to stop is true: with `target_reached` it has as many jobs as wanted, with
-- `max_pages_reached` fewer after all the allowed pages, with `source_exhausted` fewer and no page failed,
-- and with any other reason fewer and exactly one page failed.
pub fetch_source-IsSound :
    {P : Type 0} (s : PagedSource P) (target max_pages : ℕ)
    → ((attempt : ℕ) → KeepsIds (s.enriched attempt))
    → IsSound target max_pages (fetch_source s target max_pages)
unfolding fetch_source
fetch_source-IsSound s target max_pages keep_ids =
    fetch_pages-IsSound s target max_pages keep_ids max_pages (starting s target)
      (record { spent = omega arith; succeeded = refl; same_ids = refl; distinct = tt })
