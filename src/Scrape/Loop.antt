-- ===== src/Scrape/Loop.antt =====
-- The parts of the page loop: the removal of duplicates, and the enrichment.
use bisakerja_scraper.Prelude.{
  ◌≡◌, ◌∙◌, refl, sym, Option, some, false, ◌||◌, List, [], ◌∷◌, ◌++◌, String, same_text_iff, arith,
  map, Bool-cases, Option-cases, inl, inr,
}
use mathlib.Core.List.{append_assoc, append-nil}
use bisakerja_scraper.Prelude.Text.{member}
use bisakerja_scraper.Scrape.{RawSourceJob, dedupe_new_jobs, enrich_all}

abbrev pub ids : List RawSourceJob → List String
ids jobs = map (λ job. job.external_id) jobs

-- No text stands twice.
abbrev pub AreDistinct : List String → Type 0
AreDistinct [] = Unit
AreDistinct (text ∷ texts) = (member text texts ≡ false) × AreDistinct texts

member-append :
    (text : String) (xs ys : List String)
    → member text (xs ++ ys) ≡ (member text xs || member text ys)
member-append text [] ys = refl
member-append text (x ∷ xs) ys = ground (arith, member-append text xs ys)

AreDistinct-append_last :
    (text : String) (texts : List String)
    → AreDistinct texts
    → member text texts ≡ false
    → AreDistinct (texts ++ text ∷ [])
AreDistinct-append_last text [] d m = (refl, tt)
AreDistinct-append_last text (x ∷ xs) d m = (
  ground (arith, member-append x xs (text ∷ []), same_text_iff x text, same_text_iff text x),
  AreDistinct-append_last text xs d.1 (ground arith),
)

-- `dedupe_new_jobs` keeps the set free of duplicates and adds to it the identifiers of the selected jobs.
pub dedupe_new_jobs-seen :
    (jobs : List RawSourceJob) (seen : List String)
    → AreDistinct seen
    → ((dedupe_new_jobs jobs seen).2 ≡ seen ++ ids (dedupe_new_jobs jobs seen).0)
      × AreDistinct (dedupe_new_jobs jobs seen).2
unfolding dedupe_new_jobs
dedupe_new_jobs-seen [] seen d = (sym (append-nil seen), d)
dedupe_new_jobs-seen (job ∷ jobs) seen d = elim (Bool-cases (member job.external_id seen)) [
  | inl known ↦ rw known (dedupe_new_jobs-seen jobs seen d)
  | inr new ↦
      let rest =
        dedupe_new_jobs-seen jobs (seen ++ job.external_id ∷ [])
          (AreDistinct-append_last job.external_id seen d new) in
      rw new (rest.0 ∙ append_assoc seen (job.external_id ∷ []) _, rest.1)
]

-- The enrichment changes no identifier.
pub record KeepsIds (enriched : RawSourceJob → Option RawSourceJob) : Type 0 where
  pub keeps :
      (job job' : RawSourceJob) → enriched job ≡ some job' → job'.external_id ≡ job.external_id

pub enrich_all-ids :
    (enriched : RawSourceJob → Option RawSourceJob) (jobs jobs' : List RawSourceJob)
    → KeepsIds enriched
    → enrich_all enriched jobs ≡ some jobs'
    → ids jobs' ≡ ids jobs
unfolding enrich_all
enrich_all-ids enriched [] jobs' k e = ground arith
enrich_all-ids enriched (job ∷ jobs) jobs' k e = elim (Option-cases (enriched job)) [
  | inl missing ↦ absurd (ground arith)
  | inr (job', found) ↦ elim (Option-cases (enrich_all enriched jobs)) [
    | inl missing ↦ absurd (ground arith)
    | inr (rest, all) ↦
        let ih = enrich_all-ids enriched jobs rest k all in
        let one = k.keeps job job' found in ground arith
  ]
]
