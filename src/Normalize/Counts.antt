-- ===== src/Normalize/Counts.antt =====
-- What `_normalize_source` counts.
use bisakerja_scraper.Prelude.{
  ℕ, ◌+◌, ◌-◌, ◌≤◌, ◌≡◌, refl, Option, none, some, List, [], ◌∷◌, length, arith, length-append,
}
use bisakerja_scraper.Models.{RawJob}
use bisakerja_scraper.Eligibility.Size.{eligible_raw_jobs-size}
use bisakerja_scraper.Normalize.{
  Raised, Work, rolled_back, Mapped, mapped, failed, Stage, Progress, after_upsert,
  normalize_mapped, normalize_one, normalize_all, Gate, open_gate, resolver, pass, SourceResult,
  started, finished, normalize_source, note_failure, error_summary,
}

-- The counts of the loop after `n` more raw jobs.
abbrev pub Advanced : ℕ → Progress → Progress → Type 0
Advanced n p after =
    (after.counts.fetched ≡ p.counts.fetched)
    × (after.counts.normalized + after.counts.skipped ≡ p.counts.normalized + p.counts.skipped + n)
    × (after.counts.persisted + p.counts.normalized ≡ p.counts.persisted + after.counts.normalized)
    × (length after.errors + p.counts.skipped ≡ length p.errors + after.counts.skipped)

pub note_failure-Advanced :
    (s : Stage) (raw_job : RawJob) (e : Raised) (work : Work) (p : Progress)
    → Advanced 1 p (note_failure s raw_job e work p)
note_failure-Advanced s raw_job e work p =
    let size = length-append p.errors (error_summary s.source_platform e ∷ []) in
    (refl, omega arith, omega arith, omega (arith, size))

after_upsert-Advanced :
    (s : Stage) (raw_job : RawJob) (outcome : Option Work) (p : Progress)
    → Advanced 1 p (after_upsert s raw_job outcome p)
after_upsert-Advanced s raw_job (some work) p = (refl, omega arith, omega arith, refl)
after_upsert-Advanced s raw_job none p =
    note_failure-Advanced s raw_job s.operational_error (rolled_back p.work) p

normalize_mapped-Advanced :
    (s : Stage) (raw_job : RawJob) (outcome : Mapped) (p : Progress)
    → Advanced 1 p (normalize_mapped s raw_job outcome p)
normalize_mapped-Advanced s raw_job (failed e) p = note_failure-Advanced s raw_job e p.work p
normalize_mapped-Advanced s raw_job (mapped job) p = after_upsert-Advanced s raw_job _ p

normalize_all-Advanced :
    (s : Stage) (raw_jobs : List RawJob) (p : Progress)
    → Advanced (length raw_jobs) p (normalize_all s raw_jobs p)
unfolding normalize_all normalize_one
normalize_all-Advanced s [] p = (refl, omega arith, omega arith, refl)
normalize_all-Advanced s (raw_job ∷ rest) p =
    let one = normalize_mapped-Advanced s raw_job (s.map_raw_job raw_job) p in
    let all = normalize_all-Advanced s rest (normalize_one s raw_job p) in
    (
      omega (arith, one.0, all.0),
      omega (arith, one.1, all.1),
      omega (arith, one.2, all.2),
      omega (arith, one.3, all.3),
    )

pass-size : (gate : Gate) (raw_jobs : List RawJob) → length (pass gate raw_jobs) ≤ length raw_jobs
pass-size open_gate raw_jobs = omega arith
pass-size (resolver scope decisions) raw_jobs =
    eligible_raw_jobs-size (record scope { raw_jobs = raw_jobs }) decisions

-- The account of a source: each fetched raw job is normalised or skipped; what is parsed and persisted is
-- what is normalised; what is skipped is what the gate holds back and what fails, an error each.
abbrev pub IsAccounted : Gate → List RawJob → SourceResult → Type 0
IsAccounted gate raw_jobs result =
    (result.counts.fetched ≡ length raw_jobs)
    × (result.counts.normalized + result.counts.skipped ≡ result.counts.fetched)
    × (result.counts.persisted ≡ result.counts.normalized)
    × (result.counts.parsed ≡ result.counts.normalized)
    × (result.counts.skipped
        ≡ (length raw_jobs - length (pass gate raw_jobs)) + length result.errors)

pub finished-IsAccounted :
    (gate : Gate) (raw_jobs : List RawJob) (work : Work) (p : Progress)
    → Advanced (length (pass gate raw_jobs)) (started raw_jobs (pass gate raw_jobs) work) p
    → IsAccounted gate raw_jobs (finished p).0
finished-IsAccounted gate raw_jobs work p all =
    let size = pass-size gate raw_jobs in
    (
      omega (arith, all.0),
      omega (arith, size, all.0, all.1),
      omega (arith, all.2),
      refl,
      omega (arith, all.3),
    )

pub normalize_source-IsAccounted :
    (s : Stage) (gate : Gate) (raw_jobs : List RawJob) (work : Work)
    → IsAccounted gate raw_jobs (normalize_source s gate raw_jobs work).0
unfolding normalize_source
normalize_source-IsAccounted s gate raw_jobs work =
    finished-IsAccounted gate raw_jobs work
      (normalize_all s (pass gate raw_jobs) (started raw_jobs (pass gate raw_jobs) work))
      (normalize_all-Advanced s (pass gate raw_jobs) (started raw_jobs (pass gate raw_jobs) work))
