-- ===== src/Freshness/Again.antt =====
-- A second `FreshnessService.sweep_source` with the same arguments.
use bisakerja_scraper.Prelude.{
  ℕ, ◌+◌, ◌≡◌, inl, inr, refl, ap, cons_eq, ◌∙◌, Bool-cases, List, [], ◌∷◌, arith,
}
use bisakerja_scraper.Models.{NormalizedJob}
use bisakerja_scraper.Freshness.{
  Sweep, FreshnessSweepSummary, sweep_job, sweep_jobs, sweep_source, of_source, empty_summary,
  is_aged,
}

-- The jobs that a sweep has counted as changed.
abbrev pub changed : FreshnessSweepSummary → ℕ
changed summary = summary.reactivated_count + summary.stale_count + summary.expired_count

sweep_job-again :
    (s : Sweep) (job : NormalizedJob) (first summary : FreshnessSweepSummary)
    → ((sweep_job s (sweep_job s job first).0 summary).0 ≡ (sweep_job s job first).0)
      × (changed (sweep_job s (sweep_job s job first).0 summary).1 ≡ changed summary)
unfolding sweep_job is_aged
sweep_job-again s job first summary = ground arith

sweep_job-source :
    (s : Sweep) (job : NormalizedJob) (summary : FreshnessSweepSummary)
    → of_source s (sweep_job s job summary).0 ≡ of_source s job
unfolding sweep_job of_source
sweep_job-source s job summary = ground arith

sweep_jobs-again :
    (s : Sweep) (jobs : List NormalizedJob) (first summary : FreshnessSweepSummary)
    → let swept = (sweep_jobs s jobs first).0 in
      ((sweep_jobs s swept summary).0 ≡ swept)
      × (changed (sweep_jobs s swept summary).1 ≡ changed summary)
unfolding sweep_jobs
sweep_jobs-again s [] first summary = (refl, refl)
sweep_jobs-again s (job ∷ jobs) first summary = elim (Bool-cases (of_source s job)) [
  | inl same ↦
      let one = sweep_job-again s job first summary in
      let job' = (sweep_job s job first).0 in
      let rest = sweep_jobs-again s jobs (sweep_job s job first).1 (sweep_job s job' summary).1 in
      rw (same, sweep_job-source s job first, same) (cons_eq _ _ _ _ one.0 rest.0, rest.1 ∙ one.1)
  | inr other ↦
      let rest = sweep_jobs-again s jobs first summary in
      rw (other, other) (ap (λ xs. job ∷ xs) rest.0, rest.1)
]

-- The sweep is idempotent: a second one with the same arguments leaves every row as the first one left
-- it, and counts no job as reactivated, newly stale or newly expired.
pub sweep_source-again :
    (s : Sweep) (table : List NormalizedJob)
    → let swept = (sweep_source s table).0 in
      ((sweep_source s swept).0 ≡ swept) × (changed (sweep_source s swept).1 ≡ 0)
unfolding sweep_source
sweep_source-again s table =
    let none_yet = empty_summary s.source_platform in sweep_jobs-again s table none_yet none_yet
