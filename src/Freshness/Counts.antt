-- ===== src/Freshness/Counts.antt =====
-- The counters of `FreshnessService.sweep_source`.
use bisakerja_scraper.Prelude.{
  Bool-cases, inl, inr, ap, suc, ℕ, ◌+◌, ◌≤◌, ◌≡◌, refl, List, [], ◌∷◌, length, keep, length-keep,
  arith,
}
use bisakerja_scraper.Models.{NormalizedJob}
use bisakerja_scraper.Freshness.{
  Sweep, FreshnessSweepSummary, sweep_job, sweep_jobs, sweep_source, of_source, empty_summary,
}

-- The jobs that the sweep has counted as changed or as unchanged.
abbrev pub counted : FreshnessSweepSummary → ℕ
counted summary =
    summary.reactivated_count + summary.unchanged_count + summary.stale_count
    + summary.expired_count

sweep_job-counts :
    (s : Sweep) (job : NormalizedJob) (summary : FreshnessSweepSummary)
    → counted (sweep_job s job summary).1 ≡ counted summary + 1
unfolding sweep_job
sweep_job-counts s job summary = ground arith

sweep_job-source :
    (s : Sweep) (job : NormalizedJob) (summary : FreshnessSweepSummary)
    → of_source s (sweep_job s job summary).0 ≡ of_source s job
unfolding sweep_job of_source
sweep_job-source s job summary = ground arith

sweep_jobs-counts :
    (s : Sweep) (jobs : List NormalizedJob) (summary : FreshnessSweepSummary)
    → counted (sweep_jobs s jobs summary).1
      ≡ counted summary + length (keep (of_source s) (sweep_jobs s jobs summary).0)
unfolding sweep_jobs
sweep_jobs-counts s [] summary = omega arith
sweep_jobs-counts s (job ∷ jobs) summary = elim (Bool-cases (of_source s job)) [
  | inl same ↦
      rw (same, sweep_job-source s job summary, same)
        (omega (
          arith,
          sweep_jobs-counts s jobs (sweep_job s job summary).1,
          sweep_job-counts s job summary,
        ))
  | inr other ↦ rw (other, other) (sweep_jobs-counts s jobs summary)
]

sweep_jobs-selects :
    (s : Sweep) (jobs : List NormalizedJob) (summary : FreshnessSweepSummary)
    → length (keep (of_source s) (sweep_jobs s jobs summary).0) ≡ length (keep (of_source s) jobs)
unfolding sweep_jobs
sweep_jobs-selects s [] summary = refl
sweep_jobs-selects s (job ∷ jobs) summary = elim (Bool-cases (of_source s job)) [
  | inl same ↦
      rw (same, sweep_job-source s job summary, same)
        (ap suc (sweep_jobs-selects s jobs (sweep_job s job summary).1))
  | inr other ↦ rw (other, other) (sweep_jobs-selects s jobs summary)
]

-- Every job of the source is counted exactly once, as reactivated, newly stale, newly expired or
-- unchanged: the four counters of the summary add up to its total, which is the number of the source's
-- jobs in the table, and the active ones are at most that many.
pub sweep_source-counts :
    (s : Sweep) (table : List NormalizedJob)
    → let summary = (sweep_source s table).1 in
      (counted summary ≡ summary.total)
      × (summary.total ≡ length (keep (of_source s) table))
      × (summary.active_count ≤ summary.total)
unfolding sweep_source
sweep_source-counts s table = (
  omega (arith, sweep_jobs-counts s table (empty_summary s.source_platform)),
  sweep_jobs-selects s table (empty_summary s.source_platform),
  length-keep _ _,
)
