-- ===== src/Freshness.antt =====
-- src/modules/freshness/service.py: the policy, and the sweep over the jobs of one source. The sweep
-- reads and writes each job by itself, so it walks the table in the order of its rows.
pub mod Counts
pub mod Again
pub mod Rows
mod Tests
use bisakerja_scraper.Prelude.{
  ℕ, ◌+◌, ◌*◌, String, Bool, true, false, not, ◌||◌, List, [], ◌∷◌, ltb, leb, if◌then◌else◌,
  same_text, length, keep, ◌⊎◌, inl, inr,
}
use bisakerja_scraper.Prelude.Text.{member}
use bisakerja_scraper.Models.{
  NormalizedJob, CanonicalJobStatus, active, stale, expired, same_status,
}

pub record FreshnessPolicy : Type 0 where
  pub stale_after_hours : ℕ
  pub expired_after_hours : ℕ

-- `FreshnessPolicy(...)`, or the message of the ValueError that `__post_init__` raises.
pub make_policy : (stale_after_hours expired_after_hours : ℕ) → String ⊎ FreshnessPolicy
make_policy stale_after expired_after =
    if ltb stale_after 1
    then inl "stale_after_hours must be positive"
    else if leb expired_after stale_after
    then inl "expired_after_hours must be greater than stale_after_hours"
    else inr (record { stale_after_hours = stale_after; expired_after_hours = expired_after })

pub record FreshnessSweepSummary : Type 0 where
  pub source_platform : String
  pub active_count : ℕ
  pub stale_count : ℕ
  pub expired_count : ℕ
  pub reactivated_count : ℕ
  pub unchanged_count : ℕ
  pub seen : ℕ
  pub total : ℕ

abbrev pub empty_summary : String → FreshnessSweepSummary
empty_summary source_platform = record {
  source_platform = source_platform;
  active_count = 0;
  stale_count = 0;
  expired_count = 0;
  reactivated_count = 0;
  unchanged_count = 0;
  seen = 0;
  total = 0;
}

-- The arguments of `sweep_source`, with the service's policy; the set of identifiers is a list.
pub record Sweep : Type 0 where
  pub policy : FreshnessPolicy
  pub source_platform : String
  pub seen_external_ids : List String
  pub source_run_successful : Bool
  pub now : ℕ

-- `timedelta(hours=n)` in microseconds.
abbrev pub hours : ℕ → ℕ
hours n = n * 3600000000

-- `current_time - job.last_seen_at >= timedelta(hours=n)`
pub is_aged : ℕ → ℕ → NormalizedJob → Bool
is_aged n now job = leb (job.last_seen_at + hours n) now

-- The body of the loop, once it is known whether the job was seen.
abbrev pub see_job :
    ℕ → NormalizedJob → FreshnessSweepSummary → NormalizedJob × FreshnessSweepSummary
see_job now job summary = (
  record job { status = active; last_seen_at = now },
  if same_status job.status active
      then record summary { unchanged_count = summary.unchanged_count + 1 }
      else record summary { reactivated_count = summary.reactivated_count + 1 },
)

abbrev pub unchanged : NormalizedJob → FreshnessSweepSummary → NormalizedJob × FreshnessSweepSummary
unchanged job summary = (job, record summary { unchanged_count = summary.unchanged_count + 1 })

abbrev pub age_job :
    FreshnessPolicy
    → ℕ
    → NormalizedJob
    → FreshnessSweepSummary
    → NormalizedJob × FreshnessSweepSummary
age_job policy now job summary =
    if is_aged policy.expired_after_hours now job
    then (
      record job { status = expired },
      if same_status job.status expired
          then record summary { unchanged_count = summary.unchanged_count + 1 }
          else record summary { expired_count = summary.expired_count + 1 },
    )
    else if is_aged policy.stale_after_hours now job
    then (
      record job { status = stale },
      if same_status job.status stale
          then record summary { unchanged_count = summary.unchanged_count + 1 }
          else record summary { stale_count = summary.stale_count + 1 },
    )
    else unchanged job summary

pub sweep_job :
    Sweep → NormalizedJob → FreshnessSweepSummary → NormalizedJob × FreshnessSweepSummary
sweep_job s job summary =
    if member job.external_id s.seen_external_ids
    then see_job s.now job summary
    else if not s.source_run_successful
    then unchanged job summary
    else age_job s.policy s.now job summary

-- The `where` of the query.
pub of_source : Sweep → NormalizedJob → Bool
of_source s job = same_text job.source_platform s.source_platform

-- The loop; a job of another source is not selected.
pub sweep_jobs :
    Sweep → List NormalizedJob → FreshnessSweepSummary → List NormalizedJob × FreshnessSweepSummary
sweep_jobs s [] summary = ([], summary)
sweep_jobs s (job ∷ jobs) summary =
    let (job', summary') = if of_source s job then sweep_job s job summary else (job, summary) in
    let (jobs', summary'') = sweep_jobs s jobs summary' in (job' ∷ jobs', summary'')

abbrev is_active : NormalizedJob → Bool
is_active job = same_status job.status active

-- `sweep_source`: the table and the summary.
pub sweep_source : Sweep → List NormalizedJob → List NormalizedJob × FreshnessSweepSummary
sweep_source s table =
    let (table', summary) = sweep_jobs s table (empty_summary s.source_platform) in
    let jobs = keep (of_source s) table' in
    (
      table',
      record summary {
        active_count = length (keep is_active jobs);
        seen = length s.seen_external_ids;
        total = length jobs;
      },
    )
