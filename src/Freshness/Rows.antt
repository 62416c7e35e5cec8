-- ===== src/Freshness/Rows.antt =====
-- The rows after `FreshnessService.sweep_source`.
use bisakerja_scraper.Prelude.{
  ℕ, ◌+◌, ◌≤◌, ◌<◌, ◌≡◌, ◌⊎◌, inl, inr, refl, true, false, List, [], ◌∷◌, Bool-cases, arith,
  if◌then◌else◌,
}
use bisakerja_scraper.Prelude.Text.{member}
use bisakerja_scraper.Models.{NormalizedJob, active, stale, expired}
use bisakerja_scraper.Freshness.{
  FreshnessPolicy, make_policy, Sweep, FreshnessSweepSummary, sweep_job, sweep_jobs, sweep_source,
  of_source, empty_summary, is_aged, hours,
}

-- A job of the source that the run saw.
abbrev Seen : Sweep → NormalizedJob → NormalizedJob → Type 0
Seen s old new = new ≡ record old { status = active; last_seen_at = s.now }

-- A job of the source that the run did not see: an expired mark and a stale one need a run that
-- succeeded and an age, and a job that keeps its status is younger than both ages, or the run failed.
abbrev Unseen : Sweep → NormalizedJob → NormalizedJob → Type 0
Unseen s old new =
    ((new ≡ record old { status = expired })
      × (s.source_run_successful ≡ true)
      × (old.last_seen_at + hours s.policy.expired_after_hours ≤ s.now))
    ⊎ ((new ≡ record old { status = stale })
        × (s.source_run_successful ≡ true)
        × (old.last_seen_at + hours s.policy.stale_after_hours ≤ s.now)
        × (s.now < old.last_seen_at + hours s.policy.expired_after_hours))
    ⊎ ((new ≡ old)
        × ((s.source_run_successful ≡ false)
            ⊎ (s.now < old.last_seen_at + hours s.policy.stale_after_hours)))

abbrev Selected : Sweep → NormalizedJob → NormalizedJob → Type 0
Selected s old new =
    if member old.external_id s.seen_external_ids then Seen s old new else Unseen s old new

-- What the sweep may do to one row.
abbrev pub Swept : Sweep → NormalizedJob → NormalizedJob → Type 0
Swept s old new = if of_source s old then Selected s old new else (new ≡ old)

-- Two tables row by row.
abbrev pub AllSwept : Sweep → List NormalizedJob → List NormalizedJob → Type 0
AllSwept s [] [] = Unit
AllSwept s [] (new ∷ news) = ⊥
AllSwept s (old ∷ olds) [] = ⊥
AllSwept s (old ∷ olds) (new ∷ news) = Swept s old new × AllSwept s olds news

sweep_job-Selected :
    (s : Sweep) (job : NormalizedJob) (summary : FreshnessSweepSummary)
    → s.policy.stale_after_hours < s.policy.expired_after_hours
    → Selected s job (sweep_job s job summary).0
unfolding sweep_job is_aged
sweep_job-Selected s job summary v = ground arith

sweep_jobs-AllSwept :
    (s : Sweep) (jobs : List NormalizedJob) (summary : FreshnessSweepSummary)
    → s.policy.stale_after_hours < s.policy.expired_after_hours
    → AllSwept s jobs (sweep_jobs s jobs summary).0
unfolding sweep_jobs
sweep_jobs-AllSwept s [] summary v = tt
sweep_jobs-AllSwept s (job ∷ jobs) summary v = elim (Bool-cases (of_source s job)) [
  | inl same ↦
      rw same (
        sweep_job-Selected s job summary v,
        sweep_jobs-AllSwept s jobs (sweep_job s job summary).1 v,
      )
  | inr other ↦ rw other (refl, sweep_jobs-AllSwept s jobs summary v)
]

make_policy-lt :
    (a b : ℕ) (policy : FreshnessPolicy)
    → make_policy a b ≡ inr policy
    → policy.stale_after_hours < policy.expired_after_hours
unfolding make_policy
make_policy-lt a b policy h = ground arith

-- With a policy that `FreshnessPolicy` accepts, the sweep leaves a job of another source as it is,
-- makes a job of its source that was seen active and last seen now, and changes only the status of
-- one that was not seen: to expired if the run succeeded and the expiry age is reached, to stale if the
-- run succeeded and only the stale age is reached; else it leaves the job as it is, which happens only
-- after a failed run or before the stale age.
pub sweep_source-AllSwept :
    (a b : ℕ) (s : Sweep) (table : List NormalizedJob)
    → make_policy a b ≡ inr s.policy
    → AllSwept s table (sweep_source s table).0
unfolding sweep_source
sweep_source-AllSwept a b s table h =
    sweep_jobs-AllSwept s table (empty_summary s.source_platform) (make_policy-lt a b s.policy h)
