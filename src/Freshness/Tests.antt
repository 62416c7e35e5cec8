-- ===== src/Freshness/Tests.antt =====
-- Runs of the sweep on a table of five jobs.
use bisakerja_scraper.Prelude.{
  ℕ, ◌≤◌, ◌≡◌, refl, String, none, true, List, [], ◌∷◌, inr, length, keep,
}
use bisakerja_scraper.Prelude.Json.{Json}
use bisakerja_scraper.Models.{NormalizedJob, CanonicalJobStatus, active, stale, expired, inactive}
use bisakerja_scraper.Freshness.{
  FreshnessPolicy, make_policy, Sweep, sweep_source, sweep_jobs, sweep_job, of_source, is_aged,
  hours,
}
use bisakerja_scraper.Freshness.Counts.{sweep_source-counts, counted}
use bisakerja_scraper.Freshness.Rows.{sweep_source-AllSwept, AllSwept}
use bisakerja_scraper.Freshness.Again.{sweep_source-again, changed}

abbrev job : String → String → CanonicalJobStatus → ℕ → NormalizedJob
job source external status seen_at = record {
  id = external;
  raw_job_id = none;
  source_platform = source;
  external_id = external;
  title = "t";
  company_name = "c";
  source_url = "u";
  apply_url = none;
  status = status;
  normalized_payload = Json.null;
  last_seen_at = seen_at;
  posted_at = none;
}

abbrev policy : FreshnessPolicy
policy = record { stale_after_hours = 24; expired_after_hours = 72 }

abbrev sweep : Sweep
sweep = record {
  policy = policy;
  source_platform = "dealls";
  seen_external_ids = "a" ∷ [];
  source_run_successful = true;
  now = hours 100;
}

abbrev table : List NormalizedJob
table =
    job "dealls" "a" stale 0
    ∷ job "dealls" "b" active 0
    ∷ job "dealls" "c" active (hours 50)
    ∷ job "dealls" "d" inactive (hours 90)
    ∷ job "glints" "a" active 0
    ∷ []

swept :
    (sweep_source sweep table).0
    ≡ job "dealls" "a" active (hours 100)
      ∷ job "dealls" "b" expired 0
      ∷ job "dealls" "c" stale (hours 50)
      ∷ job "dealls" "d" inactive (hours 90)
      ∷ job "glints" "a" active 0
      ∷ []
unfolding sweep_source sweep_jobs sweep_job of_source is_aged
swept = refl

policy_accepted : make_policy 24 72 ≡ inr policy
unfolding make_policy
policy_accepted = refl

sweep_source-counts_example :
    let summary = (sweep_source sweep table).1 in
    (counted summary ≡ summary.total)
    × (summary.total ≡ length (keep (of_source sweep) table))
    × (summary.active_count ≤ summary.total)
sweep_source-counts_example = sweep_source-counts sweep table

sweep_source-AllSwept_example : AllSwept sweep table (sweep_source sweep table).0
sweep_source-AllSwept_example = sweep_source-AllSwept 24 72 sweep table policy_accepted

sweep_source-again_example :
    let after = (sweep_source sweep table).0 in
    ((sweep_source sweep after).0 ≡ after) × (changed (sweep_source sweep after).1 ≡ 0)
sweep_source-again_example = sweep_source-again sweep table
