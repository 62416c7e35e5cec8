-- ===== src/Eligibility/Decision.antt =====
-- `EligibilityResolver`: what the decision for one raw job says.
use bisakerja_scraper.Prelude.{◌≡◌, String, none, some, true, false, List, arith}
use bisakerja_scraper.Prelude.Text.{member}
use bisakerja_scraper.Models.{RawJob}
use bisakerja_scraper.Eligibility.{
  Scope, decide, key_of, source_key, external_key, find_normalized, is_eligible,
}

-- A raw job that is new: it has an identity, which no earlier job of the batch has, which the backend
-- does not have, and which no stored job has.
abbrev pub IsNew : Scope → RawJob → List String → Type 0
IsNew s raw_job seen =
    ((key : String) × (key_of s raw_job ≡ some key) × (member key seen ≡ false))
    × (s.backend_existing (source_key s raw_job) (external_key s raw_job) ≡ none)
    × (find_normalized s (source_key s raw_job) (external_key s raw_job) s.normalized_jobs ≡ none)

pub decide-IsNew :
    (s : Scope) (raw_job : RawJob) (seen : List String)
    → is_eligible (decide s raw_job seen).reason ≡ true
    → IsNew s raw_job seen
unfolding decide
decide-IsNew s raw_job seen h = ground arith
