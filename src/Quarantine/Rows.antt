-- ===== src/Quarantine/Rows.antt =====
-- The open rows of one raw job, through recording and resolving.
use bisakerja_scraper.Prelude.{
  ℕ, ◌+◌, ◌≤◌, ◌≡◌, refl, String, Option, none, some, true, false, [], ◌∷◌, ◌++◌, length, keep,
  arith, if◌then◌else◌, same_text, same_text_iff,
}
use bisakerja_scraper.Models.{RawJob}
use bisakerja_scraper.Quarantine.{
  Quarantine, Failure, NormalizationQuarantine, quarantine_row, failure_input, is_open_for,
  refers_to, record_item, record_raw_job_failure, resolve_for_raw_job,
}

-- The number of the open rows of a raw job.
abbrev pub open_rows : (raw_job_id : String) → Quarantine → ℕ
open_rows raw_job_id rows = length (keep (is_open_for raw_job_id) rows)

open_rows-append :
    (raw_job_id : String) (rows : Quarantine) (row : NormalizationQuarantine)
    → open_rows raw_job_id (rows ++ row ∷ [])
      ≡ open_rows raw_job_id rows + (if is_open_for raw_job_id row then 1 else 0)
open_rows-append raw_job_id [] row = ground arith
open_rows-append raw_job_id (x ∷ rows) row = ground (arith, open_rows-append raw_job_id rows row)

pub record_raw_job_failure-open_rows :
    (raw_job : RawJob) (failure : Failure) (rows : Quarantine)
    → 1 ≤ open_rows raw_job.id (record_raw_job_failure raw_job failure rows)
unfolding record_raw_job_failure record_item
record_raw_job_failure-open_rows raw_job failure rows =
    let row = quarantine_row (failure_input raw_job failure) in
    let same = (same_text_iff raw_job.id raw_job.id).1 refl in
    ground (arith, open_rows-append raw_job.id rows row, same)

pub record_raw_job_failure-open_rows_other :
    (raw_job : RawJob) (failure : Failure) (rows : Quarantine) (id : String)
    → same_text raw_job.id id ≡ false
    → open_rows id (record_raw_job_failure raw_job failure rows) ≡ open_rows id rows
unfolding record_raw_job_failure record_item
record_raw_job_failure-open_rows_other raw_job failure rows id other =
    ground (arith, open_rows-append id rows (quarantine_row (failure_input raw_job failure)), other)

pub resolve_for_raw_job-open_rows :
    (id : String) (now : ℕ) (rows : Quarantine)
    → open_rows id (resolve_for_raw_job id now rows).1 ≡ 0
unfolding resolve_for_raw_job
resolve_for_raw_job-open_rows id now [] = refl
resolve_for_raw_job-open_rows id now (row ∷ rows) =
    ground (arith, resolve_for_raw_job-open_rows id now rows)

-- A row that refers to one raw job refers to no other one.
refers_to_other :
    (reference : Option String) (a b : String)
    → same_text a b ≡ false
    → refers_to a reference ≡ true
    → refers_to b reference ≡ false
refers_to_other none a b other h = absurd (cc)
refers_to_other (some id) a b other h =
    ground (arith, same_text_iff id a, same_text_iff id b, same_text_iff a b)

pub resolve_for_raw_job-open_rows_other :
    (id : String) (now : ℕ) (rows : Quarantine) (other_id : String)
    → same_text id other_id ≡ false
    → open_rows other_id (resolve_for_raw_job id now rows).1 ≡ open_rows other_id rows
unfolding resolve_for_raw_job
resolve_for_raw_job-open_rows_other id now [] other_id other = refl
resolve_for_raw_job-open_rows_other id now (row ∷ rows) other_id other =
    let ih = resolve_for_raw_job-open_rows_other id now rows other_id other in
    let apart = refers_to_other row.raw_job_id id other_id other in ground (arith, ih, apart)
