-- ===== src/Persistence/Identity.antt =====
-- The upserts keep one row for an identity.
use bisakerja_scraper.Prelude.{
  ℕ, ◌≤◌, ◌≡◌, ◌∙◌, ap, String, Option, Bool, true, false, ◌&&◌, List, same_text, same_text_iff,
  length, keep, arith,
}
use bisakerja_scraper.Prelude.Json.{Json}
use bisakerja_scraper.Prelude.Upsert.{
  upsert_where-table, upsert_where-created, keep-upserted, keep-upserted_other, is_nil,
  changed_or_new,
}
use bisakerja_scraper.Models.{RawJob, NormalizedJob}
use bisakerja_scraper.Persistence.{
  RawJobInput, is_raw, raw_row, changed_raw, upsert_raw_job, CanonicalJob, is_normalized,
  normalized_row, changed_normalized, upsert_normalized_job,
}

-- Two pairs of texts.
abbrev pub same_pair : (a b c d : String) → Bool
same_pair a b c d = same_text a c && same_text b d

pub same_pair_refl : (a b : String) → same_pair a b a b ≡ true
same_pair_refl a b = ground (arith, same_text_iff a a, same_text_iff b b)

-- A pair that equals one differs from all that it differs from.
same_pair_other :
    (a b c d e f : String)
    → same_pair a b c d ≡ true
    → same_pair c d e f ≡ false
    → same_pair a b e f ≡ false
same_pair_other a b c d e f h k = ground (arith, same_text_iff a c, same_text_iff b d)

-- If at most one raw row has the input's source and external identifier, then after the upsert exactly one
-- has, and the rows of any other identity are the same as before.
pub upsert_raw_job-one_row :
    (hash : Json → String) (id : String) (now : ℕ) (job : RawJobInput) (table : List RawJob)
    → (source_platform external_id : String)
    → length (keep (is_raw job.source_platform job.external_id) table) ≤ 1
    → same_pair job.source_platform job.external_id source_platform external_id ≡ false
    → let before = keep (is_raw job.source_platform job.external_id) table in
      let (i, created, stored) = upsert_raw_job hash id now job table in
      (keep (is_raw job.source_platform job.external_id) stored
        ≡ changed_or_new (raw_row hash id now job) (changed_raw hash now job) before)
      × (created ≡ is_nil before)
      × (keep (is_raw source_platform external_id) stored
          ≡ keep (is_raw source_platform external_id) table)
unfolding upsert_raw_job
upsert_raw_job-one_row hash id now job table source_platform external_id unique other =
    let is = is_raw job.source_platform job.external_id in
    let new = raw_row hash id now job in
    let change = changed_raw hash now job in
    let table_eq = upsert_where-table is new change table in
    (
      ap (keep is) table_eq
          ∙ keep-upserted is new change table (same_pair_refl job.source_platform job.external_id)
              (λ row fits. fits) unique,
      upsert_where-created is new change table,
      ap (keep (is_raw source_platform external_id)) table_eq
          ∙ keep-upserted_other is (is_raw source_platform external_id) new change table other
              (λ row fits.
                let differs =
                  same_pair_other row.source_platform row.external_id job.source_platform
                    job.external_id source_platform external_id fits other in
                (differs, differs)),
    )

module _ (id : String) (raw_job_id : Option String) (job : CanonicalJob)
    (table : List NormalizedJob) where
  abbrev pub stored : List NormalizedJob
  stored = (upsert_normalized_job id raw_job_id job table).2

  -- If at most one row has the job's source and external identifier, then after the upsert exactly one
  -- has, which is that row with the job's values, or a new one if there was none, as the result says;
  -- the rows of any other identity are the same as before.
  pub upsert_normalized_job-one_row :
      (source_platform external_id : String)
      → length (keep (is_normalized job.platform job.external_job_id) table) ≤ 1
      → (same_text job.platform source_platform && same_text job.external_job_id external_id)
        ≡ false
      → let before = keep (is_normalized job.platform job.external_job_id) table in
        (keep (is_normalized job.platform job.external_job_id) stored
          ≡ changed_or_new
              (normalized_row id raw_job_id job)
              (changed_normalized raw_job_id job)
              before)
        × ((upsert_normalized_job id raw_job_id job table).1 ≡ is_nil before)
        × (keep (is_normalized source_platform external_id) stored
            ≡ keep (is_normalized source_platform external_id) table)
  unfolding upsert_normalized_job
  upsert_normalized_job-one_row source_platform external_id unique other =
      let is = is_normalized job.platform job.external_job_id in
      let new = normalized_row id raw_job_id job in
      let change = changed_normalized raw_job_id job in
      let table_eq = upsert_where-table is new change table in
      (
        ap (keep is) table_eq
            ∙ keep-upserted is new change table (same_pair_refl job.platform job.external_job_id)
                (λ row fits. fits) unique,
        upsert_where-created is new change table,
        ap (keep (is_normalized source_platform external_id)) table_eq
            ∙ keep-upserted_other is (is_normalized source_platform external_id) new change table
                other
                (λ row fits.
                  let differs =
                    same_pair_other row.source_platform row.external_id job.platform
                      job.external_job_id source_platform external_id fits other in
                  (differs, differs)),
      )
