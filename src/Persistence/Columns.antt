-- ===== src/Persistence/Columns.antt =====
-- The columns of the two rows that `write_job` writes, from what it is given.
use mathlib.Core.Option
use bisakerja_scraper.Prelude.{ℕ, ◌≡◌, refl, String, Option, none, some, List, [], ◌∷◌, All, map}
use bisakerja_scraper.Prelude.Upsert.{changed_or_new, first}
use bisakerja_scraper.Models.{NormalizedJob, RawJob}
use bisakerja_scraper.Persistence.{
  RawJobInput, CanonicalJob, WriteContext, raw_row, changed_raw, normalized_row, changed_normalized,
  raw_id_at,
}

-- The row's own identifier if there was a row, and the new one otherwise.
abbrev pub kept_id : List String → (new : String) → List String
kept_id [] new = new ∷ []
kept_id (id ∷ ids) new = id ∷ []

module _ (c : WriteContext) (raw_input : RawJobInput) (job : CanonicalJob) where
  -- A raw row with the input's values, the hash of its payload, and the time of the write if the input has
  -- none.
  abbrev pub HoldsInput : RawJob → Type 0
  HoldsInput row =
      (row.scrape_run_id ≡ raw_input.scrape_run_id)
      × (row.source_url ≡ raw_input.source_url)
      × (row.raw_payload ≡ raw_input.raw_payload)
      × (row.metadata_json ≡ raw_input.metadata_json)
      × (row.payload_hash ≡ some (c.hash raw_input.raw_payload))
      × (row.scraped_at ≡ Option.get_or raw_input.scraped_at c.now)

  -- A normalised row with the job's values.
  abbrev pub HoldsJob : NormalizedJob → Type 0
  HoldsJob row =
      (row.title ≡ job.title)
      × (row.company_name ≡ job.company_name)
      × (row.source_url ≡ job.source_url)
      × (row.apply_url ≡ job.external_apply_url)
      × (row.status ≡ job.status)
      × (row.normalized_payload ≡ job.payload)
      × (row.last_seen_at ≡ job.last_seen_at)
      × (row.posted_at ≡ job.posted_at)

  raw_row-HoldsInput : (id : String) → HoldsInput (raw_row c.hash id c.now raw_input)
  raw_row-HoldsInput id = (refl, refl, refl, refl, refl, given_or_now raw_input.scraped_at)
    where
      given_or_now :
          (scraped_at : Option ℕ)
          → (raw_row c.hash id c.now (record raw_input { scraped_at = scraped_at })).scraped_at
            ≡ Option.get_or scraped_at c.now
      given_or_now none = refl
      given_or_now (some time) = refl

  abbrev new_raws : List RawJob → List RawJob
  new_raws before =
      changed_or_new (raw_row c.hash c.raw_id c.now raw_input) (changed_raw c.hash c.now raw_input)
        before

  pub raws-columns :
      (before : List RawJob)
      → All HoldsInput (new_raws before)
        × (map (λ row. row.id) (new_raws before) ≡ kept_id (map (λ row. row.id) before) c.raw_id)
        × (map (λ row. some row.id) (new_raws before) ≡ raw_id_at (first (new_raws before)) ∷ [])
  raws-columns [] = ((raw_row-HoldsInput c.raw_id, tt), refl, refl)
  raws-columns (row ∷ rows) = ((raw_row-HoldsInput row.id, tt), refl, refl)

  pub normals-columns :
      (raw_job_id : Option String) (before : List NormalizedJob)
      → let after =
          changed_or_new
            (normalized_row c.normalized_id raw_job_id job)
            (changed_normalized raw_job_id job)
            before in
        All HoldsJob after
        × (map (λ row. row.id) after ≡ kept_id (map (λ row. row.id) before) c.normalized_id)
        × (map (λ row. row.raw_job_id) after ≡ raw_job_id ∷ [])
  normals-columns raw_job_id [] =
      (((refl, refl, refl, refl, refl, refl, refl, refl), tt), refl, refl)
  normals-columns raw_job_id (row ∷ rows) =
      (((refl, refl, refl, refl, refl, refl, refl, refl), tt), refl, refl)
