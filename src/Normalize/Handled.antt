-- ===== src/Normalize/Handled.antt =====
-- What the normalisation of a source leaves of each raw job when the database works.
use bisakerja_scraper.Prelude.{
  ℕ, ◌≤◌, ◌≡◌, ◌∙◌, refl, String, Option, some, true, false, List, [], ◌∷◌, length, keep, All,
  arith, same_text, same_text_iff,
}
use bisakerja_scraper.Prelude.Text.{member}
use bisakerja_scraper.Prelude.Upsert.{upsert_where-table, keep-upserted_grows, keep-upserted_some}
use bisakerja_scraper.Models.{NormalizedJob, RawJob}
use bisakerja_scraper.Persistence.{
  CanonicalJob, is_normalized, normalized_row, changed_normalized, upsert_normalized_job,
}
use bisakerja_scraper.Persistence.Identity.{same_pair_refl}
use bisakerja_scraper.Quarantine.Rows.{
  open_rows, record_raw_job_failure-open_rows, record_raw_job_failure-open_rows_other,
  resolve_for_raw_job-open_rows, resolve_for_raw_job-open_rows_other,
}
use bisakerja_scraper.Eligibility.Rows.{ids, AreDistinct}
use bisakerja_scraper.Eligibility.Size.{eligible_raw_jobs-AreDistinct}
use bisakerja_scraper.Normalize.{
  Stores, Work, Mapped, mapped, failed, Stage, Progress, quarantined, released, upsert_operation,
  normalize_mapped, normalize_one, normalize_all, Gate, open_gate, resolver, pass, started,
  normalize_source, db_operation_with_retry,
}

-- The number of the stored rows of a job's identity.
abbrev pub rows_of : CanonicalJob → List NormalizedJob → ℕ
rows_of job rows = length (keep (is_normalized job.platform job.external_job_id) rows)

-- The raw job has an open quarantine row, or a row of what it was mapped to and no open quarantine row.
abbrev pub IsHandled : Stores → RawJob → Mapped → Type 0
IsHandled stores raw_job (failed e) = 1 ≤ open_rows raw_job.id stores.quarantine
IsHandled stores raw_job (mapped job) =
    (1 ≤ rows_of job stores.normalized_jobs) × (open_rows raw_job.id stores.quarantine ≡ 0)

-- No OperationalError.
abbrev pub Works : Stage → RawJob → Type 0
Works s raw_job = s.operational_errors raw_job ≡ 0

-- The step of the loop on the tables, when the database works.
abbrev settled : Stage → RawJob → Mapped → Stores → Stores
settled s raw_job (failed e) stores = record stores {
  quarantine = quarantined s raw_job e stores.quarantine;
}
settled s raw_job (mapped job) stores =
    let written = upsert_operation s raw_job job stores in
    record written { quarantine = released s raw_job written.quarantine }

normalize_mapped-settled :
    (s : Stage) (raw_job : RawJob) (outcome : Mapped) (p : Progress)
    → Works s raw_job
    → (normalize_mapped s raw_job outcome p).work.current ≡ settled s raw_job outcome p.work.current
unfolding db_operation_with_retry
normalize_mapped-settled s raw_job (failed e) p w = refl
normalize_mapped-settled s raw_job (mapped job) p w = rw w refl

pub upsert_normalized_job-rows_of :
    (id : String) (raw_job_id : Option String) (job : CanonicalJob) (rows : List NormalizedJob)
    → 1 ≤ rows_of job (upsert_normalized_job id raw_job_id job rows).2
unfolding upsert_normalized_job
upsert_normalized_job-rows_of id raw_job_id job rows =
    let is = is_normalized job.platform job.external_job_id in
    let new = normalized_row id raw_job_id job in
    let change = changed_normalized raw_job_id job in
    let some_row =
      keep-upserted_some is new change rows (same_pair_refl job.platform job.external_job_id)
        (λ row. refl) in
    rw (upsert_where-table is new change rows) some_row

upsert_normalized_job-rows_of_other :
    (id : String) (raw_job_id : Option String) (job other : CanonicalJob)
    (rows : List NormalizedJob)
    → rows_of other rows ≤ rows_of other (upsert_normalized_job id raw_job_id job rows).2
unfolding upsert_normalized_job
upsert_normalized_job-rows_of_other id raw_job_id job other rows =
    let is = is_normalized job.platform job.external_job_id in
    let new = normalized_row id raw_job_id job in
    let change = changed_normalized raw_job_id job in
    let grows =
      keep-upserted_grows is (is_normalized other.platform other.external_job_id) new change rows
        (λ row. refl) in
    rw (upsert_where-table is new change rows) grows

module _ (s : Stage) (kept : s.has_quarantine ≡ true) where
  settled-IsHandled :
      (raw_job : RawJob) (outcome : Mapped) (stores : Stores)
      → IsHandled (settled s raw_job outcome stores) raw_job outcome
  settled-IsHandled raw_job (failed e) stores =
      rw kept (record_raw_job_failure-open_rows raw_job _ stores.quarantine)
  settled-IsHandled raw_job (mapped job) stores = (
    upsert_normalized_job-rows_of (s.new_id raw_job) (some raw_job.id) job stores.normalized_jobs,
    rw kept (resolve_for_raw_job-open_rows raw_job.id s.now stores.quarantine),
  )

  settled-open_rows :
      (raw_job : RawJob) (outcome : Mapped) (stores : Stores) (id : String)
      → same_text raw_job.id id ≡ false
      → open_rows id (settled s raw_job outcome stores).quarantine ≡ open_rows id stores.quarantine
  settled-open_rows raw_job (failed e) stores id other =
      rw kept (record_raw_job_failure-open_rows_other raw_job _ stores.quarantine id other)
  settled-open_rows raw_job (mapped job) stores id other =
      rw kept (resolve_for_raw_job-open_rows_other raw_job.id s.now stores.quarantine id other)

  settled-rows_of :
      (raw_job : RawJob) (outcome : Mapped) (stores : Stores) (job : CanonicalJob)
      → rows_of job stores.normalized_jobs
        ≤ rows_of job (settled s raw_job outcome stores).normalized_jobs
  settled-rows_of raw_job (failed e) stores job = omega arith
  settled-rows_of raw_job (mapped written) stores job =
      upsert_normalized_job-rows_of_other (s.new_id raw_job) (some raw_job.id) written job
        stores.normalized_jobs

  -- A raw job stays handled while others are.
  settled-IsHandled_other :
      (raw_job other : RawJob) (outcome outcome' : Mapped) (stores : Stores)
      → same_text raw_job.id other.id ≡ false
      → IsHandled stores other outcome'
      → IsHandled (settled s raw_job outcome stores) other outcome'
  settled-IsHandled_other raw_job other outcome (failed e) stores apart h =
      omega (arith, settled-open_rows raw_job outcome stores other.id apart, h)
  settled-IsHandled_other raw_job other outcome (mapped job) stores apart h = (
    omega (arith, settled-rows_of raw_job outcome stores job, h.0),
    settled-open_rows raw_job outcome stores other.id apart ∙ h.1,
  )

  normalize_all-IsHandled_other :
      (raw_jobs : List RawJob) (other : RawJob) (outcome : Mapped) (p : Progress)
      → All (Works s) raw_jobs
      → member other.id (ids raw_jobs) ≡ false
      → IsHandled p.work.current other outcome
      → IsHandled (normalize_all s raw_jobs p).work.current other outcome
  unfolding normalize_all normalize_one
  normalize_all-IsHandled_other [] other outcome p w apart h = h
  normalize_all-IsHandled_other (raw_job ∷ rest) other outcome p w apart h =
      let mapping = s.map_raw_job raw_job in
      let one = normalize_mapped-settled s raw_job mapping p w.0 in
      let differs : same_text raw_job.id other.id ≡ false =
        ground (arith, same_text_iff raw_job.id other.id, same_text_iff other.id raw_job.id) in
      normalize_all-IsHandled_other rest other outcome (normalize_one s raw_job p) w.1
        (ground arith)
        (rw one (settled-IsHandled_other raw_job other mapping outcome p.work.current differs h))

  normalize_all-IsHandled :
      (raw_jobs : List RawJob) (p : Progress)
      → All (Works s) raw_jobs
      → AreDistinct raw_jobs
      → All
          (λ raw_job.
            IsHandled (normalize_all s raw_jobs p).work.current raw_job (s.map_raw_job raw_job))
          raw_jobs
  unfolding normalize_all normalize_one
  normalize_all-IsHandled [] p w d = tt
  normalize_all-IsHandled (raw_job ∷ rest) p w d =
      let mapping = s.map_raw_job raw_job in
      let one = normalize_mapped-settled s raw_job mapping p w.0 in
      (
        normalize_all-IsHandled_other rest raw_job mapping (normalize_one s raw_job p) w.1 d.0
            (rw one (settled-IsHandled raw_job mapping p.work.current)),
        normalize_all-IsHandled rest (normalize_one s raw_job p) w.1 d.1,
      )

  pass-AreDistinct :
      (gate : Gate) (raw_jobs : List RawJob)
      → AreDistinct raw_jobs
      → AreDistinct (pass gate raw_jobs)
  pass-AreDistinct open_gate raw_jobs d = d
  pass-AreDistinct (resolver scope decisions) raw_jobs d =
      eligible_raw_jobs-AreDistinct (record scope { raw_jobs = raw_jobs }) decisions d

  -- If failures are quarantined, the raw jobs have distinct identifiers and the database raises no
  -- OperationalError for those that pass the gate, then each of those is handled in what is committed: one
  -- whose mapping succeeds has a normalised row of its identity and no open quarantine row, and one whose
  -- mapping fails has an open quarantine row.
  pub normalize_source-IsHandled :
      (gate : Gate) (raw_jobs : List RawJob) (work : Work)
      → AreDistinct raw_jobs
      → All (Works s) (pass gate raw_jobs)
      → All
          (λ raw_job.
            IsHandled
              (normalize_source s gate raw_jobs work).1.committed
              raw_job
              (s.map_raw_job raw_job))
          (pass gate raw_jobs)
  unfolding normalize_source
  normalize_source-IsHandled gate raw_jobs work d w =
      normalize_all-IsHandled (pass gate raw_jobs) (started raw_jobs (pass gate raw_jobs) work) w
        (pass-AreDistinct gate raw_jobs d)
