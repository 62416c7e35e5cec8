-- ===== src/Quarantine/Resolve.antt =====
-- Resolving and listing.
use bisakerja_scraper.Prelude.{
  ℕ, ◌+◌, ◌≡◌, refl, String, Option, none, Bool, not, [], ◌∷◌, length, keep, arith,
}
use bisakerja_scraper.Quarantine.{
  NormalizationQuarantine, Quarantine, list_open, refers_to, resolve_for_raw_job,
}

abbrev pub is_of_other : (raw_job_id : String) → NormalizationQuarantine → Bool
is_of_other raw_job_id row = not (refers_to raw_job_id row.raw_job_id)

-- Resolving a raw job takes exactly its rows out of the listing of open rows, of one source or of all, in
-- the order that the others had; and the number it returns is that of the raw job's open rows.
pub resolve_for_raw_job-list_open :
    (source_platform : Option String) (raw_job_id : String) (now : ℕ) (rows : Quarantine)
    → let (closed, after) = resolve_for_raw_job raw_job_id now rows in
      (list_open source_platform after
        ≡ keep (is_of_other raw_job_id) (list_open source_platform rows))
      × (closed + length (list_open none after) ≡ length (list_open none rows))
unfolding resolve_for_raw_job list_open
resolve_for_raw_job-list_open source_platform raw_job_id now [] = (refl, omega arith)
resolve_for_raw_job-list_open source_platform raw_job_id now (row ∷ rows) =
    let ih = resolve_for_raw_job-list_open source_platform raw_job_id now rows in
    (ground (arith, ih.0), ground (arith, ih.1))
