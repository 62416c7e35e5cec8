-- ===== src/Handoff/Worker/Requests.antt =====
-- A run hands on what it prepares.
use bisakerja_scraper.Prelude.{◌≡◌, String, some}
use bisakerja_scraper.Models.{NormalizedJob}
use bisakerja_scraper.Handoff.{SyncedEvent}

-- A row whose foreign key leads to a job.
abbrev pub HasJob : SyncedEvent → Type 0
HasJob row = (job : NormalizedJob) × (row.normalized_job ≡ some job)

abbrev IsReady : SyncedEvent → Type 0
IsReady row = HasJob row × ((run : String) × (row.event.scrape_run_id ≡ some run))
