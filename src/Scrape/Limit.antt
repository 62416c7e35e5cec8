-- ===== src/Scrape/Limit.antt =====
-- What a live source hands to the pipeline.
use bisakerja_scraper.Prelude.{List, map}
use bisakerja_scraper.Scrape.{RawSourceJob, LiveRawJob}

abbrev pub source_jobs : List LiveRawJob → List RawSourceJob
source_jobs jobs = map (λ job. job.source_job) jobs
