-- ===== src/Scrape/Challenge.antt =====
-- The state that the JobStreet sources share after a challenge page.
use bisakerja_scraper.Prelude.{◌≡◌, none, some, true}
use bisakerja_scraper.Scrape.{Fetched, fetched, raised}
use bisakerja_scraper.Scrape.Sources.{blocker_of}

-- The exception that a fetcher stopped at is a challenge.
abbrev pub IsChallenged : Fetched → Type 0
IsChallenged raised = ⊥
IsChallenged (fetched r none) = ⊥
IsChallenged (fetched r (some e)) = blocker_of e ≡ true
