-- ===== src/Scheduler/Tests.antt =====
-- Two calls of the guard that overlap.
use bisakerja_scraper.Prelude.{[], ◌∷◌}
use bisakerja_scraper.Scheduler.{scrape, sync, Reachable, initial, begin}
use bisakerja_scraper.Scheduler.Guard.{IsExclusive, Reachable-IsExclusive}

overlapping : Reachable (scrape ∷ []) (begin sync (begin scrape initial).1).1
unfolding initial begin
overlapping = Reachable.begins sync (Reachable.begins scrape Reachable.start)

Reachable-IsExclusive_example : IsExclusive (scrape ∷ []) (begin sync (begin scrape initial).1).1
Reachable-IsExclusive_example = Reachable-IsExclusive overlapping
