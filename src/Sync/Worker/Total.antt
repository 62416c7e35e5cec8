-- ===== src/Sync/Worker/Total.antt =====
-- The loops over the chunks end, and account for every job.
use bisakerja_scraper.Prelude.{
  ℕ, zero, suc, ◌+◌, ◌-◌, ◌≤◌, ◌<◌, ◌≡◌, refl, Option, some, true, false, List, arith, length, take,
  drop, min, max, length-take, length-drop, Bool-cases, inl, inr, ◌==◌, ltb,
}
use bisakerja_scraper.Models.{NormalizedJob}
use bisakerja_scraper.Sync.Events.{Events}
use bisakerja_scraper.Sync.Worker.{
  Outside, Settings, Progress, ChunkSyncResult, nth_chunk, after_chunk, retries_smaller, next_size,
  judge_chunk, reduced, counted_failure, chunk_loop, sync_loop,
}
use bisakerja_scraper.Sync.Worker.Chunk.{sync_chunk-counts}

-- The inner loop ended: it handled `count` of its `size` jobs, and counted each of them.
pub record Done (p : Progress) (size : ℕ) (result : Option (ℕ × Progress)) : Type 0 where
  count : ℕ
  last : Progress
  returns : result ≡ some (count, last)
  positive : 0 < count
  within : count ≤ size
  balance : last.sent + last.failed ≡ p.sent + p.failed + count
  size_positive : 0 < last.chunk_size

module _ (out : Outside) (s : Settings) (positive : 0 < s.min_batch_size) where
  smaller_size :
      (r : ChunkSyncResult) (size : ℕ)
      → retries_smaller s r size ≡ true
      → (0 < next_size s size) × (next_size s size < size) × (r.sent ≡ 0)
  unfolding retries_smaller next_size
  smaller_size r size h = ground arith

  smaller_min :
      (r : ChunkSyncResult) (size : ℕ) → retries_smaller s r size ≡ true → s.min_batch_size < size
  unfolding retries_smaller
  smaller_min r size h = ground arith

  judge_chunk-Done :
      (fuel : ℕ) (jobs : List NormalizedJob) (p q : Progress) (r : ChunkSyncResult)
      → length jobs ≤ fuel
      → 0 < length jobs
      → 0 < q.chunk_size
      → r.sent + r.failed ≡ length jobs
      → q.sent + q.failed ≡ p.sent + p.failed
      → ((fewer : List NormalizedJob) (next : Progress)
          → length fewer < fuel
          → 0 < length fewer
          → 0 < next.chunk_size
          → Done next (length fewer) (chunk_loop out s fuel fewer next))
      → Done p (length jobs) (judge_chunk s (chunk_loop out s fuel) jobs r q)
  judge_chunk-Done fuel jobs p q r room some_jobs sized counts same ih =
      elim (Bool-cases (retries_smaller s r (length jobs))) [
        | inl again ↦
            let (pos, less, nothing) = smaller_size r (length jobs) again in
            let smaller = max (next_size s (length jobs)) s.min_batch_size in
            let shorter : (next_size s (length jobs) == length jobs) ≡ false = ground arith in
            let bound : smaller < length jobs = omega (arith, smaller_min r (length jobs) again) in
            let size : length (take smaller jobs) ≡ smaller =
              omega (arith, length-take smaller jobs) in
            let d =
              ih (take smaller jobs) (reduced smaller q) (omega arith) (omega arith)
                (omega arith) in
            record {
              count = d.count;
              last = d.last;
              returns = rw (again, shorter) d.returns;
              positive = d.positive;
              within = omega (arith, d.within);
              balance = omega (arith, d.balance, same);
              size_positive = d.size_positive;
            }
        | inr last ↦ record {
          count = length jobs;
          last = counted_failure r q;
          returns = rw last;
          positive = some_jobs;
          within = omega arith;
          balance = omega (arith, counts, same);
          size_positive = sized;
        }
      ]

  chunk_loop-Done :
      (fuel : ℕ) (jobs : List NormalizedJob) (p : Progress)
      → length jobs < fuel
      → 0 < length jobs
      → 0 < p.chunk_size
      → Done p (length jobs) (chunk_loop out s fuel jobs p)
  unfolding chunk_loop
  chunk_loop-Done zero jobs p room some_jobs sized = elim room [ ]
  chunk_loop-Done (suc fuel) jobs p room some_jobs sized =
      let attempt = nth_chunk out s (p.chunk_index + 1) jobs p.events in
      judge_chunk-Done fuel jobs p (after_chunk out p attempt) attempt.0 (omega arith) some_jobs
        sized
        (sync_chunk-counts out s.max_attempts s.scrape_run_id _ (p.chunk_index + 1) jobs p.events)
        refl (chunk_loop-Done fuel)

  -- The outer loop ends with every job counted, if the jobs before the cursor are.
  pub sync_loop-balance :
      (jobs : List NormalizedJob) (fuel cursor : ℕ) (p : Progress)
      → length jobs - cursor < fuel
      → cursor ≤ length jobs
      → 0 < p.chunk_size
      → p.sent + p.failed ≡ cursor
      → (last : Progress) × (sync_loop out s jobs fuel cursor p ≡ some last)
        × (last.sent + last.failed ≡ length jobs)
  unfolding sync_loop
  sync_loop-balance jobs zero cursor p room within sized same = elim room [ ]
  sync_loop-balance jobs (suc fuel) cursor p room within sized same =
      elim (Bool-cases (ltb cursor (length jobs))) [
        | inl more ↦
            let current = min p.chunk_size (length jobs - cursor) in
            let size : length (take current (drop cursor jobs)) ≡ current =
              omega (arith, length-take current (drop cursor jobs), length-drop cursor jobs) in
            let less : cursor < length jobs = ground arith in
            let d =
              chunk_loop-Done (suc (length jobs)) (take current (drop cursor jobs)) p (omega arith)
                (omega arith) sized in
            let next =
              sync_loop-balance jobs fuel (cursor + d.count) d.last
                (omega (arith, d.positive, d.within)) (omega (arith, d.within)) d.size_positive
                (omega (arith, d.balance)) in
            (next.0, rw (more, d.returns) (next.1), next.2)
        | inr done ↦ (p, rw done, (ground arith))
      ]
