-- ===== src/Sync/Worker/Requests.antt =====
-- The chunks of a whole run stay within the backend's limit.
use bisakerja_scraper.Prelude.{
  ℕ, zero, suc, ◌+◌, ◌-◌, ◌≤◌, ◌≡◌, Option, none, some, true, List, [], arith, length, take, drop,
  min, max, length-take, Bool-cases, inl, inr, ◌==◌, ltb, leb,
}
use bisakerja_scraper.Models.{NormalizedJob}
use bisakerja_scraper.Sync.Events.{Events}
use bisakerja_scraper.Sync.Worker.{
  Outside, Settings, Progress, ChunkSyncResult, nth_chunk, after_chunk, retries_smaller, next_size,
  judge_chunk, reduced, chunk_loop, advance, sync_loop, candidates_from, batch_or, start,
  sync_eligible_jobs, SyncRun, finished, finish, max_batch_size,
}
use bisakerja_scraper.Sync.Worker.Limits.{AllSmall, sync_chunk-AllSmall}

abbrev pub Safe : Progress → Type 0
Safe p = AllSmall p.events × (p.chunk_size ≤ max_batch_size)

abbrev pub SafeChunk : Option (ℕ × Progress) → Type 0
SafeChunk none = Unit
SafeChunk (some (n, p)) = Safe p

abbrev SafeLoop : Option Progress → Type 0
SafeLoop none = Unit
SafeLoop (some p) = Safe p

module _ (out : Outside) (s : Settings) where
  pub smaller-le :
      (r : ChunkSyncResult) (size : ℕ)
      → retries_smaller s r size ≡ true
      → size ≤ max_batch_size
      → max (next_size s size) s.min_batch_size ≤ max_batch_size
  unfolding retries_smaller next_size
  smaller-le r size h small = ground arith

  judge_chunk-Safe :
      (again : List NormalizedJob → Progress → Option (ℕ × Progress)) (jobs : List NormalizedJob)
      (r : ChunkSyncResult) (p : Progress)
      → length jobs ≤ max_batch_size
      → Safe p
      → ((fewer : List NormalizedJob) (next : Progress)
          → length fewer ≤ max_batch_size
          → Safe next
          → SafeChunk (again fewer next))
      → SafeChunk (judge_chunk s again jobs r p)
  judge_chunk-Safe again jobs r p small safe ih =
      elim (Bool-cases (retries_smaller s r (length jobs))) [
        | inl retry ↦
            let smaller = max (next_size s (length jobs)) s.min_batch_size in
            let bound = smaller-le r (length jobs) retry small in
            let rest =
              ih (take smaller jobs) (reduced smaller p)
                (omega (arith, length-take smaller jobs, bound)) (safe.0, bound) in
            elim (Bool-cases (next_size s (length jobs) == length jobs)) [
              | inl same ↦ rw (retry, same) safe
              | inr other ↦ rw (retry, other) rest
            ]
        | inr done ↦ rw done safe
      ]

  pub chunk_loop-Safe :
      (fuel : ℕ) (jobs : List NormalizedJob) (p : Progress)
      → length jobs ≤ max_batch_size
      → Safe p
      → SafeChunk (chunk_loop out s fuel jobs p)
  unfolding chunk_loop
  chunk_loop-Safe zero jobs p small safe = tt
  chunk_loop-Safe (suc fuel) jobs p small safe =
      let attempt = nth_chunk out s (p.chunk_index + 1) jobs p.events in
      judge_chunk-Safe (chunk_loop out s fuel) jobs attempt.0 (after_chunk out p attempt) small
        (
          sync_chunk-AllSmall out s.max_attempts s.scrape_run_id _ (p.chunk_index + 1) jobs p.events
              small safe.0,
          safe.1,
        )
        (chunk_loop-Safe fuel)

  advance-Safe :
      (again : ℕ → Progress → Option Progress) (cursor : ℕ) (o : Option (ℕ × Progress))
      → SafeChunk o
      → ((c : ℕ) (p : Progress) → Safe p → SafeLoop (again c p))
      → SafeLoop (advance again cursor o)
  advance-Safe again cursor none h ih = tt
  advance-Safe again cursor (some (n, p)) h ih = ih (cursor + n) p h

  sync_loop-Safe :
      (jobs : List NormalizedJob) (fuel cursor : ℕ) (p : Progress)
      → Safe p
      → SafeLoop (sync_loop out s jobs fuel cursor p)
  unfolding sync_loop
  sync_loop-Safe jobs zero cursor p safe = tt
  sync_loop-Safe jobs (suc fuel) cursor p safe = elim (Bool-cases (ltb cursor (length jobs))) [
    | inl more ↦
        let current = min p.chunk_size (length jobs - cursor) in
        rw more (
          advance-Safe (sync_loop out s jobs fuel) cursor _
            (chunk_loop-Safe (suc (length jobs)) (take current (drop cursor jobs)) p
              (omega (arith, length-take current (drop cursor jobs), safe.1)) safe)
            (sync_loop-Safe jobs fuel))
    | inr done ↦ rw done safe
  ]

-- The table that a run leaves is small, where the run returns.
abbrev pub LeavesSmall : SyncRun → Type 0
LeavesSmall (finished result events) = AllSmall events
LeavesSmall _ = Unit

finish-LeavesSmall :
    (attempted : ℕ) (o : Option Progress) → SafeLoop o → LeavesSmall (finish attempted o)
finish-LeavesSmall attempted none h = tt
finish-LeavesSmall attempted (some p) h = h.0

-- A run from a table in which every event's last chunk had at most 25 jobs leaves such a table: no
-- chunk that is sent has more, whatever limit, batch size and minimum batch size are asked for.
pub sync_eligible_jobs-LeavesSmall :
    (out : Outside) (s : Settings) (eligible : List NormalizedJob) (limit : ℕ)
    (batch_size : Option ℕ) (events : Events)
    → AllSmall events
    → LeavesSmall (sync_eligible_jobs out s eligible limit batch_size events)
unfolding sync_eligible_jobs
sync_eligible_jobs-LeavesSmall out s eligible limit batch_size events h =
    let jobs = candidates_from out s.max_attempts limit [] eligible events in
    let size = min (max (batch_or batch_size limit) 1) max_batch_size in
    elim (Bool-cases (leb s.min_batch_size 0)) [
      | inl refused ↦ rw refused tt
      | inr allowed ↦ rw allowed (
          finish-LeavesSmall (length jobs)
            (sync_loop out s jobs (suc (length jobs)) 0 (start events size))
            (sync_loop-Safe out s jobs (suc (length jobs)) 0 (start events size) (h, omega arith)))
    ]
