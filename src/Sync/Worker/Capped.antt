-- ===== src/Sync/Worker/Capped.antt =====
-- No request asks the backend for more jobs than it takes: a run does not depend on what the backend would
-- reply to one that does.
use bisakerja_scraper.Prelude.{
  ℕ, zero, suc, ◌+◌, ◌-◌, ◌≤◌, ◌≡◌, ◌∙◌, refl, ap, Option, none, some, String, List, [], ◌∷◌, ◌++◌,
  arith, length, take, drop, min, max, length-take, Bool-cases, inl, inr, ltb, leb, le→leb,
  if◌then◌else◌,
}
use bisakerja_scraper.Prelude.Json.{Json}
use bisakerja_scraper.Models.{NormalizedJob}
use bisakerja_scraper.Sync.Events.{Events}
use bisakerja_scraper.Sync.Worker.{
  Outside, Payload, valid, invalid, Reply, Settings, Progress, Prepared, ChunkSyncResult,
  is_candidate, prepare_payload, prepare_jobs, send_prepared, sync_chunk, nth_chunk, after_chunk,
  retries_smaller, next_size, judge_chunk, reduced, chunk_loop, advance, sync_loop, candidates_from,
  batch_or, start, sync_eligible_jobs, max_batch_size,
}
use bisakerja_scraper.Sync.Worker.Limits.{AllSmall}
use bisakerja_scraper.Sync.Worker.Chunk.{length-payload_jobs-le}
use bisakerja_scraper.Sync.Worker.Requests.{
  Safe, SafeChunk, smaller-le, chunk_loop-Safe, LeavesSmall, sync_eligible_jobs-LeavesSmall,
}

-- The same surroundings, but for another reply to a request of more than 25 jobs.
abbrev pub capped : Outside → (other : ℕ → List Json → Reply) → Outside
capped out other = record out {
  sync_jobs =
      λ n chunk. if leb (length chunk) max_batch_size then out.sync_jobs n chunk else other n chunk;
}

module _ (out : Outside) (other : ℕ → List Json → Reply) where
  candidates_from-capped :
      (max_attempts limit : ℕ) (found jobs : List NormalizedJob) (events : Events)
      → candidates_from (capped out other) max_attempts limit found jobs events
        ≡ candidates_from out max_attempts limit found jobs events
  unfolding candidates_from is_candidate
  candidates_from-capped max_attempts limit found [] events = refl
  candidates_from-capped max_attempts limit found (job ∷ jobs) events =
      let found' = if is_candidate out max_attempts job events then found ++ job ∷ [] else found in
      ap (λ rest. if leb limit (length found') then found' else rest)
        (candidates_from-capped max_attempts limit found' jobs events)

  prepare_payload-capped :
      (run_id : Option String) (now : ℕ) (job : NormalizedJob) (built : Payload) (p : Prepared)
      → prepare_payload (capped out other) run_id now job built p
        ≡ prepare_payload out run_id now job built p
  prepare_payload-capped run_id now job (valid payload) p = refl
  prepare_payload-capped run_id now job (invalid message details) p = refl

  prepare_jobs-capped :
      (run_id : Option String) (now : ℕ) (jobs : List NormalizedJob) (p : Prepared)
      → prepare_jobs (capped out other) run_id now jobs p ≡ prepare_jobs out run_id now jobs p
  unfolding prepare_jobs
  prepare_jobs-capped run_id now [] p = refl
  prepare_jobs-capped run_id now (job ∷ jobs) p =
      ap (prepare_jobs (capped out other) run_id now jobs)
        (prepare_payload-capped run_id now job (out.build job) p)
      ∙ prepare_jobs-capped run_id now jobs _

  send_prepared-capped :
      (max_attempts : ℕ) (chunk_id : String) (n : ℕ) (p : Prepared) (payloads : List Json)
      → length payloads ≤ max_batch_size
      → send_prepared (capped out other) max_attempts chunk_id n p payloads
        ≡ send_prepared out max_attempts chunk_id n p payloads
  send_prepared-capped max_attempts chunk_id n p [] small = refl
  send_prepared-capped max_attempts chunk_id n p (payload ∷ payloads) small =
      rw (le→leb (length (payload ∷ payloads)) max_batch_size small) refl

  sync_chunk-capped :
      (max_attempts : ℕ) (run_id : Option String) (chunk_id : String) (n : ℕ)
      (jobs : List NormalizedJob) (events : Events)
      → length jobs ≤ max_batch_size
      → sync_chunk (capped out other) max_attempts run_id chunk_id n jobs events
        ≡ sync_chunk out max_attempts run_id chunk_id n jobs events
  unfolding sync_chunk
  sync_chunk-capped max_attempts run_id chunk_id n [] events small = refl
  sync_chunk-capped max_attempts run_id chunk_id n (job ∷ jobs) events small =
      let p0 : Prepared = record {
        events = events;
        valid_events = [];
        payload_jobs = [];
        failed = 0;
      } in
      let p = prepare_jobs out run_id (out.now n) (job ∷ jobs) p0 in
      ap (λ p. send_prepared (capped out other) max_attempts chunk_id n p p.payload_jobs)
        (prepare_jobs-capped run_id (out.now n) (job ∷ jobs) p0)
      ∙ send_prepared-capped max_attempts chunk_id n p p.payload_jobs
          (omega (arith, length-payload_jobs-le out run_id (out.now n) (job ∷ jobs) events))

  module _ (s : Settings) where
    judge_chunk-same :
        (again again' : List NormalizedJob → Progress → Option (ℕ × Progress))
        (jobs : List NormalizedJob) (r : ChunkSyncResult) (p : Progress)
        → length jobs ≤ max_batch_size
        → ((fewer : List NormalizedJob) (next : Progress)
            → length fewer ≤ max_batch_size
            → again fewer next ≡ again' fewer next)
        → judge_chunk s again jobs r p ≡ judge_chunk s again' jobs r p
    judge_chunk-same again again' jobs r p small same =
        elim (Bool-cases (retries_smaller s r (length jobs))) [
          | inl retry ↦
              let smaller = max (next_size s (length jobs)) s.min_batch_size in
              let bound = smaller-le out s r (length jobs) retry small in
              let rest =
                same (take smaller jobs) (reduced smaller p)
                  (omega (arith, length-take smaller jobs, bound)) in
              rw (retry, rest) refl
          | inr done ↦ rw done refl
        ]

    chunk_loop-capped :
        (fuel : ℕ) (jobs : List NormalizedJob) (p : Progress)
        → length jobs ≤ max_batch_size
        → chunk_loop (capped out other) s fuel jobs p ≡ chunk_loop out s fuel jobs p
    unfolding chunk_loop
    chunk_loop-capped zero jobs p small = refl
    chunk_loop-capped (suc fuel) jobs p small =
        let attempt = nth_chunk out s (p.chunk_index + 1) jobs p.events in
        ap
          (λ attempt.
            judge_chunk s (chunk_loop (capped out other) s fuel) jobs attempt.0
              (after_chunk out p attempt))
          (sync_chunk-capped s.max_attempts s.scrape_run_id _ (p.chunk_index + 1) jobs p.events
            small)
        ∙ judge_chunk-same (chunk_loop (capped out other) s fuel) (chunk_loop out s fuel) jobs
            attempt.0 (after_chunk out p attempt) small (chunk_loop-capped fuel)

    advance-same :
        (again again' : ℕ → Progress → Option Progress) (cursor : ℕ) (o : Option (ℕ × Progress))
        → SafeChunk o
        → ((c : ℕ) (p : Progress) → Safe p → again c p ≡ again' c p)
        → advance again cursor o ≡ advance again' cursor o
    advance-same again again' cursor none h same = refl
    advance-same again again' cursor (some (n, p)) h same = same (cursor + n) p h

    sync_loop-capped :
        (jobs : List NormalizedJob) (fuel cursor : ℕ) (p : Progress)
        → Safe p
        → sync_loop (capped out other) s jobs fuel cursor p ≡ sync_loop out s jobs fuel cursor p
    unfolding sync_loop
    sync_loop-capped jobs zero cursor p safe = refl
    sync_loop-capped jobs (suc fuel) cursor p safe =
        let current = min p.chunk_size (length jobs - cursor) in
        let batch = take current (drop cursor jobs) in
        let small : length batch ≤ max_batch_size =
          omega (arith, length-take current (drop cursor jobs), safe.1) in
        let again = sync_loop (capped out other) s jobs fuel in
        ap (λ rest. if ltb cursor (length jobs) then rest else some p)
          (ap (advance again cursor) (chunk_loop-capped (suc (length jobs)) batch p small)
            ∙ advance-same again (sync_loop out s jobs fuel) cursor
                (chunk_loop out s (suc (length jobs)) batch p)
                (chunk_loop-Safe out s (suc (length jobs)) batch p small safe)
                (sync_loop-capped jobs fuel))

-- Whatever limit, batch size and minimum batch size are asked for, no request has more than 25 jobs: from
-- a table in which every event's last chunk had at most 25 jobs, a run is the same whatever the backend
-- would reply to a request of more, and it leaves such a table.
pub sync_eligible_jobs-capped :
    (out : Outside) (other : ℕ → List Json → Reply) (s : Settings) (eligible : List NormalizedJob)
    (limit : ℕ) (batch_size : Option ℕ) (events : Events)
    → AllSmall events
    → (sync_eligible_jobs (capped out other) s eligible limit batch_size events
        ≡ sync_eligible_jobs out s eligible limit batch_size events)
      × LeavesSmall (sync_eligible_jobs out s eligible limit batch_size events)
unfolding sync_eligible_jobs
sync_eligible_jobs-capped out other s eligible limit batch_size events h =
    let jobs = candidates_from out s.max_attempts limit [] eligible events in
    let size = min (max (batch_or batch_size limit) 1) max_batch_size in
    let same_jobs = candidates_from-capped out other s.max_attempts limit [] eligible events in
    let same_loop =
      sync_loop-capped out other s jobs (suc (length jobs)) 0 (start events size)
        (h, omega arith) in
    (
      rw (same_jobs, same_loop) refl,
      sync_eligible_jobs-LeavesSmall out s eligible limit batch_size events h,
    )
