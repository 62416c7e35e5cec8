-- ===== src/Sync/Worker/Chunk.antt =====
-- The counts of one chunk.
use bisakerja_scraper.Prelude.{
  ℕ, ◌+◌, ◌≤◌, ◌≡◌, refl, Option, List, [], ◌∷◌, arith, ap, String, length, length-append,
}
use bisakerja_scraper.Prelude.Json.{Json}
use bisakerja_scraper.Models.{NormalizedJob}
use bisakerja_scraper.Sync.Events.{Events}
use bisakerja_scraper.Sync.Worker.{
  Outside, Payload, valid, invalid, Reply, accepted, client_error, server_error, Prepared,
  prepare_payload, prepare_jobs, settle_reply, send_prepared, sync_chunk,
}

-- The events and the payloads go together, and with the failures they count the jobs.
abbrev Counts : ℕ → Prepared → Type 0
Counts n p =
    (length p.valid_events + p.failed ≡ n) × (length p.payload_jobs ≡ length p.valid_events)

prepare_payload-Counts :
    (out : Outside) (run_id : Option String) (now n : ℕ) (job : NormalizedJob) (built : Payload)
    (p : Prepared)
    → Counts n p
    → Counts (n + 1) (prepare_payload out run_id now job built p)
prepare_payload-Counts out run_id now n job (invalid message details) p (count, same) =
    (omega arith, same)
prepare_payload-Counts out run_id now n job (valid payload) p (count, same) = (
  omega (arith, length-append {0} p.valid_events (_ ∷ [])),
  omega (
    arith,
    length-append {0} p.valid_events (_ ∷ []),
    length-append {0} p.payload_jobs (payload ∷ []),
  ),
)

prepare_jobs-Counts :
    (out : Outside) (run_id : Option String) (now n : ℕ) (jobs : List NormalizedJob) (p : Prepared)
    → Counts n p
    → Counts (n + length jobs) (prepare_jobs out run_id now jobs p)
unfolding prepare_jobs
prepare_jobs-Counts out run_id now n [] p h = (omega (arith, h.0), h.1)
prepare_jobs-Counts out run_id now n (job ∷ jobs) p h =
    let h' =
      prepare_jobs-Counts out run_id now (n + 1) jobs
        (prepare_payload out run_id now job (out.build job) p)
        (prepare_payload-Counts out run_id now n job (out.build job) p h) in
    (omega (arith, h'.0), h'.1)

settle_reply-counts :
    (reply : Reply) (max_attempts now n : ℕ) (p : Prepared)
    → length p.valid_events + p.failed ≡ n
    → (settle_reply reply max_attempts now p).0.sent
        + (settle_reply reply max_attempts now p).0.failed
      ≡ n
unfolding settle_reply
settle_reply-counts (accepted status summary) max_attempts now n p h = omega arith
settle_reply-counts (client_error status message summary) max_attempts now n p h = omega arith
settle_reply-counts (server_error status message summary) max_attempts now n p h = omega arith

send_prepared-Counts :
    (out : Outside) (max_attempts : ℕ) (chunk_id : String) (n count : ℕ) (p : Prepared)
    (payloads : List Json)
    → p.payload_jobs ≡ payloads
    → Counts count p
    → (send_prepared out max_attempts chunk_id n p payloads).0.sent
        + (send_prepared out max_attempts chunk_id n p payloads).0.failed
      ≡ count
send_prepared-Counts out max_attempts chunk_id n count p [] e h =
    omega (arith, h.0, h.1, ap length e)
send_prepared-Counts out max_attempts chunk_id n count p (payload ∷ payloads) e h =
    settle_reply-counts (out.sync_jobs n (payload ∷ payloads)) max_attempts (out.now n) count _ h.0

-- A chunk accounts for each of its jobs exactly once, as sent or as failed, whatever the payloads
-- are and whatever the backend replies.
pub sync_chunk-counts :
    (out : Outside) (max_attempts : ℕ) (scrape_run_id : Option String) (chunk_id : String) (n : ℕ)
    (jobs : List NormalizedJob) (events : Events)
    → (sync_chunk out max_attempts scrape_run_id chunk_id n jobs events).0.sent
        + (sync_chunk out max_attempts scrape_run_id chunk_id n jobs events).0.failed
      ≡ length jobs
unfolding sync_chunk
sync_chunk-counts out max_attempts scrape_run_id chunk_id n [] events = omega arith
sync_chunk-counts out max_attempts scrape_run_id chunk_id n (job ∷ jobs) events =
    let start : Prepared = record {
      events = events;
      valid_events = [];
      payload_jobs = [];
      failed = 0;
    } in
    let p = prepare_jobs out scrape_run_id (out.now n) (job ∷ jobs) start in
    send_prepared-Counts out max_attempts chunk_id n (length (job ∷ jobs)) p p.payload_jobs refl (
      let h =
        prepare_jobs-Counts out scrape_run_id (out.now n) 0 (job ∷ jobs) start
          (omega arith, refl) in
      (omega (arith, h.0), h.1))

-- A chunk sends at most one payload for each of its jobs.
pub length-payload_jobs-le :
    (out : Outside) (run_id : Option String) (now : ℕ) (jobs : List NormalizedJob) (events : Events)
    → length
        (prepare_jobs out run_id now jobs (record {
          events = events;
          valid_events = [];
          payload_jobs = [];
          failed = 0;
        })).payload_jobs
      ≤ length jobs
length-payload_jobs-le out run_id now jobs events =
    let h =
      prepare_jobs-Counts out run_id now 0 jobs
        (record { events = events; valid_events = []; payload_jobs = []; failed = 0 })
        (omega arith, refl) in
    omega (arith, h.0, h.1)
