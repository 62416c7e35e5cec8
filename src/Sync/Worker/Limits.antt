-- ===== src/Sync/Worker/Limits.antt =====
-- No request holds more jobs than the backend takes.
use bisakerja_scraper.Prelude.{
  ℕ, ◌≤◌, Option, none, some, List, [], ◌∷◌, arith, length, ◌==◌, All, String, if◌then◌else◌,
}
use bisakerja_scraper.Prelude.Json.{Json}
use bisakerja_scraper.Models.{NormalizedJob}
use bisakerja_scraper.Sync.Events.{
  Events, SyncEvent, ChunkMetadata, record_failure, record_success, attach_chunk_metadata, backend,
}
use bisakerja_scraper.Sync.Worker.{
  Outside, Payload, valid, invalid, Reply, accepted, client_error, server_error, Prepared,
  prepare_payload, prepare_jobs, settle_reply, for_events, send_prepared, sync_chunk,
  max_batch_size, contract_failure, rejection, server_failure,
}
use bisakerja_scraper.Sync.Events.Keeps.{
  prepare_event-All, attach_chunk_metadata-All, record_success-All, record_failure-All,
}
use bisakerja_scraper.Sync.Worker.Chunk.{length-payload_jobs-le}

abbrev pub Small : Option ChunkMetadata → Type 0
Small none = Unit
Small (some m) = m.chunk_size ≤ max_batch_size

-- The chunk that the event was last sent in, if it was, had at most 25 jobs.
abbrev pub IsSmall : SyncEvent → Type 0
IsSmall event = Small event.metadata_json

abbrev pub AllSmall : Events → Type 0
AllSmall events = All IsSmall events

for_events-AllSmall :
    (change : ℕ → Events → Events)
    → ((i : ℕ) (events : Events) → AllSmall events → AllSmall (change i events))
    → (refs : List ℕ) (events : Events) → AllSmall events
    → AllSmall (for_events change refs events)
unfolding for_events
for_events-AllSmall change step [] events h = h
for_events-AllSmall change step (i ∷ refs) events h =
    for_events-AllSmall change step refs (change i events) (step i events h)

prepare_payload-AllSmall :
    (out : Outside) (run_id : Option String) (now : ℕ) (job : NormalizedJob) (built : Payload)
    (p : Prepared)
    → AllSmall p.events
    → AllSmall (prepare_payload out run_id now job built p).events
prepare_payload-AllSmall out run_id now job (invalid message details) p h =
    record_failure-All IsSmall (contract_failure message details) 1 now _ _ (λ event k. k)
      (prepare_event-All IsSmall out.stable_payload_hash job run_id backend none now p.events
        (λ event k. k) (λ key. tt) h)
prepare_payload-AllSmall out run_id now job (valid payload) p h =
    prepare_event-All IsSmall out.stable_payload_hash job run_id backend
      (some (out.stable_payload_hash payload)) now p.events (λ event k. k) (λ key. tt) h

prepare_jobs-AllSmall :
    (out : Outside) (run_id : Option String) (now : ℕ) (jobs : List NormalizedJob) (p : Prepared)
    → AllSmall p.events
    → AllSmall (prepare_jobs out run_id now jobs p).events
unfolding prepare_jobs
prepare_jobs-AllSmall out run_id now [] p h = h
prepare_jobs-AllSmall out run_id now (job ∷ jobs) p h =
    prepare_jobs-AllSmall out run_id now jobs (prepare_payload out run_id now job (out.build job) p)
      (prepare_payload-AllSmall out run_id now job (out.build job) p h)

settle_reply-AllSmall :
    (reply : Reply) (max_attempts now : ℕ) (p : Prepared)
    → AllSmall p.events
    → AllSmall (settle_reply reply max_attempts now p).1
unfolding settle_reply
settle_reply-AllSmall (accepted status summary) max_attempts now p h =
    for_events-AllSmall (record_success summary now)
      (λ i events. record_success-All IsSmall summary now i events (λ event k. k)) p.valid_events
      p.events h
settle_reply-AllSmall (client_error status message summary) max_attempts now p h =
    for_events-AllSmall
      (record_failure (rejection status message summary) (if status == 404 then max_attempts else 1)
        now)
      (λ i events. record_failure-All IsSmall _ _ now i events (λ event k. k)) p.valid_events
      p.events h
settle_reply-AllSmall (server_error status message summary) max_attempts now p h =
    for_events-AllSmall (record_failure (server_failure status message summary) max_attempts now)
      (λ i events. record_failure-All IsSmall _ _ now i events (λ event k. k)) p.valid_events
      p.events h

send_prepared-AllSmall :
    (out : Outside) (max_attempts : ℕ) (chunk_id : String) (n : ℕ) (p : Prepared)
    (payloads : List Json)
    → length payloads ≤ max_batch_size
    → AllSmall p.events
    → AllSmall (send_prepared out max_attempts chunk_id n p payloads).1
send_prepared-AllSmall out max_attempts chunk_id n p [] small h = h
send_prepared-AllSmall out max_attempts chunk_id n p (payload ∷ payloads) small h =
    settle_reply-AllSmall (out.sync_jobs n (payload ∷ payloads)) max_attempts (out.now n) _ (
      for_events-AllSmall (attach_chunk_metadata chunk_id _ (length (payload ∷ payloads)))
        (λ i events. attach_chunk_metadata-All IsSmall chunk_id _ _ i events (λ event k. small))
        p.valid_events p.events h)

pub sync_chunk-AllSmall :
    (out : Outside) (max_attempts : ℕ) (run_id : Option String) (chunk_id : String) (n : ℕ)
    (jobs : List NormalizedJob) (events : Events)
    → length jobs ≤ max_batch_size
    → AllSmall events
    → AllSmall (sync_chunk out max_attempts run_id chunk_id n jobs events).1
unfolding sync_chunk
sync_chunk-AllSmall out max_attempts run_id chunk_id n [] events small h = h
sync_chunk-AllSmall out max_attempts run_id chunk_id n (job ∷ jobs) events small h =
    let p0 : Prepared = record {
      events = events;
      valid_events = [];
      payload_jobs = [];
      failed = 0;
    } in
    let p = prepare_jobs out run_id (out.now n) (job ∷ jobs) p0 in
    send_prepared-AllSmall out max_attempts chunk_id n p p.payload_jobs
      (omega (arith, length-payload_jobs-le out run_id (out.now n) (job ∷ jobs) events))
      (prepare_jobs-AllSmall out run_id (out.now n) (job ∷ jobs) p0 h)
