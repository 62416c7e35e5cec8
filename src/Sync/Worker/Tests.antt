-- ===== src/Sync/Worker/Tests.antt =====
-- The worker on concrete jobs: one backend that accepts everything and one that is never available.
use bisakerja_scraper.Prelude.{
  ℕ, ◌+◌, ◌≡◌, refl, none, some, true, false, List, [], ◌∷◌, arith, String, inl, take, keep, map,
  same_text, if◌then◌else◌,
}
use bisakerja_scraper.Prelude.Json.{Json, Fields}
use bisakerja_scraper.Models.{NormalizedJob, CanonicalJobStatus}
use bisakerja_scraper.Sync.Events.{
  Events, SyncEvent, find_key, find_event, prepare_event, attach_chunk_metadata, record_failure,
}
use bisakerja_scraper.Sync.Worker.{
  Outside, Payload, Reply, Settings, SyncRun, finished, is_candidate, candidates_from, prepare_jobs,
  for_events, settle_reply, sync_chunk, chunk_loop, sync_loop, sync_eligible_jobs, retries_smaller,
  next_size,
}
use bisakerja_scraper.Sync.Worker.Chunk.{sync_chunk-counts}
use bisakerja_scraper.Sync.Worker.Requests.{LeavesSmall}
use bisakerja_scraper.Sync.Worker.Capped.{capped, sync_eligible_jobs-capped}
use bisakerja_scraper.Sync.Worker.Candidates.{candidates_from-take}
use bisakerja_scraper.Sync.Worker.Sent.{sync_chunk-not_candidate}

abbrev job : String → NormalizedJob
job name = record {
  id = name;
  raw_job_id = none;
  source_platform = "glints";
  external_id = name;
  title = "Engineer";
  company_name = "Acme";
  source_url = "https://example.test";
  apply_url = none;
  status = CanonicalJobStatus.active;
  normalized_payload = Json.str name;
  last_seen_at = 0;
  posted_at = none;
}

abbrev build : NormalizedJob → Payload
build j =
    if same_text j.id "bad" then Payload.invalid "no title" [] else Payload.valid (Json.str j.id)

abbrev hash : Json → String
hash (Json.str s) = s
hash _ = "hash"

abbrev outside : (ℕ → List Json → Reply) → Outside
outside replies = record {
  build = build;
  stable_payload_hash = hash;
  sync_jobs = replies;
  now = λ n. n;
  latency_ms = λ n. n;
}

abbrev accepting : Outside
accepting = outside (λ n payloads. Reply.accepted 200 Fields.end)

abbrev unavailable : Outside
unavailable = outside (λ n payloads. Reply.server_error (some 503) "unavailable" Fields.end)

abbrev settings : Settings
settings = record {
  max_attempts = 3;
  scrape_run_id = some "r";
  min_batch_size = 1;
  adaptive_batching = true;
}

abbrev jobs : List NormalizedJob
jobs = job "a" ∷ job "bad" ∷ job "c" ∷ job "d" ∷ []

abbrev attempts : SyncRun → List ℕ
attempts (finished result events) = map (λ (event : SyncEvent). event.attempt_count) events
attempts _ = []

-- Against a backend that is down, the events at the head of a chunk are attempted once for each
-- size that the chunk is tried at: here four jobs, two, and one, which is more often than the
-- two attempts that are allowed.
attempts_of_one_run :
    attempts (
      sync_eligible_jobs unavailable
        (record settings { max_attempts = 2 })
        (job "a" ∷ job "b" ∷ job "c" ∷ job "d" ∷ [])
        4
        none
        [])
    ≡ 3 ∷ 3 ∷ 2 ∷ 2 ∷ []
unfolding sync_eligible_jobs candidates_from is_candidate sync_loop chunk_loop sync_chunk
    prepare_jobs prepare_event find_event find_key for_events settle_reply record_failure
    attach_chunk_metadata retries_smaller next_size
attempts_of_one_run = refl

chunk_of_two : (sync_chunk accepting 3 none "r:1" 1 (job "a" ∷ job "bad" ∷ []) []).0.sent ≡ 1
unfolding sync_chunk prepare_jobs prepare_event find_event find_key for_events settle_reply
chunk_of_two = refl

sync_chunk-counts_example :
    (sync_chunk accepting 3 none "r:1" 1 jobs []).0.sent
      + (sync_chunk accepting 3 none "r:1" 1 jobs []).0.failed
    ≡ 4
sync_chunk-counts_example = sync_chunk-counts accepting 3 none "r:1" 1 jobs []

candidates_from-take_example :
    candidates_from accepting 3 2 [] jobs []
    ≡ take 2 (keep (λ j. is_candidate accepting 3 j []) jobs)
candidates_from-take_example = candidates_from-take accepting 3 2 jobs [] (omega arith)

sync_chunk-not_candidate_example :
    is_candidate accepting 5
      (job "a")
      (sync_chunk accepting 3 none "r:1" 1 (job "a" ∷ job "bad" ∷ []) []).1
    ≡ false
sync_chunk-not_candidate_example =
    sync_chunk-not_candidate accepting 3 5 none "r:1" 1 (job "a" ∷ job "bad" ∷ []) [] (job "a")
      (Json.str "a") (inl refl) refl (rw chunk_of_two (omega arith))

sync_eligible_jobs-capped_example :
    (sync_eligible_jobs (capped unavailable accepting.sync_jobs) settings jobs 4 none []
      ≡ sync_eligible_jobs unavailable settings jobs 4 none [])
    × LeavesSmall (sync_eligible_jobs unavailable settings jobs 4 none [])
sync_eligible_jobs-capped_example =
    sync_eligible_jobs-capped unavailable accepting.sync_jobs settings jobs 4 none [] tt
