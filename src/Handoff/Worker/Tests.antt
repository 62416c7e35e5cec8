-- ===== src/Handoff/Worker/Tests.antt =====
-- Runs of the worker on two synced jobs, with a client that fails the second request.
use bisakerja_scraper.Prelude.{
  ℕ, ◌+◌, ◌≡◌, refl, String, Option, none, some, true, List, [], ◌∷◌, length, arith,
}
use bisakerja_scraper.Prelude.Json.{Json, Fields}
use bisakerja_scraper.Prelude.Sort.{sort_by, insert_sorted}
use bisakerja_scraper.Prelude.Chunks.{chunks_from}
use bisakerja_scraper.Prelude.Upsert.{upsert_where, find_where}
use bisakerja_scraper.Models.{NormalizedJob, active}
use bisakerja_scraper.Sync.Events.{SyncEventStatus}
use bisakerja_scraper.Handoff.{
  Handoffs, sent, NotificationHandoffEvent, SyncedEvent, list_synced_jobs_for_run, prepare_event,
  handoff_row, changed_handoff,
}
use bisakerja_scraper.Handoff.Worker.{
  HandoffReply, success, raised, HandoffWorker, prepare_all, Handing, HandoffWorkerResult,
  handoff_synced_jobs, hand_on, hand_chunks, hand_chunk, post, record_all, retryable_events,
}
use bisakerja_scraper.Handoff.Worker.Kept.{IsKept, IsSpared, handoff_synced_jobs-IsKept}

abbrev job : String → NormalizedJob
job external = record {
  id = external;
  raw_job_id = none;
  source_platform = "dealls";
  external_id = external;
  title = "t";
  company_name = "c";
  source_url = "u";
  apply_url = none;
  status = active;
  normalized_payload = Json.obj Fields.end;
  last_seen_at = 0;
  posted_at = none;
}

abbrev synced : (id external : String) → SyncedEvent
synced id external = record {
  id = id;
  event = record {
    scrape_run_id = some "r";
    normalized_job_id = external;
    source_platform = "dealls";
    external_id = external;
    status = SyncEventStatus.sent;
    target = "backend";
    payload_hash = id;
    attempt_count = 1;
    attempted_at = 4;
    completed_at = some 5;
    error_category = none;
    error_message = none;
    response_summary = none;
    metadata_json = none;
  };
  normalized_job = some (job external);
}

-- It takes one payload, and is not available any more after it.
abbrev client : List Json → HandoffReply
client (payload ∷ []) = success Fields.end
client _ = raised "HandoffError" "unavailable" none

abbrev worker : HandoffWorker
worker = record {
  encoding = record { hash = λ _. "h"; iso = λ _. "1970-01-01T00:00:00+00:00" };
  text_before = λ a b. true;
  send_candidates = client;
  max_attempts = 3;
  batch_size = 1;
  prepared_at = 6;
  replied_at = λ chunk. 7 + chunk;
}

abbrev two_jobs : List SyncedEvent
two_jobs = synced "s1" "a" ∷ synced "s2" "b" ∷ []

abbrev outcome_counts : Option (HandoffWorkerResult × Handing) → Option (ℕ × ℕ × ℕ)
outcome_counts none = none
outcome_counts (some (result, st)) = some (result.sent, result.failed, length st.table)

one_of_two : outcome_counts (handoff_synced_jobs worker "r" two_jobs []) ≡ some (1, 1, 2)
unfolding handoff_synced_jobs list_synced_jobs_for_run sort_by insert_sorted prepare_all
    prepare_event upsert_where find_where hand_on retryable_events chunks_from hand_chunks
    hand_chunk post record_all
one_of_two = refl

-- Two synced payloads of one job lead to one row, which is handed on in two requests.
handed_on_twice :
    outcome_counts (
      handoff_synced_jobs
        (record worker { send_candidates = λ received. success Fields.end })
        "r"
        (synced "s1" "a" ∷ synced "s2" "a" ∷ [])
        [])
    ≡ some (2, 0, 1)
unfolding handoff_synced_jobs list_synced_jobs_for_run sort_by insert_sorted prepare_all
    prepare_event upsert_where find_where hand_on retryable_events chunks_from hand_chunks
    hand_chunk post record_all
handed_on_twice = refl

abbrev handed : NotificationHandoffEvent
handed =
    record (handoff_row worker.encoding "r" "backend-notifications" 1 (synced "s0" "a") (job "a")) {
      status = sent;
      attempt_count = 1;
      completed_at = some 2;
      response_summary = some Fields.end;
    }

abbrev later : Handoffs
later =
    changed_handoff worker.encoding 6 (synced "s1" "a") (job "a") handed
    ∷ handoff_row worker.encoding "r" "backend-notifications" 6 (synced "s2" "b") (job "b")
    ∷ []

abbrev ending : HandoffWorkerResult × Handing
ending = hand_on worker "r" (1 ∷ 0 ∷ [], later)

returns : handoff_synced_jobs worker "r" two_jobs (handed ∷ []) ≡ some (ending.0, ending.1)
unfolding handoff_synced_jobs list_synced_jobs_for_run sort_by insert_sorted prepare_all
    prepare_event upsert_where find_where
returns = refl

handoff_synced_jobs-IsKept_example : IsKept 0 handed ending.1.table × IsSpared 0 ending.1
handoff_synced_jobs-IsKept_example =
    handoff_synced_jobs-IsKept worker "r" two_jobs (handed ∷ []) 0 handed ending.0 ending.1
      (omega arith) refl refl returns
