-- ===== src/Sync/Worker.antt =====
-- src/modules/sync/worker.py: the selection of candidates, one chunk, and the loop over the chunks.
-- The backend's answers and the clock are given for each chunk that is attempted; building a job's
-- payload is a parameter. A batch size is a natural number.
pub mod Chunk
pub mod Total
pub mod Limits
pub mod Requests
pub mod Capped
pub mod Sent
pub mod Candidates
mod Tests
use bisakerja_scraper.Prelude.{
  ℕ, zero, suc, ◌+◌, ◌-◌, ◌/◌, ◌*◌, min, max, String, Option, none, some, Bool, true, false, ◌&&◌,
  not, List, [], ◌∷◌, ◌++◌, ltb, leb, ◌==◌, if◌then◌else◌, same_text, length, take, drop, get_elem?,
}
use bisakerja_scraper.Prelude.Json.{Json, Items, Fields}
use bisakerja_scraper.Prelude.Text.{join_text, show}
use bisakerja_scraper.Models.{NormalizedJob}
use bisakerja_scraper.Sync.Events.{
  SyncEvent, SyncFailure, Events, backend, find_event, prepare_event, attach_chunk_metadata,
  record_success, record_failure, is_retryable_event,
}

abbrev pub max_batch_size : ℕ
max_batch_size = 25

-- `build_backend_job_payload`: a payload, or a BackendPayloadValidationError with its message and
-- details.
pub data Payload : Type 0 where
  valid : Json → Payload
  invalid : (message : String) (details : List Json) → Payload

-- `BackendSyncClient.sync_jobs`: a result, a BackendSyncClientError, or a BackendSyncServerError,
-- which has no status when the transport failed.
pub data Reply : Type 0 where
  accepted : (status_code : ℕ) (response_summary : Fields) → Reply
  client_error : (status_code : ℕ) (message : String) (response_summary : Fields) → Reply
  server_error : (status_code : Option ℕ) (message : String) (response_summary : Fields) → Reply

-- What surrounds the worker: the payloads and their hashes, and for each attempted chunk the
-- backend's reply to it, the clock and the measured latency.
pub record Outside : Type 0 where
  pub build : NormalizedJob → Payload
  pub stable_payload_hash : Json → String
  pub sync_jobs : ℕ → List Json → Reply
  pub now : ℕ → ℕ
  pub latency_ms : ℕ → ℕ

pub record ChunkSyncResult : Type 0 where
  pub sent : ℕ
  pub failed : ℕ
  pub status_class : String
  pub retryable_failure : Bool

abbrev pub is_candidate_event : Option (ℕ × SyncEvent) → ℕ → Bool
is_candidate_event none max_attempts = true
is_candidate_event (some (i, event)) max_attempts = is_retryable_event event max_attempts

module _ (out : Outside) (max_attempts : ℕ) where
  abbrev pub payload_candidate : Payload → NormalizedJob → Events → Bool
  payload_candidate (invalid message details) job events = true
  payload_candidate (valid payload) job events =
      is_candidate_event
        (find_event out.stable_payload_hash job backend (some (out.stable_payload_hash payload))
          events)
        max_attempts

  pub is_candidate : NormalizedJob → Events → Bool
  is_candidate job events = payload_candidate (out.build job) job events

  -- The loop of `_list_backend_payload_candidates`; the limit is tested after each job.
  pub candidates_from :
      (limit : ℕ) → List NormalizedJob → List NormalizedJob → Events → List NormalizedJob
  candidates_from limit found [] events = found
  candidates_from limit found (job ∷ jobs) events =
      let found' = if is_candidate job events then found ++ job ∷ [] else found in
      let rest = candidates_from limit found' jobs events in
      if leb limit (length found') then found' else rest

-- A JSON array.
abbrev pub items : List Json → Items
items [] = Items.nil
items (x ∷ xs) = Items.cons x (items xs)

abbrev pub contract_failure : String → List Json → SyncFailure
contract_failure message details = record {
  category = "sync_contract_validation_error";
  message = message;
  response_summary =
      some (Fields.field "validationErrors" (Json.arr (items (take 10 details))) Fields.end);
}

-- The first loop of `_sync_chunk`: the events to send with their payloads, and the failures.
pub record Prepared : Type 0 where
  pub events : Events
  pub valid_events : List ℕ
  pub payload_jobs : List Json
  pub failed : ℕ

abbrev pub prepare_payload :
    Outside → Option String → ℕ → NormalizedJob → Payload → Prepared → Prepared
prepare_payload out run_id now job (invalid message details) p =
    let (event, events) =
      prepare_event out.stable_payload_hash job run_id backend none now p.events in
    record p {
      events = record_failure (contract_failure message details) 1 now event events;
      failed = p.failed + 1;
    }
prepare_payload out run_id now job (valid payload) p =
    let (event, events) =
      prepare_event out.stable_payload_hash job run_id backend
        (some (out.stable_payload_hash payload)) now p.events in
    record p {
      events = events;
      valid_events = p.valid_events ++ event ∷ [];
      payload_jobs = p.payload_jobs ++ payload ∷ [];
    }

pub prepare_jobs : Outside → Option String → ℕ → List NormalizedJob → Prepared → Prepared
prepare_jobs out run_id now [] p = p
prepare_jobs out run_id now (job ∷ jobs) p =
    prepare_jobs out run_id now jobs (prepare_payload out run_id now job (out.build job) p)

-- `for event in valid_events: change(event)`
pub for_events : (ℕ → Events → Events) → List ℕ → Events → Events
for_events change [] events = events
for_events change (event ∷ rest) events = for_events change rest (change event events)

abbrev pub class_of : ℕ → String
class_of status = join_text (show (status / 100)) "xx"

abbrev pub server_class : Option ℕ → String
server_class none = "transport"
server_class (some zero) = "transport"
server_class (some (suc n)) = class_of (suc n)

abbrev pub status_json : Option ℕ → Json
status_json none = Json.null
status_json (some n) = Json.num n

-- `exc.response_summary or {"statusCode": ..., "statusClass": ...}`
abbrev pub summary_or : Fields → Option ℕ → String → Fields
summary_or Fields.end status status_class =
    Fields.field "statusCode" (status_json status)
      (Fields.field "statusClass" (Json.str status_class) Fields.end)
summary_or (Fields.field k v rest) status status_class = Fields.field k v rest

abbrev pub rejection : ℕ → String → Fields → SyncFailure
rejection status message summary = record {
  category = if status == 404 then "backend_endpoint_not_found" else "backend_rejected_payload";
  message = message;
  response_summary = some (summary_or summary (some status) "4xx");
}

abbrev pub server_failure : Option ℕ → String → Fields → SyncFailure
server_failure status message summary = record {
  category = "backend_retryable_failure";
  message = message;
  response_summary = some (summary_or summary status (server_class status));
}

-- The end of `_sync_chunk`, for each reply of the backend.
pub settle_reply : Reply → (max_attempts now : ℕ) → Prepared → ChunkSyncResult × Events
settle_reply (accepted status summary) max_attempts now p = (
  record {
    sent = length p.valid_events;
    failed = p.failed;
    status_class = class_of status;
    retryable_failure = false;
  },
  for_events (record_success summary now) p.valid_events p.events,
)
settle_reply (client_error status message summary) max_attempts now p = (
  record {
    sent = 0;
    failed = p.failed + length p.valid_events;
    status_class = "4xx";
    retryable_failure = status == 404;
  },
  for_events
      (record_failure (rejection status message summary) (if status == 404 then max_attempts else 1)
        now)
      p.valid_events p.events,
)
settle_reply (server_error status message summary) max_attempts now p = (
  record {
    sent = 0;
    failed = p.failed + length p.valid_events;
    status_class = server_class status;
    retryable_failure = true;
  },
  for_events (record_failure (server_failure status message summary) max_attempts now)
      p.valid_events p.events,
)

-- `_sync_chunk` once its jobs are prepared.
abbrev pub send_prepared :
    Outside → ℕ → String → ℕ → Prepared → List Json → ChunkSyncResult × Events
send_prepared out max_attempts chunk_id n p [] = (
  record { sent = 0; failed = p.failed; status_class = "contract"; retryable_failure = false },
  p.events,
)
send_prepared out max_attempts chunk_id n p (payload ∷ payloads) =
    let chunk = payload ∷ payloads in
    let hash =
      out.stable_payload_hash
        (Json.obj (Fields.field "jobs" (Json.arr (items chunk)) Fields.end)) in
    settle_reply (out.sync_jobs n chunk) max_attempts (out.now n) (record p {
      events =
          for_events (attach_chunk_metadata chunk_id hash (length chunk)) p.valid_events p.events;
    })

-- `_sync_chunk`, the `n`-th chunk that is attempted.
pub sync_chunk :
    Outside
    → (max_attempts : ℕ) (scrape_run_id : Option String) (chunk_id : String) (n : ℕ)
    → List NormalizedJob
    → Events
    → ChunkSyncResult × Events
sync_chunk out max_attempts scrape_run_id chunk_id n [] events =
    (record { sent = 0; failed = 0; status_class = "empty"; retryable_failure = false }, events)
sync_chunk out max_attempts scrape_run_id chunk_id n (job ∷ jobs) events =
    let start : Prepared = record {
      events = events;
      valid_events = [];
      payload_jobs = [];
      failed = 0;
    } in
    let p = prepare_jobs out scrape_run_id (out.now n) (job ∷ jobs) start in
    send_prepared out max_attempts chunk_id n p p.payload_jobs

-- The arguments of `sync_eligible_jobs` and the worker's attributes that its loops read.
pub record Settings : Type 0 where
  pub max_attempts : ℕ
  pub scrape_run_id : Option String
  pub min_batch_size : ℕ
  pub adaptive_batching : Bool

-- The local variables of the loops.
pub record Progress : Type 0 where
  pub events : Events
  pub sent : ℕ
  pub failed : ℕ
  pub chunks_attempted : ℕ
  pub chunks_failed : ℕ
  pub adaptive_batch_reductions : ℕ
  pub chunk_latencies : List ℕ
  pub status_class_counts : List (String × ℕ)
  pub chunk_index : ℕ
  pub chunk_size : ℕ

-- `counts[key] = counts.get(key, 0) + 1`
pub count_class : String → List (String × ℕ) → List (String × ℕ)
count_class key [] = (key, 1) ∷ []
count_class key ((k, n) ∷ counts) =
    if same_text k key then (k, n + 1) ∷ counts else (k, n) ∷ count_class key counts

abbrev pub run_name : Option String → String
run_name none = "manual"
run_name (some String.[]) = "manual"
run_name (some (String.◌∷◌ c s)) = String.◌∷◌ c s

-- The `n`-th chunk of a run.
abbrev pub nth_chunk :
    Outside → Settings → ℕ → List NormalizedJob → Events → ChunkSyncResult × Events
nth_chunk out s n jobs events =
    sync_chunk out s.max_attempts s.scrape_run_id
      (join_text (run_name s.scrape_run_id) (join_text ":" (show n))) n jobs events

-- The counters that every attempt changes.
abbrev pub after_chunk : Outside → Progress → ChunkSyncResult × Events → Progress
after_chunk out p (r, events') = record p {
  events = events';
  chunk_index = p.chunk_index + 1;
  chunk_latencies = p.chunk_latencies ++ out.latency_ms (p.chunk_index + 1) ∷ [];
  status_class_counts = count_class r.status_class p.status_class_counts;
  chunks_attempted = p.chunks_attempted + 1;
}

-- `should_retry_with_smaller_batch`
pub retries_smaller : Settings → ChunkSyncResult → (size : ℕ) → Bool
retries_smaller s r size =
    s.adaptive_batching && r.retryable_failure && r.sent == 0 && ltb s.min_batch_size size

-- `ceil(n / 2)`, for the next size, not below the minimum.
pub next_size : Settings → ℕ → ℕ
next_size s size = max s.min_batch_size ((size + 1) / 2)

abbrev pub counted_failure : ChunkSyncResult → Progress → Progress
counted_failure r p = record p {
  sent = p.sent + r.sent;
  failed = p.failed + r.failed;
  chunks_failed = if r.failed == 0 then p.chunks_failed else p.chunks_failed + 1;
}

-- The counters when a chunk failed and is tried again with fewer jobs.
abbrev pub reduced : ℕ → Progress → Progress
reduced smaller p = record p {
  chunks_failed = p.chunks_failed + 1;
  adaptive_batch_reductions = p.adaptive_batch_reductions + 1;
  chunk_size = smaller;
}

-- One turn of the inner loop: the chunk is attempted, and either it is tried again with fewer jobs,
-- by `again`, or it is done, with the number of its jobs.
abbrev pub judge_chunk :
    Settings
    → (List NormalizedJob → Progress → Option (ℕ × Progress))
    → List NormalizedJob
    → ChunkSyncResult
    → Progress
    → Option (ℕ × Progress)
judge_chunk s again jobs r p =
    let size = length jobs in
    let next = next_size s size in
    let smaller = max next s.min_batch_size in
    let rest = again (take smaller jobs) (reduced smaller p) in
    if retries_smaller s r size
    then (if next == size
        then some (size, record p { chunks_failed = p.chunks_failed + 1 })
        else rest)
    else some (size, counted_failure r p)

-- The inner loop on fuel; `none` means that the fuel ran out.
pub chunk_loop : Outside → Settings → ℕ → List NormalizedJob → Progress → Option (ℕ × Progress)
chunk_loop out s zero jobs p = none
chunk_loop out s (suc fuel) jobs p =
    let attempt = nth_chunk out s (p.chunk_index + 1) jobs p.events in
    judge_chunk s (chunk_loop out s fuel) jobs attempt.0 (after_chunk out p attempt)

abbrev pub advance : (ℕ → Progress → Option Progress) → ℕ → Option (ℕ × Progress) → Option Progress
advance again cursor none = none
advance again cursor (some (size, p)) = again (cursor + size) p

-- The outer loop on fuel, with the cursor into the jobs.
pub sync_loop : Outside → Settings → List NormalizedJob → ℕ → ℕ → Progress → Option Progress
sync_loop out s jobs zero cursor p = none
sync_loop out s jobs (suc fuel) cursor p =
    let current = min p.chunk_size (length jobs - cursor) in
    let rest =
      advance (sync_loop out s jobs fuel) cursor
        (chunk_loop out s (suc (length jobs)) (take current (drop cursor jobs)) p) in
    if ltb cursor (length jobs) then rest else some p

-- `batch_size or limit`
abbrev pub batch_or : Option ℕ → ℕ → ℕ
batch_or none limit = limit
batch_or (some zero) limit = limit
batch_or (some (suc n)) limit = suc n

pub record BackendSyncWorkerResult : Type 0 where
  pub attempted : ℕ
  pub sent : ℕ
  pub failed : ℕ
  pub chunks_attempted : ℕ
  pub chunks_failed : ℕ
  pub adaptive_batch_reductions : ℕ
  pub chunk_latency_ms_p50 : Option ℕ
  pub chunk_latency_ms_p95 : Option ℕ
  pub status_class_counts : List (String × ℕ)
  pub zero_sent_reason : Option String

-- `sorted(values)`
pub insert_sorted : ℕ → List ℕ → List ℕ
insert_sorted x [] = x ∷ []
insert_sorted x (y ∷ ys) = if leb x y then x ∷ y ∷ ys else y ∷ insert_sorted x ys

pub sorted : List ℕ → List ℕ
sorted [] = []
sorted (x ∷ xs) = insert_sorted x (sorted xs)

pub percentile_nearest_rank : List ℕ → ℕ → Option ℕ
percentile_nearest_rank [] percentile = none
percentile_nearest_rank (x ∷ xs) percentile =
    let ordered = sorted (x ∷ xs) in
    let rank = (percentile * length ordered + 99) / 100 in
    get_elem? ordered (min (max rank 1) (length ordered) - 1)

pub infer_zero_sent_reason : (attempted sent failed : ℕ) → Option String
infer_zero_sent_reason attempted sent failed =
    if ltb 0 sent
    then none
    else if attempted == 0
    then some "no eligible jobs for sync"
    else if leb attempted failed
    then some "all candidate jobs failed sync attempts"
    else some "no sync candidates were sent"

abbrev pub start : Events → ℕ → Progress
start events size = record {
  events = events;
  sent = 0;
  failed = 0;
  chunks_attempted = 0;
  chunks_failed = 0;
  adaptive_batch_reductions = 0;
  chunk_latencies = [];
  status_class_counts = [];
  chunk_index = 0;
  chunk_size = size;
}

abbrev pub worker_result : ℕ → Progress → BackendSyncWorkerResult
worker_result attempted p = record {
  attempted = attempted;
  sent = p.sent;
  failed = p.failed;
  chunks_attempted = p.chunks_attempted;
  chunks_failed = p.chunks_failed;
  adaptive_batch_reductions = p.adaptive_batch_reductions;
  chunk_latency_ms_p50 = percentile_nearest_rank p.chunk_latencies 50;
  chunk_latency_ms_p95 = percentile_nearest_rank p.chunk_latencies 95;
  status_class_counts = p.status_class_counts;
  zero_sent_reason = infer_zero_sent_reason attempted p.sent p.failed;
}

-- How `sync_eligible_jobs` ends: with a result and the table, or with the ValueError on the minimum
-- batch size. `out_of_fuel` is the model's, and never comes about.
pub data SyncRun : Type 0 where
  finished : BackendSyncWorkerResult → Events → SyncRun
  min_batch_size_error out_of_fuel : SyncRun

abbrev pub finish : ℕ → Option Progress → SyncRun
finish attempted none = out_of_fuel
finish attempted (some p) = finished (worker_result attempted p) p.events

-- `eligible` is what `list_eligible_jobs` returns.
pub sync_eligible_jobs :
    Outside
    → Settings
    → (eligible : List NormalizedJob) (limit : ℕ) (batch_size : Option ℕ) → Events
    → SyncRun
sync_eligible_jobs out s eligible limit batch_size events =
    let jobs = candidates_from out s.max_attempts limit [] eligible events in
    let size = min (max (batch_or batch_size limit) 1) max_batch_size in
    if leb s.min_batch_size 0
    then min_batch_size_error
    else finish (length jobs) (sync_loop out s jobs (suc (length jobs)) 0 (start events size))
