-- ===== src/Sync/Events.antt =====
-- src/modules/sync/events.py: the rows of `sync_events`. The table is a list, and a row's reference
-- is its position: rows are never deleted. `hash` is `stable_payload_hash`, the SHA-256 of the
-- payload's canonical JSON text.
pub mod Unique
pub mod Keeps
pub mod Changes
use bisakerja_scraper.Prelude.{
  ℕ, zero, suc, ◌+◌, String, Option, none, some, Bool, true, false, ◌&&◌, ◌||◌, List, [], ◌∷◌, ◌++◌,
  ltb, leb, if◌then◌else◌, same_text, length, modify,
}
use bisakerja_scraper.Prelude.Json.{Json, Fields, truthy}
use bisakerja_scraper.Prelude.Text.{strip_suffix, join_text}
use bisakerja_scraper.Models.{NormalizedJob}

pub data SyncEventStatus : Type 0 where
  pending sent failed dead_letter : SyncEventStatus

-- The keys that `attach_chunk_metadata` writes into `metadata_json`; nothing else writes there.
pub record ChunkMetadata : Type 0 where
  pub chunk_id : String
  pub chunk_payload_hash : String
  pub chunk_size : ℕ

pub record SyncEvent : Type 0 where
  pub scrape_run_id : Option String
  pub normalized_job_id : String
  pub source_platform : String
  pub external_id : String
  pub status : SyncEventStatus
  pub target : String
  pub payload_hash : String
  pub attempt_count : ℕ
  pub attempted_at : ℕ
  pub completed_at : Option ℕ
  pub error_category : Option String
  pub error_message : Option String
  pub response_summary : Option Fields
  pub metadata_json : Option ChunkMetadata

pub record SyncFailure : Type 0 where
  pub category : String
  pub message : String
  pub response_summary : Option Fields

abbrev pub Events : Type 0
Events = List SyncEvent

abbrev pub backend : String
backend = "backend"

-- `payload_hash or stable_payload_hash(job.normalized_payload)`
abbrev pub hash_or : (Json → String) → Option String → NormalizedJob → String
hash_or hash none job = hash job.normalized_payload
hash_or hash (some given) job = if truthy given then given else hash job.normalized_payload

-- The columns of the unique constraint.
abbrev pub has_key : (target job_id payload_hash : String) → SyncEvent → Bool
has_key target job_id payload_hash event =
    same_text event.target target
    && same_text event.normalized_job_id job_id
    && same_text event.payload_hash payload_hash

-- The `select` of `find_event`, over the rows from position `i` on.
unfoldable pub find_key :
    (target job_id payload_hash : String) → ℕ → Events → Option (ℕ × SyncEvent)
find_key target job_id payload_hash i [] = none
find_key target job_id payload_hash i (event ∷ events) =
    let rest = find_key target job_id payload_hash (suc i) events in
    if has_key target job_id payload_hash event then some (i, event) else rest

unfoldable pub find_event :
    (Json → String)
    → NormalizedJob
    → (target : String) (payload_hash : Option String) → Events
    → Option (ℕ × SyncEvent)
find_event hash job target payload_hash events =
    find_key target job.id (hash_or hash payload_hash job) 0 events

abbrev pub new_event :
    NormalizedJob → Option String → (target payload_hash : String) → ℕ → SyncEvent
new_event job scrape_run_id target payload_hash now = record {
  scrape_run_id = scrape_run_id;
  normalized_job_id = job.id;
  source_platform = job.source_platform;
  external_id = job.external_id;
  status = pending;
  target = target;
  payload_hash = payload_hash;
  attempt_count = 0;
  attempted_at = now;
  completed_at = none;
  error_category = none;
  error_message = none;
  response_summary = none;
  metadata_json = none;
}

abbrev pub reused_event : Option String → ℕ → SyncEvent → SyncEvent
reused_event scrape_run_id now event = record event {
  scrape_run_id = scrape_run_id;
  attempted_at = now;
}

abbrev pub reuse_or_add :
    NormalizedJob
    → Option String
    → (target payload_hash : String) → ℕ
    → Events
    → Option (ℕ × SyncEvent)
    → ℕ × Events
reuse_or_add job scrape_run_id target payload_hash now events (some (i, event)) =
    (i, modify events i (reused_event scrape_run_id now))
reuse_or_add job scrape_run_id target payload_hash now events none =
    (length events, events ++ new_event job scrape_run_id target payload_hash now ∷ [])

-- The reference of the prepared event, and the table.
unfoldable pub prepare_event :
    (Json → String)
    → NormalizedJob
    → (scrape_run_id : Option String) (target : String) (payload_hash : Option String) (now : ℕ)
    → Events
    → ℕ × Events
unfolding find_event
prepare_event hash job scrape_run_id target payload_hash now events =
    let key = hash_or hash payload_hash job in
    reuse_or_add job scrape_run_id target key now events
      (find_event hash job target (some key) events)

abbrev pub with_chunk : (chunk_id chunk_payload_hash : String) → ℕ → SyncEvent → SyncEvent
with_chunk chunk_id chunk_payload_hash chunk_size event = record event {
  metadata_json = some (record {
    chunk_id = chunk_id;
    chunk_payload_hash = chunk_payload_hash;
    chunk_size = chunk_size;
  });
}

abbrev pub succeeded_event : Fields → ℕ → SyncEvent → SyncEvent
succeeded_event response_summary now event = record event {
  status = sent;
  attempt_count = event.attempt_count + 1;
  completed_at = some now;
  error_category = none;
  error_message = none;
  response_summary = some response_summary;
}

abbrev pub failed_status : (attempts max_attempts : ℕ) → SyncEventStatus
failed_status attempts max_attempts = if leb max_attempts attempts then dead_letter else failed

abbrev pub completion : SyncEventStatus → ℕ → Option ℕ
completion dead_letter now = some now
completion _ now = none

abbrev pub failed_event : SyncFailure → (max_attempts now : ℕ) → SyncEvent → SyncEvent
failed_event failure max_attempts now event =
    let attempts = event.attempt_count + 1 in
    let status' = failed_status attempts max_attempts in
    record event {
      status = status';
      attempt_count = attempts;
      attempted_at = now;
      completed_at = completion status' now;
      error_category = some failure.category;
      error_message = some failure.message;
      response_summary = failure.response_summary;
    }

unfoldable pub attach_chunk_metadata :
    (chunk_id chunk_payload_hash : String) → ℕ → ℕ → Events → Events
attach_chunk_metadata chunk_id chunk_payload_hash chunk_size i events =
    modify events i (with_chunk chunk_id chunk_payload_hash chunk_size)

pub record_success : Fields → ℕ → ℕ → Events → Events
record_success response_summary now i events =
    modify events i (succeeded_event response_summary now)

unfoldable pub record_failure : SyncFailure → (max_attempts now : ℕ) → ℕ → Events → Events
record_failure failure max_attempts now i events =
    modify events i (failed_event failure max_attempts now)

abbrev retryable_status : SyncEventStatus → (attempts max_attempts : ℕ) → Bool
retryable_status pending attempts max_attempts = true
retryable_status failed attempts max_attempts = ltb attempts max_attempts
retryable_status _ attempts max_attempts = false

unfoldable pub is_retryable_event : SyncEvent → (max_attempts : ℕ) → Bool
is_retryable_event event max_attempts =
    retryable_status event.status event.attempt_count max_attempts

-- The loop of `scrape_scope_run_id`: the first suffix that the run's identifier ends with is
-- replaced by "scrape".
scope_by : String → List String → String
scope_by run_id [] = run_id
scope_by run_id (suffix ∷ suffixes) = elim (strip_suffix (join_text "-" suffix) run_id) [
  | some base ↦ join_text base "-scrape"
  | none ↦ scope_by run_id suffixes
]

unfoldable pub scrape_scope_run_id : String → String
unfolding scope_by
scrape_scope_run_id run_id =
    scope_by run_id ("notify-handoff" ∷ "notify" ∷ "normalize" ∷ "enrich" ∷ "scrape" ∷ "sync" ∷ [])
