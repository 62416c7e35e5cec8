-- ===== src/Handoff.antt =====
-- src/modules/notifications/handoff.py: the events that hand synced jobs on to the backend's
-- notifications. A table is a list and a row's reference its position. The client, the hash, the
-- database's order of texts and `isoformat` are parameters.
pub mod Worker
use bisakerja_scraper.Prelude.{
  ℕ, suc, ◌+◌, String, Option, none, some, Bool, true, false, ◌&&◌, ◌||◌, List, [], ◌∷◌, ◌++◌, leb,
  ltb, if◌then◌else◌, same_text, length, get_elem?, modify, keep,
}
use bisakerja_scraper.Prelude.Json.{Json, Items, Fields, get_field}
use bisakerja_scraper.Prelude.Text.{join_text}
use bisakerja_scraper.Prelude.Upsert.{upsert_where}
use bisakerja_scraper.Prelude.Sort.{sort_by}
use bisakerja_scraper.Prelude.Chunks.{chunked}
use bisakerja_scraper.Models.{
  NormalizedJob, CanonicalJobStatus, active, stale, inactive, expired, unknown,
}
use bisakerja_scraper.Sync.Events.{SyncEvent, SyncEventStatus, backend}

pub data HandoffStatus : Type 0 where
  pending sent failed dead_letter : HandoffStatus

pub record NotificationHandoffEvent : Type 0 where
  pub scrape_run_id : String
  pub normalized_job_id : String
  pub sync_event_id : String
  pub source_platform : String
  pub external_id : String
  pub target : String
  pub status : HandoffStatus
  pub payload_hash : String
  pub attempt_count : ℕ
  pub attempted_at : ℕ
  pub completed_at : Option ℕ
  pub error_category : Option String
  pub error_message : Option String
  pub response_summary : Option Fields
  pub payload_json : Json

abbrev pub Handoffs : Type 0
Handoffs = List NotificationHandoffEvent

pub record HandoffFailure : Type 0 where
  pub category : String
  pub message : String
  pub response_summary : Option Fields

-- A row of `sync_events` with its identifier and its `normalized_job`.
pub record SyncedEvent : Type 0 where
  pub id : String
  pub event : SyncEvent
  pub normalized_job : Option NormalizedJob

abbrev pub is_of_run : (scrape_run_id : String) → Option String → Bool
is_of_run scrape_run_id none = false
is_of_run scrape_run_id (some id) = same_text id scrape_run_id

abbrev is_sent : SyncEventStatus → Bool
is_sent SyncEventStatus.sent = true
is_sent _ = false

-- The `where` of `list_synced_jobs_for_run`; each event has a `normalized_job_id`.
abbrev pub is_synced : (scrape_run_id target : String) → SyncedEvent → Bool
is_synced scrape_run_id target row =
    is_of_run scrape_run_id row.event.scrape_run_id
    && same_text row.event.target target
    && is_sent row.event.status

-- `order_by(source_platform.asc(), external_id.asc())`
abbrev pub by_source : (text_before : String → String → Bool) → SyncedEvent → SyncedEvent → Bool
by_source text_before a b =
    if same_text a.event.source_platform b.event.source_platform
    then text_before a.event.external_id b.event.external_id
    else text_before a.event.source_platform b.event.source_platform

pub list_synced_jobs_for_run :
    (text_before : String → String → Bool) (scrape_run_id target : String)
    → List SyncedEvent
    → List SyncedEvent
list_synced_jobs_for_run text_before scrape_run_id target rows =
    sort_by (by_source text_before) (keep (is_synced scrape_run_id target) rows)

abbrev pub status_text : CanonicalJobStatus → String
status_text active = "active"
status_text stale = "stale"
status_text inactive = "inactive"
status_text expired = "expired"
status_text unknown = "unknown"

-- A field of a payload that is an object, as the column's type has it.
abbrev pub field_of : (key : String) → Json → Option Json
field_of key (Json.obj fields) = get_field key fields
field_of key _ = none

-- A value that is a dict, or else the default.
abbrev pub dict_or : Json → Option Json → Json
dict_or default (some (Json.obj fields)) = Json.obj fields
dict_or default _ = default

abbrev run_text : Option String → String
run_text none = "None"
run_text (some id) = id

pub candidate_payload_from : (iso : ℕ → String) → SyncedEvent → NormalizedJob → Json
candidate_payload_from iso sync_event job =
    let payload = job.normalized_payload in
    let event_id =
      join_text (run_text sync_event.event.scrape_run_id)
        (join_text ":" (join_text job.source_platform (join_text ":" job.external_id))) in
    Json.obj (
      Fields.field "eventId" (Json.str event_id) (
        Fields.field "syncEventId" (Json.str sync_event.id) (
          Fields.field "sourcePlatform" (Json.str job.source_platform) (
            Fields.field "externalJobId" (Json.str job.external_id) (
              Fields.field "title" (Json.str job.title) (
                Fields.field "companyName" (Json.str job.company_name) (
                  Fields.field "sourceUrl" (Json.str job.source_url) (
                    Fields.field "location"
                      (dict_or (Json.obj Fields.end) (field_of "location" payload))
                      (Fields.field "salary" (dict_or Json.null (field_of "salary" payload)) (
                        Fields.field "status" (Json.str (status_text job.status)) (
                          Fields.field "lastSeenAt" (Json.str (iso job.last_seen_at))
                            Fields.end)))))))))))

abbrev pub is_event_of :
    (scrape_run_id source_platform external_id target : String) → NotificationHandoffEvent → Bool
is_event_of scrape_run_id source_platform external_id target event =
    same_text event.scrape_run_id scrape_run_id
    && same_text event.source_platform source_platform
    && same_text event.external_id external_id
    && same_text event.target target

pub record Encoding : Type 0 where
  pub hash : Json → String
  pub iso : ℕ → String

abbrev pub handoff_row :
    Encoding
    → (scrape_run_id target : String) (now : ℕ) → SyncedEvent
    → NormalizedJob
    → NotificationHandoffEvent
handoff_row c scrape_run_id target now sync_event job = record {
  scrape_run_id = scrape_run_id;
  normalized_job_id = job.id;
  sync_event_id = sync_event.id;
  source_platform = sync_event.event.source_platform;
  external_id = sync_event.event.external_id;
  target = target;
  status = pending;
  payload_hash = c.hash (candidate_payload_from c.iso sync_event job);
  attempt_count = 0;
  attempted_at = now;
  completed_at = none;
  error_category = none;
  error_message = none;
  response_summary = none;
  payload_json = candidate_payload_from c.iso sync_event job;
}

abbrev pub changed_handoff :
    Encoding
    → (now : ℕ) → SyncedEvent
    → NormalizedJob
    → NotificationHandoffEvent
    → NotificationHandoffEvent
changed_handoff c now sync_event job event = record event {
  sync_event_id = sync_event.id;
  normalized_job_id = job.id;
  payload_hash = c.hash (candidate_payload_from c.iso sync_event job);
  payload_json = candidate_payload_from c.iso sync_event job;
  attempted_at = now;
}

-- `prepare_event` behind its two checks, of which the second is `require_job`; none is a ValueError.
abbrev pub prepare_checked :
    Encoding
    → (target : String) (now : ℕ) → SyncedEvent
    → (scrape_run_id : Option String) (normalized_job : Option NormalizedJob) → Handoffs
    → Option (ℕ × Handoffs)
prepare_checked c target now sync_event none job table = none
prepare_checked c target now sync_event (some scrape_run_id) none table = none
prepare_checked c target now sync_event (some scrape_run_id) (some job) table =
    let row = sync_event.event in
    let (i, created, table') =
      upsert_where (is_event_of scrape_run_id row.source_platform row.external_id target)
        (handoff_row c scrape_run_id target now sync_event job)
        (changed_handoff c now sync_event job) table in
    some (i, table')

pub prepare_event :
    Encoding → (target : String) (now : ℕ) → SyncedEvent → Handoffs → Option (ℕ × Handoffs)
prepare_event c target now sync_event table =
    prepare_checked c target now sync_event sync_event.event.scrape_run_id sync_event.normalized_job
      table

abbrev pub record_success : (response_summary : Fields) (now i : ℕ) → Handoffs → Handoffs
record_success response_summary now i table = modify table i (λ event. record event {
  status = sent;
  attempt_count = event.attempt_count + 1;
  completed_at = some now;
  error_category = none;
  error_message = none;
  response_summary = some response_summary;
})

abbrev pub failed_event :
    HandoffFailure → (max_attempts now : ℕ) → NotificationHandoffEvent → NotificationHandoffEvent
failed_event failure max_attempts now event =
    let dead = leb max_attempts (event.attempt_count + 1) in
    record event {
      attempt_count = event.attempt_count + 1;
      status = if dead then dead_letter else failed;
      error_category = some failure.category;
      error_message = some failure.message;
      response_summary = failure.response_summary;
      attempted_at = now;
      completed_at = if dead then some now else none;
    }

abbrev pub record_failure : HandoffFailure → (max_attempts now i : ℕ) → Handoffs → Handoffs
record_failure failure max_attempts now i table =
    modify table i (failed_event failure max_attempts now)

abbrev pub is_retryable_handoff : (max_attempts : ℕ) → NotificationHandoffEvent → Bool
is_retryable_handoff max_attempts event = elim event.status [
  | pending ↦ true
  | failed ↦ ltb event.attempt_count max_attempts
  | _ ↦ false
]
