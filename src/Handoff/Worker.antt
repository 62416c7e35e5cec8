-- ===== src/Handoff/Worker.antt =====
-- src/modules/notifications/handoff.py: `handoff_synced_jobs`. A sync event of a job that is prepared
-- twice leads to one row, which is then handed on twice.
pub mod Chunked
pub mod Sent
pub mod Requests
pub mod Kept
mod Tests
use bisakerja_scraper.Prelude.{
  ℕ, suc, ◌+◌, String, Option, none, some, Bool, true, false, List, [], ◌∷◌, ◌++◌, ◌>>=◌,
  if◌then◌else◌, length, get_elem?,
}
use bisakerja_scraper.Prelude.Json.{Json, Items, Fields}
use bisakerja_scraper.Prelude.Chunks.{chunked}
use bisakerja_scraper.Sync.Events.{backend}
use bisakerja_scraper.Handoff.{
  Handoffs, HandoffFailure, NotificationHandoffEvent, SyncedEvent, Encoding,
  list_synced_jobs_for_run, prepare_event, record_success, record_failure, is_retryable_handoff,
}

-- What `send_candidates` does: a HandoffSuccess, or an exception with its class, text and summary.
pub data HandoffReply : Type 0 where
  success : (response_summary : Fields) → HandoffReply
  raised : (class_name message : String) (response_summary : Option Fields) → HandoffReply

-- The worker and what it works with. The client is known by its replies: it has received the payloads
-- of its calls, in order, and replies to the last one.
pub record HandoffWorker : Type 0 where
  pub encoding : Encoding
  pub text_before : String → String → Bool
  pub send_candidates : (received : List Json) → HandoffReply
  pub max_attempts : ℕ
  pub batch_size : ℕ
  pub prepared_at : ℕ
  pub replied_at : (chunk : ℕ) → ℕ

abbrev pub default_handoff_target : String
default_handoff_target = "backend-notifications"

-- `[prepare_event(sync_event) for sync_event in sync_events]`
pub prepare_all : HandoffWorker → List SyncedEvent → Handoffs → Option (List ℕ × Handoffs)
prepare_all w [] table = some ([], table)
prepare_all w (sync_event ∷ rest) table = do
  (i, table') ← prepare_event w.encoding default_handoff_target w.prepared_at sync_event table
  (refs, table'') ← prepare_all w rest table'
  some (i ∷ refs, table'')

abbrev pub row_is_retryable : (max_attempts : ℕ) → Option NotificationHandoffEvent → Bool
row_is_retryable max_attempts none = false
row_is_retryable max_attempts (some event) = is_retryable_handoff max_attempts event

pub retryable_events : (max_attempts : ℕ) → Handoffs → List ℕ → List ℕ
retryable_events max_attempts table [] = []
retryable_events max_attempts table (i ∷ refs) =
    let rest = retryable_events max_attempts table refs in
    if row_is_retryable max_attempts (get_elem? table i) then i ∷ rest else rest

abbrev pub payload_at : Option NotificationHandoffEvent → List Json
payload_at none = []
payload_at (some event) = event.payload_json ∷ []

-- `[event.payload_json for event in chunk_events]`
abbrev pub candidates : Handoffs → List ℕ → List Json
candidates table [] = []
candidates table (i ∷ refs) = payload_at (get_elem? table i) ++ candidates table refs

abbrev pub items_of : List Json → Items
items_of [] = Items.nil
items_of (x ∷ xs) = Items.cons x (items_of xs)

abbrev pub request : (scrape_run_id : String) → List Json → Json
request scrape_run_id payloads = Json.obj (
    Fields.field "runId" (Json.str scrape_run_id)
      (Fields.field "candidates" (Json.arr (items_of payloads)) Fields.end))

-- The variables of the loop, and the payloads that the client has received.
pub record Handing : Type 0 where
  pub table : Handoffs
  pub sent : ℕ
  pub failed : ℕ
  pub chunks_attempted : ℕ
  pub chunks_failed : ℕ
  pub requests : List Json

pub record_all : (ℕ → Handoffs → Handoffs) → List ℕ → Handoffs → Handoffs
record_all step [] table = table
record_all step (i ∷ refs) table = record_all step refs (step i table)

abbrev pub on_reply : HandoffWorker → List ℕ → HandoffReply → Handing → Handing
on_reply w refs (success response_summary) st = record st {
  table =
      record_all (record_success response_summary (w.replied_at st.chunks_attempted)) refs st.table;
  sent = st.sent + length refs;
  chunks_attempted = st.chunks_attempted + 1;
}
on_reply w refs (raised class_name message response_summary) st =
    let failure : HandoffFailure = record {
      category = class_name;
      message = message;
      response_summary = response_summary;
    } in
    record st {
      table =
          record_all (record_failure failure w.max_attempts (w.replied_at st.chunks_attempted)) refs
            st.table;
      failed = st.failed + length refs;
      chunks_attempted = st.chunks_attempted + 1;
      chunks_failed = st.chunks_failed + 1;
    }

-- The call of the client, which receives one more payload.
pub post : HandoffWorker → (payload : Json) → Handing → HandoffReply × Handing
post w payload st =
    let received = st.requests ++ payload ∷ [] in
    (w.send_candidates received, record st { requests = received })

pub hand_chunk : HandoffWorker → (scrape_run_id : String) → List ℕ → Handing → Handing
hand_chunk w scrape_run_id refs st =
    let (reply, st') = post w (request scrape_run_id (candidates st.table refs)) st in
    on_reply w refs reply st'

pub hand_chunks : HandoffWorker → (scrape_run_id : String) → List (List ℕ) → Handing → Handing
hand_chunks w scrape_run_id [] st = st
hand_chunks w scrape_run_id (refs ∷ rest) st =
    hand_chunks w scrape_run_id rest (hand_chunk w scrape_run_id refs st)

pub record HandoffWorkerResult : Type 0 where
  pub attempted : ℕ
  pub sent : ℕ
  pub failed : ℕ
  pub chunks_attempted : ℕ
  pub chunks_failed : ℕ

abbrev pub starting : Handoffs → Handing
starting table = record {
  table = table;
  sent = 0;
  failed = 0;
  chunks_attempted = 0;
  chunks_failed = 0;
  requests = [];
}

-- The part of `handoff_synced_jobs` from `retryable_events` on; without any, no chunk is made.
pub hand_on :
    HandoffWorker → (scrape_run_id : String) → List ℕ × Handoffs → HandoffWorkerResult × Handing
hand_on w scrape_run_id (refs, table) =
    let retryable = retryable_events w.max_attempts table refs in
    let st = hand_chunks w scrape_run_id (chunked w.batch_size retryable) (starting table) in
    (
      record {
        attempted = length retryable;
        sent = st.sent;
        failed = st.failed;
        chunks_attempted = st.chunks_attempted;
        chunks_failed = st.chunks_failed;
      },
      st,
    )

pub handoff_synced_jobs :
    HandoffWorker
    → (scrape_run_id : String) → List SyncedEvent
    → Handoffs
    → Option (HandoffWorkerResult × Handing)
handoff_synced_jobs w scrape_run_id rows table = do
  prepared ← prepare_all w (list_synced_jobs_for_run w.text_before scrape_run_id backend rows) table
  some (hand_on w scrape_run_id prepared)
