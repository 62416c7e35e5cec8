-- ===== src/Sync/Events/Changes.antt =====
-- What the changes of single events keep: the keys, and that an event is sent.
use bisakerja_scraper.Prelude.{
  ℕ, zero, suc, ◌+◌, ◌≡◌, refl, Option, some, false, [], ◌∷◌, String, arith, get_elem?,
}
use bisakerja_scraper.Prelude.Json.{Json, Fields}
use bisakerja_scraper.Models.{NormalizedJob}
use bisakerja_scraper.Sync.Events.{
  Events, SyncEvent, SyncFailure, sent, find_event, hash_or, with_chunk, succeeded_event,
  failed_event, record_failure, record_success, attach_chunk_metadata, is_retryable_event,
}
use bisakerja_scraper.Sync.Events.Unique.{IsFirst, IsFirst-modify, IsFirst-find_key}

module _ (target job_id hash : String) (i : ℕ) where
  pub record_failure-IsFirst :
      (failure : SyncFailure) (max_attempts now j : ℕ) (events : Events)
      → IsFirst target job_id hash i events
      → IsFirst target job_id hash i (record_failure failure max_attempts now j events)
  unfolding record_failure
  record_failure-IsFirst failure max_attempts now j events h =
      IsFirst-modify target job_id hash i j (failed_event failure max_attempts now) events
        (λ event. refl) h

  pub record_success-IsFirst :
      (summary : Fields) (now j : ℕ) (events : Events)
      → IsFirst target job_id hash i events
      → IsFirst target job_id hash i (record_success summary now j events)
  unfolding record_success
  record_success-IsFirst summary now j events h =
      IsFirst-modify target job_id hash i j (succeeded_event summary now) events (λ event. refl) h

  pub attach_chunk_metadata-IsFirst :
      (chunk_id chunk_hash : String) (size j : ℕ) (events : Events)
      → IsFirst target job_id hash i events
      → IsFirst target job_id hash i (attach_chunk_metadata chunk_id chunk_hash size j events)
  unfolding attach_chunk_metadata
  attach_chunk_metadata-IsFirst chunk_id chunk_hash size j events h =
      IsFirst-modify target job_id hash i j (with_chunk chunk_id chunk_hash size) events
        (λ event. refl) h

-- The event at the position, if there is one, is sent.
abbrev pub IsSent : ℕ → Events → Type 0
IsSent i [] = Unit
IsSent zero (event ∷ events) = event.status ≡ sent
IsSent (suc i) (event ∷ events) = IsSent i events

pub record_success-IsSent :
    (summary : Fields) (now i : ℕ) (events : Events)
    → IsSent i (record_success summary now i events)
unfolding record_success
record_success-IsSent summary now i [] = tt
record_success-IsSent summary now zero (event ∷ events) = refl
record_success-IsSent summary now (suc i) (event ∷ events) =
    record_success-IsSent summary now i events

pub record_success-keeps_IsSent :
    (summary : Fields) (now i j : ℕ) (events : Events)
    → IsSent i events
    → IsSent i (record_success summary now j events)
unfolding record_success
record_success-keeps_IsSent summary now i j [] h = tt
record_success-keeps_IsSent summary now zero zero (event ∷ events) h = refl
record_success-keeps_IsSent summary now zero (suc j) (event ∷ events) h = h
record_success-keeps_IsSent summary now (suc i) zero (event ∷ events) h = h
record_success-keeps_IsSent summary now (suc i) (suc j) (event ∷ events) h =
    record_success-keeps_IsSent summary now i j events h

IsSent-get_elem? :
    (i : ℕ) (events : Events) (event : SyncEvent)
    → IsSent i events
    → get_elem? events i ≡ some event
    → event.status ≡ sent
IsSent-get_elem? i [] event h e = absurd (cc)
IsSent-get_elem? zero (other ∷ events) event h e = ground arith
IsSent-get_elem? (suc i) (other ∷ events) event h e = IsSent-get_elem? i events event h e

-- What `find_event` finds where the first event with the key is sent.
pub find_event_of_first :
    (hash : Json → String) (job : NormalizedJob) (target : String) (payload_hash : Option String)
    (i : ℕ) (events : Events)
    → IsFirst target job.id (hash_or hash payload_hash job) i events
    → IsSent i events
    → (event : SyncEvent) × (find_event hash job target payload_hash events ≡ some (i, event))
      × (event.status ≡ sent)
unfolding find_event
find_event_of_first hash job target payload_hash i events first is_sent =
    let (event, found, there) =
      IsFirst-find_key target job.id (hash_or hash payload_hash job) i 0 events first in
    let place : 0 + i ≡ i = omega arith in
    (event, rw place at found, IsSent-get_elem? i events event is_sent there)

-- A sent event is not retried.
pub not_retryable :
    (event : SyncEvent) (max_attempts : ℕ)
    → event.status ≡ sent
    → is_retryable_event event max_attempts ≡ false
unfolding is_retryable_event
not_retryable event max_attempts e = ground arith
