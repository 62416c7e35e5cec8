-- ===== src/Sync/Events/Keeps.antt =====
-- Properties of all events that the operations of the outbox keep.
use bisakerja_scraper.Prelude.{ℕ, Option, none, some, String, [], ◌∷◌, All, All-append, All-modify}
use bisakerja_scraper.Prelude.Json.{Json, Fields}
use bisakerja_scraper.Models.{NormalizedJob}
use bisakerja_scraper.Sync.Events.{
  Events, SyncEvent, SyncFailure, hash_or, find_event, new_event, reused_event, reuse_or_add,
  with_chunk, succeeded_event, failed_event, prepare_event, attach_chunk_metadata, record_success,
  record_failure,
}

module _ (P : SyncEvent → Type 0) where
  reuse_or_add-All :
      (job : NormalizedJob) (run_id : Option String) (target key : String) (now : ℕ)
      (events : Events) (found : Option (ℕ × SyncEvent))
      → ((event : SyncEvent) → P event → P (reused_event run_id now event))
      → P (new_event job run_id target key now)
      → All P events
      → All P (reuse_or_add job run_id target key now events found).1
  reuse_or_add-All job run_id target key now events none reuse fresh h =
      All-append P events (new_event job run_id target key now ∷ []) h (fresh, tt)
  reuse_or_add-All job run_id target key now events (some (i, event)) reuse fresh h =
      All-modify P events i (reused_event run_id now) reuse h

  pub prepare_event-All :
      (hash : Json → String) (job : NormalizedJob) (run_id : Option String) (target : String)
      (payload_hash : Option String) (now : ℕ) (events : Events)
      → ((event : SyncEvent) → P event → P (reused_event run_id now event))
      → ((key : String) → P (new_event job run_id target key now))
      → All P events
      → All P (prepare_event hash job run_id target payload_hash now events).1
  unfolding prepare_event
  prepare_event-All hash job run_id target payload_hash now events reuse fresh h =
      let key = hash_or hash payload_hash job in
      reuse_or_add-All job run_id target key now events
        (find_event hash job target (some key) events) reuse (fresh key) h

  pub attach_chunk_metadata-All :
      (chunk_id hash : String) (size i : ℕ) (events : Events)
      → ((event : SyncEvent) → P event → P (with_chunk chunk_id hash size event))
      → All P events
      → All P (attach_chunk_metadata chunk_id hash size i events)
  unfolding attach_chunk_metadata
  attach_chunk_metadata-All chunk_id hash size i events step h =
      All-modify P events i (with_chunk chunk_id hash size) step h

  pub record_success-All :
      (summary : Fields) (now i : ℕ) (events : Events)
      → ((event : SyncEvent) → P event → P (succeeded_event summary now event))
      → All P events
      → All P (record_success summary now i events)
  unfolding record_success
  record_success-All summary now i events step h =
      All-modify P events i (succeeded_event summary now) step h

  pub record_failure-All :
      (failure : SyncFailure) (max_attempts now i : ℕ) (events : Events)
      → ((event : SyncEvent) → P event → P (failed_event failure max_attempts now event))
      → All P events
      → All P (record_failure failure max_attempts now i events)
  unfolding record_failure
  record_failure-All failure max_attempts now i events step h =
      All-modify P events i (failed_event failure max_attempts now) step h
