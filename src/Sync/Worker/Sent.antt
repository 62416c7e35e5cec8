-- ===== src/Sync/Worker/Sent.antt =====
-- A job that was sent is not a candidate again.
use bisakerja_scraper.Prelude.{
  ℕ, ◌<◌, ◌≡◌, refl, Option, none, some, false, List, [], ◌∷◌, ◌++◌, String, arith, length, inl,
  inr, ◌⊎◌,
}
use bisakerja_scraper.Prelude.Json.{Json, Fields}
use bisakerja_scraper.Models.{NormalizedJob}
use bisakerja_scraper.Sync.Events.{Events, hash_or, backend, record_success}
use bisakerja_scraper.Sync.Events.Unique.{
  IsFirst, prepare_event-IsFirst, prepare_event-keeps_IsFirst,
}
use bisakerja_scraper.Sync.Events.Changes.{
  record_failure-IsFirst, record_success-IsFirst, attach_chunk_metadata-IsFirst, IsSent,
  record_success-IsSent, record_success-keeps_IsSent, find_event_of_first, not_retryable,
}
use bisakerja_scraper.Sync.Worker.{
  Outside, Payload, valid, invalid, Reply, accepted, Prepared, prepare_payload, prepare_jobs,
  settle_reply, for_events, send_prepared, sync_chunk, contract_failure, is_candidate, client_error,
  server_error,
}

-- The reference is in the list.
abbrev Has : ℕ → List ℕ → Type 0
Has i [] = ⊥
Has i (j ∷ refs) = (i ≡ j) ⊎ Has i refs

Has-append : (i : ℕ) (refs more : List ℕ) → Has i refs → Has i (refs ++ more)
Has-append i [] more h = absurd h
Has-append i (j ∷ refs) more (inl e) = inl e
Has-append i (j ∷ refs) more (inr h) = inr (Has-append i refs more h)

Has-last : (i : ℕ) (refs : List ℕ) → Has i (refs ++ i ∷ [])
Has-last i [] = inl refl
Has-last i (j ∷ refs) = inr (Has-last i refs)

module _ (out : Outside) where
  abbrev key_of : NormalizedJob → Json → String
  key_of job payload = hash_or out.stable_payload_hash (some (out.stable_payload_hash payload)) job

  -- The chunk holds the event of a valid job.
  abbrev Covers : NormalizedJob → Json → Prepared → Type 0
  Covers job payload p =
      (i : ℕ) × Has i p.valid_events × IsFirst backend job.id (key_of job payload) i p.events

  prepare_payload-Covers :
      (run_id : Option String) (now : ℕ) (other : NormalizedJob) (built : Payload)
      (job : NormalizedJob) (payload : Json) (p : Prepared)
      → Covers job payload p
      → Covers job payload (prepare_payload out run_id now other built p)
  prepare_payload-Covers run_id now other (invalid message details) job payload p (i, has, first) =
      (
        i,
        has,
        record_failure-IsFirst backend job.id (key_of job payload) i
            (contract_failure message details) 1 now _ _
            (prepare_event-keeps_IsFirst out.stable_payload_hash other run_id backend none now
              p.events backend job.id (key_of job payload) i first),
      )
  prepare_payload-Covers run_id now other (valid built) job payload p (i, has, first) = (
    i,
    Has-append i p.valid_events _ has,
    prepare_event-keeps_IsFirst out.stable_payload_hash other run_id backend
        (some (out.stable_payload_hash built)) now p.events backend job.id (key_of job payload) i
        first,
  )

  prepare_payload-covered :
      (run_id : Option String) (now : ℕ) (job : NormalizedJob) (payload : Json) (p : Prepared)
      → Covers job payload (prepare_payload out run_id now job (valid payload) p)
  prepare_payload-covered run_id now job payload p = (
    _,
    Has-last _ p.valid_events,
    prepare_event-IsFirst out.stable_payload_hash job run_id backend
        (some (out.stable_payload_hash payload)) now p.events,
  )

  prepare_jobs-Covers :
      (run_id : Option String) (now : ℕ) (jobs : List NormalizedJob) (job : NormalizedJob)
      (payload : Json) (p : Prepared)
      → Covers job payload p
      → Covers job payload (prepare_jobs out run_id now jobs p)
  unfolding prepare_jobs
  prepare_jobs-Covers run_id now [] job payload p h = h
  prepare_jobs-Covers run_id now (other ∷ jobs) job payload p h =
      prepare_jobs-Covers run_id now jobs job payload
        (prepare_payload out run_id now other (out.build other) p)
        (prepare_payload-Covers run_id now other (out.build other) job payload p h)

  -- The job is one of the list.
  abbrev pub IsOneOf : NormalizedJob → List NormalizedJob → Type 0
  IsOneOf job [] = ⊥
  IsOneOf job (other ∷ jobs) = (job ≡ other) ⊎ IsOneOf job jobs

  prepare_jobs-covered :
      (run_id : Option String) (now : ℕ) (jobs : List NormalizedJob) (job : NormalizedJob)
      (payload : Json) (p : Prepared)
      → IsOneOf job jobs
      → out.build job ≡ valid payload
      → Covers job payload (prepare_jobs out run_id now jobs p)
  unfolding prepare_jobs
  prepare_jobs-covered run_id now [] job payload p one built = absurd one
  prepare_jobs-covered run_id now (other ∷ jobs) job payload p (inl same) built =
      prepare_jobs-Covers run_id now jobs job payload _
        (rw (← same, built) (prepare_payload-covered run_id now job payload p))
  prepare_jobs-covered run_id now (other ∷ jobs) job payload p (inr later) built =
      prepare_jobs-covered run_id now jobs job payload _ later built

module _ (target job_id hash : String) (i : ℕ) where
  for_events-IsFirst :
      (change : ℕ → Events → Events)
      → ((j : ℕ) (events : Events)
          → IsFirst target job_id hash i events
          → IsFirst target job_id hash i (change j events))
      → (refs : List ℕ) (events : Events) → IsFirst target job_id hash i events
      → IsFirst target job_id hash i (for_events change refs events)
  unfolding for_events
  for_events-IsFirst change step [] events h = h
  for_events-IsFirst change step (j ∷ refs) events h =
      for_events-IsFirst change step refs (change j events) (step j events h)

module _ (summary : Fields) (now i : ℕ) where
  for_events-keeps_IsSent :
      (refs : List ℕ) (events : Events)
      → IsSent i events
      → IsSent i (for_events (record_success summary now) refs events)
  unfolding for_events
  for_events-keeps_IsSent [] events h = h
  for_events-keeps_IsSent (j ∷ refs) events h =
      for_events-keeps_IsSent refs (record_success summary now j events)
        (record_success-keeps_IsSent summary now i j events h)

  for_events-IsSent :
      (refs : List ℕ) (events : Events)
      → Has i refs
      → IsSent i (for_events (record_success summary now) refs events)
  unfolding for_events
  for_events-IsSent [] events h = absurd h
  for_events-IsSent (j ∷ refs) events (inl same) =
      for_events-keeps_IsSent refs _ (rw (← same) (record_success-IsSent summary now i events))
  for_events-IsSent (j ∷ refs) events (inr later) = for_events-IsSent refs _ later

-- The first event of the key is sent.
abbrev Settled : (job_id hash : String) → Events → Type 0
Settled job_id hash events = (i : ℕ) × IsFirst backend job_id hash i events × IsSent i events

settle_reply-Settled :
    (reply : Reply) (max_attempts now : ℕ) (p : Prepared) (job_id hash : String) (i : ℕ)
    → 0 < (settle_reply reply max_attempts now p).0.sent
    → Has i p.valid_events
    → IsFirst backend job_id hash i p.events
    → Settled job_id hash (settle_reply reply max_attempts now p).1
unfolding settle_reply
settle_reply-Settled (accepted status summary) max_attempts now p job_id hash i some_sent has
      first =
    (
      i,
      for_events-IsFirst backend job_id hash i (record_success summary now)
          (record_success-IsFirst backend job_id hash i summary now) p.valid_events p.events first,
      for_events-IsSent summary now i p.valid_events p.events has,
    )
settle_reply-Settled (client_error status message summary) max_attempts now p job_id hash i
      some_sent has first =
    absurd (omega arith)
settle_reply-Settled (server_error status message summary) max_attempts now p job_id hash i
      some_sent has first =
    absurd (omega arith)

send_prepared-Settled :
    (out : Outside) (max_attempts : ℕ) (chunk_id : String) (n : ℕ) (p : Prepared)
    (payloads : List Json) (job_id hash : String) (i : ℕ)
    → 0 < (send_prepared out max_attempts chunk_id n p payloads).0.sent
    → Has i p.valid_events
    → IsFirst backend job_id hash i p.events
    → Settled job_id hash (send_prepared out max_attempts chunk_id n p payloads).1
send_prepared-Settled out max_attempts chunk_id n p [] job_id hash i some_sent has first =
    absurd (omega arith)
send_prepared-Settled out max_attempts chunk_id n p (payload ∷ payloads) job_id hash i some_sent has
      first =
    settle_reply-Settled (out.sync_jobs n (payload ∷ payloads)) max_attempts (out.now n) _ job_id
      hash i some_sent has
      (for_events-IsFirst backend job_id hash i _
        (attach_chunk_metadata-IsFirst backend job_id hash i chunk_id _
          (length (payload ∷ payloads)))
        p.valid_events p.events first)

sync_chunk-Settled :
    (out : Outside) (max_attempts : ℕ) (run_id : Option String) (chunk_id : String) (n : ℕ)
    (jobs : List NormalizedJob) (events : Events) (job : NormalizedJob) (payload : Json)
    → IsOneOf out job jobs
    → out.build job ≡ valid payload
    → 0 < (sync_chunk out max_attempts run_id chunk_id n jobs events).0.sent
    → Settled job.id
        (key_of out job payload)
        (sync_chunk out max_attempts run_id chunk_id n jobs events).1
unfolding sync_chunk
sync_chunk-Settled out max_attempts run_id chunk_id n [] events job payload one built some_sent =
    absurd one
sync_chunk-Settled out max_attempts run_id chunk_id n (first ∷ jobs) events job payload one built
      some_sent =
    let p0 : Prepared = record {
      events = events;
      valid_events = [];
      payload_jobs = [];
      failed = 0;
    } in
    let p = prepare_jobs out run_id (out.now n) (first ∷ jobs) p0 in
    let (i, has, is_first) =
      prepare_jobs-covered out run_id (out.now n) (first ∷ jobs) job payload p0 one built in
    send_prepared-Settled out max_attempts chunk_id n p p.payload_jobs job.id
      (key_of out job payload) i some_sent has is_first

-- Once a chunk is sent, no job of it with a valid payload is a candidate for a later run, whatever
-- the attempt limit is then, as long as the job still builds the same payload.
pub sync_chunk-not_candidate :
    (out : Outside) (max_attempts later_max : ℕ) (run_id : Option String) (chunk_id : String)
    (n : ℕ) (jobs : List NormalizedJob) (events : Events) (job : NormalizedJob) (payload : Json)
    → IsOneOf out job jobs
    → out.build job ≡ valid payload
    → 0 < (sync_chunk out max_attempts run_id chunk_id n jobs events).0.sent
    → is_candidate out later_max job (sync_chunk out max_attempts run_id chunk_id n jobs events).1
      ≡ false
unfolding is_candidate
sync_chunk-not_candidate out max_attempts later_max run_id chunk_id n jobs events job payload one
      built some_sent =
    let (i, first, is_sent) =
      sync_chunk-Settled out max_attempts run_id chunk_id n jobs events job payload one built
        some_sent in
    let (event, found, status) =
      find_event_of_first out.stable_payload_hash job backend
        (some (out.stable_payload_hash payload)) i _ first is_sent in
    rw (built, found) (not_retryable event later_max status)
