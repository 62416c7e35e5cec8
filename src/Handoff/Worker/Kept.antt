-- ===== src/Handoff/Worker/Kept.antt =====
-- What was handed on stays as it is.
use bisakerja_scraper.Prelude.{
  ℕ, ◌≡◌, ◌≢◌, ◌≤◌, refl, sym, ap, ◌∙◌, inl, inr, String, Option, none, some, false, List, [], ◌∷◌,
  get_elem?, get_elem?-modify_other, modify, All, All-append_parts, Option-cases,
}
use bisakerja_scraper.Prelude.Chunks.{chunked, joined, chunked-joined}
use bisakerja_scraper.Prelude.Upsert.{upsert_where-table, upserted-get}
use bisakerja_scraper.Models.{NormalizedJob}
use bisakerja_scraper.Sync.Events.{backend}
use bisakerja_scraper.Handoff.{
  Handoffs, sent, NotificationHandoffEvent, SyncedEvent, Encoding, is_event_of, handoff_row,
  changed_handoff, list_synced_jobs_for_run, prepare_event, prepare_checked,
}
use bisakerja_scraper.Handoff.Worker.{
  HandoffReply, success, raised, HandoffWorker, prepare_all, row_is_retryable, retryable_events,
  Handing, record_all, on_reply, hand_chunk, hand_chunks, HandoffWorkerResult, starting, hand_on,
  handoff_synced_jobs, default_handoff_target,
}
use bisakerja_scraper.Prelude.{map, subst}
use bisakerja_scraper.Handoff.Worker.{post, request, candidates}
use bisakerja_scraper.Handoff.Worker.Sent.{
  sent_candidates, sent_candidates-requests_of, row_payloads, candidates-row_payloads,
}
use bisakerja_scraper.Handoff.Worker.Chunked.{
  hand_chunks-Handed, hand_chunks-candidates, candidates-joined, Retryable,
  retryable_events-Retryable,
}

-- The row still says what came of the event, although it may lead to another sync event.
abbrev pub IsKept : ℕ → NotificationHandoffEvent → Handoffs → Type 0
IsKept i event table =
    (row : NotificationHandoffEvent) × (get_elem? table i ≡ some row)
    × (row.status ≡ event.status)
    × (row.attempt_count ≡ event.attempt_count)
    × (row.completed_at ≡ event.completed_at)
    × (row.response_summary ≡ event.response_summary)

-- The row is kept by what returns.
abbrev KeptIn : {A : Type 0} → ℕ → NotificationHandoffEvent → Option (A × Handoffs) → Type 0
KeptIn i event none = Unit
KeptIn i event (some prepared) = IsKept i event prepared.1

prepare_checked-KeptIn :
    (c : Encoding) (target : String) (now : ℕ) (sync_event : SyncedEvent) (run : Option String)
    → (job : Option NormalizedJob) (table : Handoffs) (i : ℕ) (event : NotificationHandoffEvent)
    → IsKept i event table
    → KeptIn i event (prepare_checked c target now sync_event run job table)
prepare_checked-KeptIn c target now sync_event none job table i event kept = tt
prepare_checked-KeptIn c target now sync_event (some run) none table i event kept = tt
prepare_checked-KeptIn c target now sync_event (some run) (some job) table i event kept =
    let source = sync_event.event in
    let is = is_event_of run source.source_platform source.external_id target in
    let new = handoff_row c run target now sync_event job in
    let change = changed_handoff c now sync_event job in
    let (row, e, status, attempts, completed, response) = kept in
    rw (upsert_where-table is new change table) (elim (upserted-get is new change table i row e) [
      | inl same ↦ (row, same, status, attempts, completed, response)
      | inr changed ↦ (change row, changed, status, attempts, completed, response)
    ])

prepare_all-KeptIn :
    (w : HandoffWorker) (rows : List SyncedEvent) (table : Handoffs) (i : ℕ)
    → (event : NotificationHandoffEvent) → IsKept i event table
    → KeptIn i event (prepare_all w rows table)
unfolding prepare_all prepare_event
prepare_all-KeptIn w [] table i event kept = kept
prepare_all-KeptIn w (sync_event ∷ rows) table i event kept =
    let one =
      prepare_checked-KeptIn w.encoding default_handoff_target w.prepared_at sync_event
        sync_event.event.scrape_run_id sync_event.normalized_job table i event kept in
    elim (Option-cases
      (prepare_event w.encoding default_handoff_target w.prepared_at sync_event table)) [
        | inl missing ↦ rw missing tt
        | inr (first, found) ↦
            let rest = prepare_all-KeptIn w rows first.1 i event (rw found at one) in
            elim (Option-cases (prepare_all w rows first.1)) [
              | inl missing ↦ rw (found, missing) tt
              | inr (all, others) ↦ rw (found, others) (rw others at rest)
            ]
      ]

record_all-other :
    (f : NotificationHandoffEvent → NotificationHandoffEvent) (refs : List ℕ) (table : Handoffs)
    (i : ℕ)
    → All (λ j. j ≢ i) refs
    → get_elem? (record_all (λ j table. modify table j f) refs table) i ≡ get_elem? table i
unfolding record_all
record_all-other f [] table i others = refl
record_all-other f (j ∷ refs) table i others =
    record_all-other f refs (modify table j f) i others.1
    ∙ get_elem?-modify_other table j i f others.0

on_reply-other :
    (w : HandoffWorker) (refs : List ℕ) (reply : HandoffReply) (st : Handing) (i : ℕ)
    → All (λ j. j ≢ i) refs
    → get_elem? (on_reply w refs reply st).table i ≡ get_elem? st.table i
on_reply-other w refs (success response_summary) st i others =
    record_all-other _ refs st.table i others
on_reply-other w refs (raised class_name message response_summary) st i others =
    record_all-other _ refs st.table i others

hand_chunks-other :
    (w : HandoffWorker) (scrape_run_id : String) (chunks : List (List ℕ)) (st : Handing) (i : ℕ)
    → All (λ j. j ≢ i) (joined chunks)
    → get_elem? (hand_chunks w scrape_run_id chunks st).table i ≡ get_elem? st.table i
unfolding hand_chunks hand_chunk post
hand_chunks-other w scrape_run_id [] st i others = refl
hand_chunks-other w scrape_run_id (refs ∷ chunks) st i others =
    let (left, right) = All-append_parts (λ j. j ≢ i) refs (joined chunks) others in
    hand_chunks-other w scrape_run_id chunks (hand_chunk w scrape_run_id refs st) i right
    ∙ (let sent = post w (request scrape_run_id (candidates st.table refs)) st in
        on_reply-other w refs sent.0 sent.1 i left)

not_retryable :
    (max_attempts : ℕ) (table : Handoffs) (i : ℕ) (event : NotificationHandoffEvent)
    → IsKept i event table
    → event.status ≡ sent
    → row_is_retryable max_attempts (get_elem? table i) ≡ false
not_retryable max_attempts table i event (row, e, status, attempts, completed, response) h =
    let now_sent = status ∙ h in rw (e, now_sent) refl

Retryable-others :
    (max_attempts : ℕ) (table : Handoffs) (refs : List ℕ) (i : ℕ)
    → row_is_retryable max_attempts (get_elem? table i) ≡ false
    → All (Retryable max_attempts table) refs
    → All (λ j. j ≢ i) refs
Retryable-others max_attempts table [] i h k = tt
Retryable-others max_attempts table (j ∷ refs) i h k = (
  λ same. let e = ap (λ n. row_is_retryable max_attempts (get_elem? table n)) same in absurd (cc),
  Retryable-others max_attempts table refs i h k.1,
)

-- The candidates that the client got are the payloads of other rows.
abbrev pub IsSpared : ℕ → Handing → Type 0
IsSpared i st =
    (refs : List ℕ) × All (λ j. j ≢ i) refs
    × (joined (map sent_candidates st.requests) ≡ row_payloads st.table refs)

hand_chunks-IsSpared :
    (w : HandoffWorker) (scrape_run_id : String) (chunks : List (List ℕ)) (refs : List ℕ)
    → (prepared : Handoffs) (i : ℕ) → joined chunks ≡ refs
    → All (λ j. j ≢ i) refs
    → IsSpared i (hand_chunks w scrape_run_id chunks (starting prepared))
hand_chunks-IsSpared w scrape_run_id chunks refs prepared i whole others =
    let st = hand_chunks w scrape_run_id chunks (starting prepared) in
    let all = hand_chunks-Handed w scrape_run_id chunks (starting prepared) in
    (
      refs,
      others,
      ap (λ requests. joined (map sent_candidates requests)) all.0
          ∙ ap joined (sent_candidates-requests_of scrape_run_id prepared chunks)
          ∙ sym (candidates-joined prepared chunks)
          ∙ ap (candidates prepared) whole
          ∙ sym (hand_chunks-candidates w scrape_run_id chunks (starting prepared) refs)
          ∙ candidates-row_payloads st.table refs,
    )

-- The worker's variables at the end of what returns.
abbrev state_of : Handing → Option (HandoffWorkerResult × Handing) → Handing
state_of st none = st
state_of st (some (result, ended)) = ended

-- An event that was handed on successfully is never handed on again: whatever sync events a later run
-- prepares, whatever the attempt limit is and whatever the client replies, in each run that returns the
-- candidates that the client gets are the payloads of rows other than the event's; and the event's row
-- is still sent, with the attempts, the completion time and the response that it had.
pub handoff_synced_jobs-IsKept :
    (w : HandoffWorker) (scrape_run_id : String) (rows : List SyncedEvent) (table : Handoffs)
    (i : ℕ)
    → (event : NotificationHandoffEvent) (result : HandoffWorkerResult) (st : Handing)
    → 1 ≤ w.batch_size
    → get_elem? table i ≡ some event
    → event.status ≡ sent
    → handoff_synced_jobs w scrape_run_id rows table ≡ some (result, st)
    → IsKept i event st.table × IsSpared i st
unfolding handoff_synced_jobs hand_on
handoff_synced_jobs-IsKept w scrape_run_id rows table i event result st positive e h returns =
    let listed = list_synced_jobs_for_run w.text_before scrape_run_id backend rows in
    let kept = prepare_all-KeptIn w listed table i event (event, e, refl, refl, refl, refl) in
    elim (Option-cases (prepare_all w listed table)) [
      | inl missing ↦ let stopped = rw missing at returns in absurd (cc)
      | inr ((refs, prepared), found) ↦
          let retryable = retryable_events w.max_attempts prepared refs in
          let chunks = chunked w.batch_size retryable in
          let stays = rw found at kept in
          let others =
            Retryable-others w.max_attempts prepared retryable i
              (not_retryable w.max_attempts prepared i event stays h)
              (retryable_events-Retryable w.max_attempts prepared refs) in
          let whole = chunked-joined w.batch_size positive retryable in
          let unread =
            hand_chunks-other w scrape_run_id chunks (starting prepared) i (rw whole others) in
          let ends = rw found at returns in
          let spared =
            hand_chunks-IsSpared w scrape_run_id chunks retryable prepared i whole others in
          subst (λ st. IsKept i event st.table × IsSpared i st) (ap (state_of st) ends)
            ((stays.0, unread ∙ stays.1, stays.2, stays.3, stays.4, stays.5), spared)
    ]
