-- ===== src/Handoff/Worker/Sent.antt =====
-- What the client gets of the prepared rows, read back from its payloads.
use bisakerja_scraper.Prelude.{
  ℕ, suc, ◌+◌, ◌≤◌, ◌≡◌, ◌∙◌, refl, sym, ap, String, Option, none, some, Bool, true, false, List,
  [], ◌∷◌, ◌++◌, map, leb, if◌then◌else◌, length, get_elem?, All, arith, Bool-cases, inl, inr,
}
use bisakerja_scraper.Prelude.Json.{Json, Items}
use bisakerja_scraper.Prelude.Chunks.{chunked, joined, IsChunk, chunked-joined, chunked-IsChunk}
use bisakerja_scraper.Handoff.{
  pending, sent, failed, dead_letter, field_of, Handoffs, NotificationHandoffEvent,
  is_retryable_handoff,
}
use bisakerja_scraper.Handoff.Worker.{
  HandoffWorker, row_is_retryable, retryable_events, payload_at, candidates, items_of, request,
  Handing, HandoffWorkerResult, starting, hand_on,
}
use bisakerja_scraper.Handoff.Worker.Chunked.{
  retryable_events-Retryable, candidates-joined, candidates-length, requests-IsChunk, requests_of,
  hand_chunks-Handed,
}

abbrev items_in : Items → List Json
items_in Items.nil = []
items_in (Items.cons x xs) = x ∷ items_in xs

abbrev array_items : Option Json → List Json
array_items (some (Json.arr xs)) = items_in xs
array_items _ = []

-- The candidates that a payload carries.
abbrev pub sent_candidates : Json → List Json
sent_candidates payload = array_items (field_of "candidates" payload)

-- The payload is of the run.
abbrev pub IsOfRun : (scrape_run_id : String) → Json → Type 0
IsOfRun scrape_run_id payload = field_of "runId" payload ≡ some (Json.str scrape_run_id)

-- A row that is pending, or failed with attempts left.
abbrev is_unsettled : (max_attempts : ℕ) → NotificationHandoffEvent → Bool
is_unsettled max_attempts event = elim event.status [
  | pending ↦ true
  | failed ↦ leb (event.attempt_count + 1) max_attempts
  | sent ↦ false
  | dead_letter ↦ false
]

abbrev unsettled_payload : (max_attempts : ℕ) → Option NotificationHandoffEvent → List Json
unsettled_payload max_attempts none = []
unsettled_payload max_attempts (some event) =
    if is_unsettled max_attempts event then event.payload_json ∷ [] else []

-- The payloads of the referenced rows that are unsettled, in order.
abbrev pub unsettled_payloads : (max_attempts : ℕ) → Handoffs → List ℕ → List Json
unsettled_payloads max_attempts table [] = []
unsettled_payloads max_attempts table (i ∷ refs) =
    unsettled_payload max_attempts (get_elem? table i) ++ unsettled_payloads max_attempts table refs

abbrev row_payload : Option NotificationHandoffEvent → List Json
row_payload none = []
row_payload (some event) = event.payload_json ∷ []

-- The payloads of the referenced rows, in order.
abbrev pub row_payloads : Handoffs → List ℕ → List Json
row_payloads table [] = []
row_payloads table (i ∷ refs) = row_payload (get_elem? table i) ++ row_payloads table refs

row_payload_at : (row : Option NotificationHandoffEvent) → payload_at row ≡ row_payload row
row_payload_at none = refl
row_payload_at (some event) = refl

pub candidates-row_payloads :
    (table : Handoffs) (refs : List ℕ) → candidates table refs ≡ row_payloads table refs
candidates-row_payloads table [] = refl
candidates-row_payloads table (i ∷ refs) =
    rw (row_payload_at (get_elem? table i), candidates-row_payloads table refs) refl

is_retryable-is_unsettled :
    (max_attempts : ℕ) (event : NotificationHandoffEvent)
    → is_retryable_handoff max_attempts event ≡ is_unsettled max_attempts event
is_retryable-is_unsettled max_attempts event = ground arith

unsettled_payload_at :
    (max_attempts : ℕ) (row : Option NotificationHandoffEvent)
    → unsettled_payload max_attempts row
      ≡ (if row_is_retryable max_attempts row then payload_at row else [])
unsettled_payload_at max_attempts none = refl
unsettled_payload_at max_attempts (some event) =
    rw (is_retryable-is_unsettled max_attempts event) refl

candidates-unsettled :
    (max_attempts : ℕ) (table : Handoffs) (refs : List ℕ)
    → candidates table (retryable_events max_attempts table refs)
      ≡ unsettled_payloads max_attempts table refs
unfolding retryable_events
candidates-unsettled max_attempts table [] = refl
candidates-unsettled max_attempts table (i ∷ refs) =
    let rest = candidates-unsettled max_attempts table refs in
    let one = unsettled_payload_at max_attempts (get_elem? table i) in
    elim (Bool-cases (row_is_retryable max_attempts (get_elem? table i))) [
      | inl retryable ↦ rw (one, retryable, rest) refl
      | inr done ↦ rw (one, done) rest
    ]

items_in-items_of : (xs : List Json) → items_in (items_of xs) ≡ xs
items_in-items_of [] = refl
items_in-items_of (x ∷ xs) = ap (λ rest. x ∷ rest) (items_in-items_of xs)

sent_candidates-request :
    (scrape_run_id : String) (payloads : List Json)
    → sent_candidates (request scrape_run_id payloads) ≡ payloads
sent_candidates-request scrape_run_id payloads = items_in-items_of payloads

pub sent_candidates-requests_of :
    (scrape_run_id : String) (table : Handoffs) (chunks : List (List ℕ))
    → map sent_candidates (requests_of scrape_run_id table chunks) ≡ map (candidates table) chunks
sent_candidates-requests_of scrape_run_id table [] = refl
sent_candidates-requests_of scrape_run_id table (refs ∷ chunks) =
    rw
      (
        sent_candidates-request scrape_run_id (candidates table refs),
        sent_candidates-requests_of scrape_run_id table chunks,
      )
      refl

requests_of-IsOfRun :
    (scrape_run_id : String) (table : Handoffs) (chunks : List (List ℕ))
    → All (IsOfRun scrape_run_id) (requests_of scrape_run_id table chunks)
requests_of-IsOfRun scrape_run_id table [] = tt
requests_of-IsOfRun scrape_run_id table (refs ∷ chunks) =
    (refl, requests_of-IsOfRun scrape_run_id table chunks)

requests_of-length :
    (scrape_run_id : String) (table : Handoffs) (chunks : List (List ℕ))
    → length (requests_of scrape_run_id table chunks) ≡ length chunks
requests_of-length scrape_run_id table [] = refl
requests_of-length scrape_run_id table (refs ∷ chunks) =
    ap suc (requests_of-length scrape_run_id table chunks)

-- What a run hands on of the prepared rows: each that is unsettled, in order, in requests of the run that
-- are neither empty nor larger than a batch; and how it counts them.
abbrev pub IsHandedOn :
    HandoffWorker
    → (scrape_run_id : String) → List ℕ × Handoffs
    → HandoffWorkerResult × Handing
    → Type 0
IsHandedOn w scrape_run_id (refs, prepared) (result, st) =
    let sent_lists = map sent_candidates st.requests in
    (joined sent_lists ≡ unsettled_payloads w.max_attempts prepared refs)
    × All (IsOfRun scrape_run_id) st.requests
    × All (IsChunk w.batch_size) sent_lists
    × (result.attempted ≡ length (joined sent_lists))
    × (result.sent + result.failed ≡ result.attempted)
    × (result.chunks_attempted ≡ length st.requests)
    × (result.chunks_failed ≤ result.chunks_attempted)

pub hand_on-IsHandedOn :
    (w : HandoffWorker) (scrape_run_id : String) (refs : List ℕ) (prepared : Handoffs)
    → 1 ≤ w.batch_size
    → IsHandedOn w scrape_run_id (refs, prepared) (hand_on w scrape_run_id (refs, prepared))
unfolding hand_on
hand_on-IsHandedOn w scrape_run_id refs prepared positive =
    let retryable = retryable_events w.max_attempts prepared refs in
    let chunks = chunked w.batch_size retryable in
    let whole = chunked-joined w.batch_size positive retryable in
    let all = hand_chunks-Handed w scrape_run_id chunks (starting prepared) in
    let fits = retryable_events-Retryable w.max_attempts prepared refs in
    let sizes = candidates-length w.max_attempts prepared retryable fits in
    let parts = sym (candidates-joined prepared chunks) ∙ ap (candidates prepared) whole in
    let number = requests_of-length scrape_run_id prepared chunks in
    let lists = sent_candidates-requests_of scrape_run_id prepared chunks in
    rw (all.0, lists, parts)
      (
        candidates-unsettled w.max_attempts prepared refs,
        requests_of-IsOfRun scrape_run_id prepared chunks,
        requests-IsChunk w.max_attempts w.batch_size prepared chunks (rw whole fits)
            (chunked-IsChunk w.batch_size positive retryable),
        sym sizes,
        omega (arith, rw whole at all.1),
        omega (arith, all.2, number),
        omega (arith, all.3),
      )
