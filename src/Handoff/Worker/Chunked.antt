-- ===== src/Handoff/Worker/Chunked.antt =====
-- What the client gets, and how it is counted.
use bisakerja_scraper.Prelude.{
  ℕ, zero, suc, ◌+◌, ◌≤◌, ◌≡◌, ◌∙◌, refl, sym, ap, String, Option, none, some, true, List, [], ◌∷◌,
  ◌++◌, map, length, length-append, get_elem?, modify, All, All-append_parts, arith, Bool-cases,
  inl, inr,
}
use bisakerja_scraper.Prelude.Json.{Json}
use bisakerja_scraper.Prelude.Chunks.{joined, IsChunk}
use bisakerja_scraper.Handoff.{Handoffs, NotificationHandoffEvent, failed_event}
use bisakerja_scraper.Handoff.Worker.{
  request, post, HandoffReply, success, raised, HandoffWorker, row_is_retryable, retryable_events,
  payload_at, candidates, Handing, record_all, on_reply, hand_chunk, hand_chunks,
}
use mathlib.Core.List.{append_assoc, append-nil}

candidates-append :
    (table : Handoffs) (xs ys : List ℕ)
    → candidates table (xs ++ ys) ≡ candidates table xs ++ candidates table ys
candidates-append table [] ys = refl
candidates-append table (i ∷ xs) ys =
    ap (λ rest. payload_at (get_elem? table i) ++ rest) (candidates-append table xs ys)
    ∙ sym
        (append_assoc (payload_at (get_elem? table i)) (candidates table xs) (candidates table ys))

pub candidates-joined :
    (table : Handoffs) (chunks : List (List ℕ))
    → candidates table (joined chunks) ≡ joined (map (candidates table) chunks)
candidates-joined table [] = refl
candidates-joined table (refs ∷ chunks) =
    candidates-append table refs (joined chunks)
    ∙ ap (λ rest. candidates table refs ++ rest) (candidates-joined table chunks)

-- A change that leaves a row's payload alone.
abbrev KeepsPayload : (NotificationHandoffEvent → NotificationHandoffEvent) → Type 0
KeepsPayload f = (event : NotificationHandoffEvent) → (f event).payload_json ≡ event.payload_json

modify-payload_at :
    (f : NotificationHandoffEvent → NotificationHandoffEvent) (table : Handoffs) (i j : ℕ)
    → KeepsPayload f
    → payload_at (get_elem? (modify table i f) j) ≡ payload_at (get_elem? table j)
modify-payload_at f [] i j keeps = refl
modify-payload_at f (event ∷ table) zero zero keeps = ap (λ payload. payload ∷ []) (keeps event)
modify-payload_at f (event ∷ table) zero (suc j) keeps = refl
modify-payload_at f (event ∷ table) (suc i) zero keeps = refl
modify-payload_at f (event ∷ table) (suc i) (suc j) keeps = modify-payload_at f table i j keeps

record_all-payload_at :
    (f : NotificationHandoffEvent → NotificationHandoffEvent) (refs : List ℕ) (table : Handoffs)
    (j : ℕ)
    → KeepsPayload f
    → payload_at (get_elem? (record_all (λ i table. modify table i f) refs table) j)
      ≡ payload_at (get_elem? table j)
unfolding record_all
record_all-payload_at f [] table j keeps = refl
record_all-payload_at f (i ∷ refs) table j keeps =
    record_all-payload_at f refs (modify table i f) j keeps ∙ modify-payload_at f table i j keeps

on_reply-payload_at :
    (w : HandoffWorker) (refs : List ℕ) (reply : HandoffReply) (st : Handing) (j : ℕ)
    → payload_at (get_elem? (on_reply w refs reply st).table j) ≡ payload_at (get_elem? st.table j)
on_reply-payload_at w refs (success response_summary) st j =
    record_all-payload_at _ refs st.table j (λ event. refl)
on_reply-payload_at w refs (raised class_name message response_summary) st j =
    record_all-payload_at (failed_event _ w.max_attempts (w.replied_at st.chunks_attempted)) refs
      st.table j (λ event. refl)

candidates_same :
    (a b : Handoffs) (refs : List ℕ)
    → ((j : ℕ) → payload_at (get_elem? a j) ≡ payload_at (get_elem? b j))
    → candidates a refs ≡ candidates b refs
candidates_same a b [] same = refl
candidates_same a b (i ∷ refs) same = rw (same i, candidates_same a b refs same) refl

-- The requests for some chunks of a table.
abbrev pub requests_of : (scrape_run_id : String) → Handoffs → List (List ℕ) → List Json
requests_of scrape_run_id table chunks =
    map (λ refs. request scrape_run_id (candidates table refs)) chunks

requests_same :
    (scrape_run_id : String) (a b : Handoffs) (chunks : List (List ℕ))
    → ((j : ℕ) → payload_at (get_elem? a j) ≡ payload_at (get_elem? b j))
    → requests_of scrape_run_id a chunks ≡ requests_of scrape_run_id b chunks
requests_same scrape_run_id a b [] same = refl
requests_same scrape_run_id a b (refs ∷ chunks) same =
    rw (candidates_same a b refs same, requests_same scrape_run_id a b chunks same) refl

-- The loop's variables after some chunks.
abbrev pub Handed : String → List (List ℕ) → Handing → Handing → Type 0
Handed scrape_run_id chunks st after =
    (after.requests ≡ st.requests ++ requests_of scrape_run_id st.table chunks)
    × (after.sent + after.failed ≡ st.sent + st.failed + length (joined chunks))
    × (after.chunks_attempted ≡ st.chunks_attempted + length chunks)
    × (after.chunks_failed + st.chunks_attempted ≤ st.chunks_failed + after.chunks_attempted)

on_reply-counts :
    (w : HandoffWorker) (refs : List ℕ) (reply : HandoffReply) (st : Handing)
    → let after = on_reply w refs reply st in
      (after.requests ≡ st.requests)
      × (after.sent + after.failed ≡ st.sent + st.failed + length refs)
      × (after.chunks_attempted ≡ st.chunks_attempted + 1)
      × (after.chunks_failed ≤ st.chunks_failed + 1)
on_reply-counts w refs (success response_summary) st = (refl, omega arith, omega arith, omega arith)
on_reply-counts w refs (raised class_name message response_summary) st =
    (refl, omega arith, omega arith, omega arith)

pub hand_chunks-Handed :
    (w : HandoffWorker) (scrape_run_id : String) (chunks : List (List ℕ)) (st : Handing)
    → Handed scrape_run_id chunks st (hand_chunks w scrape_run_id chunks st)
unfolding hand_chunks hand_chunk post
hand_chunks-Handed w scrape_run_id [] st =
    (sym (append-nil st.requests), omega arith, omega arith, omega arith)
hand_chunks-Handed w scrape_run_id (refs ∷ chunks) st =
    let payload = request scrape_run_id (candidates st.table refs) in
    let reply = w.send_candidates (st.requests ++ payload ∷ []) in
    let posted = record st { requests = st.requests ++ payload ∷ [] } in
    let next = hand_chunk w scrape_run_id refs st in
    let one = on_reply-counts w refs reply posted in
    let all = hand_chunks-Handed w scrape_run_id chunks next in
    let same =
      requests_same scrape_run_id next.table st.table chunks
        (on_reply-payload_at w refs reply posted) in
    let size = length-append refs (joined chunks) in
    (
      all.0
          ∙ rw (one.0, same)
              (append_assoc st.requests (payload ∷ []) (requests_of scrape_run_id st.table chunks)),
      omega (arith, one.1, all.1, size),
      omega (arith, one.2, all.2),
      omega (arith, one.2, one.3, all.3),
    )

-- The payloads of the rows stay as they are.
pub hand_chunks-candidates :
    (w : HandoffWorker) (scrape_run_id : String) (chunks : List (List ℕ)) (st : Handing)
    → (refs : List ℕ)
    → candidates (hand_chunks w scrape_run_id chunks st).table refs ≡ candidates st.table refs
unfolding hand_chunks hand_chunk post
hand_chunks-candidates w scrape_run_id [] st refs = refl
hand_chunks-candidates w scrape_run_id (chunk ∷ chunks) st refs =
    let payload = request scrape_run_id (candidates st.table chunk) in
    let reply = w.send_candidates (st.requests ++ payload ∷ []) in
    let posted = record st { requests = st.requests ++ payload ∷ [] } in
    let next = hand_chunk w scrape_run_id chunk st in
    hand_chunks-candidates w scrape_run_id chunks next refs
    ∙ candidates_same next.table st.table refs (on_reply-payload_at w chunk reply posted)

-- A reference to a row that is handed on.
abbrev pub Retryable : (max_attempts : ℕ) → Handoffs → ℕ → Type 0
Retryable max_attempts table i = row_is_retryable max_attempts (get_elem? table i) ≡ true

pub retryable_events-Retryable :
    (max_attempts : ℕ) (table : Handoffs) (refs : List ℕ)
    → All (Retryable max_attempts table) (retryable_events max_attempts table refs)
unfolding retryable_events
retryable_events-Retryable max_attempts table [] = tt
retryable_events-Retryable max_attempts table (i ∷ refs) =
    let rest = retryable_events-Retryable max_attempts table refs in
    elim (Bool-cases (row_is_retryable max_attempts (get_elem? table i))) [
      | inl retryable ↦ rw retryable (retryable, rest)
      | inr done ↦ rw done rest
    ]

payload_at-length :
    (max_attempts : ℕ) (row : Option NotificationHandoffEvent)
    → row_is_retryable max_attempts row ≡ true
    → length (payload_at row) ≡ 1
payload_at-length max_attempts none h = absurd (cc)
payload_at-length max_attempts (some event) h = refl

pub candidates-length :
    (max_attempts : ℕ) (table : Handoffs) (refs : List ℕ)
    → All (Retryable max_attempts table) refs
    → length (candidates table refs) ≡ length refs
candidates-length max_attempts table [] h = refl
candidates-length max_attempts table (i ∷ refs) h =
    let one = payload_at-length max_attempts (get_elem? table i) h.0 in
    let rest = candidates-length max_attempts table refs h.1 in
    omega (arith, one, rest, length-append (payload_at (get_elem? table i)) (candidates table refs))

pub requests-IsChunk :
    (max_attempts size : ℕ) (table : Handoffs) (chunks : List (List ℕ))
    → All (Retryable max_attempts table) (joined chunks)
    → All (IsChunk size) chunks
    → All (IsChunk size) (map (candidates table) chunks)
requests-IsChunk max_attempts size table [] h k = tt
requests-IsChunk max_attempts size table (refs ∷ chunks) h k =
    let (left, right) = All-append_parts (Retryable max_attempts table) refs (joined chunks) h in
    let same = candidates-length max_attempts table refs left in
    (
      (omega (arith, same, k.0), omega (arith, same, k.0)),
      requests-IsChunk max_attempts size table chunks right k.1,
    )
