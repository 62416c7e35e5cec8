-- ===== src/Http/Client.antt =====
-- src/shared/http/client.py: one request with its errors, and the retry loop around it. What the
-- network answers, and the clock's readings, are given for each attempt; JSON and UTF-8 decoding
-- are parameters.
pub mod Retry
pub mod Body
pub mod Starvation
mod Tests
use mathlib.Core.Option
use bisakerja_scraper.Prelude.{
  ℕ, zero, suc, ◌+◌, Option, none, some, Bool, true, false, ◌||◌, not, List, [], ◌∷◌, ◌++◌, ltb,
  ◌==◌, if◌then◌else◌, length, take, String,
}
use bisakerja_scraper.Prelude.Json.{Json, Fields}
use bisakerja_scraper.Prelude.Text.{codes, occurs_in}
use bisakerja_scraper.Http.RateLimit.{
  SourceRateLimiter, Admission, admitted, rejected, is_retriable_status, wait_before_request,
  record_success, record_failure, backoff_after_failure,
}

-- The fields of `HttpClientConfig` that a request reads.
pub record HttpClientConfig : Type 0 where
  pub max_retries : ℕ
  pub max_response_bytes : ℕ
  pub retry_backoff_seconds : ℕ

abbrev pub Bytes : Type 0
Bytes = List ℕ

-- What `self._client.stream` does: it raises one of httpx's errors, by its class name, or answers
-- with a status, httpx's `is_error` for it, and the chunks of the body. The errors of httpx that
-- are neither timeouts nor transport errors, which the client lets through, have no case.
pub data Answer : Type 0 where
  timeout : String → Answer
  transport_error : String → Answer
  response : (status_code : ℕ) (is_error : Bool) (chunks : List Bytes) → Answer

-- One attempt: the clock when it asks the rate limiter, what the network answers, and the clock
-- when its failure is recorded. The readings are any numbers: they are not tied to the sleeps.
pub record Exchange : Type 0 where
  pub asked_at : ℕ
  pub answer : Answer
  pub failed_at : ℕ

-- `json.loads` returns a value, raises JSONDecodeError, or UnicodeDecodeError on bytes that are no
-- text.
pub data Loaded : Type 0 where
  document : Json → Loaded
  json_decode_error : String → Loaded
  unicode_decode_error : Loaded

-- The decoders of the standard library: `json.loads`, `bytes.decode("utf-8")` with `none` for a
-- UnicodeDecodeError, and `decode("utf-8", errors="ignore").lower()`.
pub record Decoders : Type 0 where
  pub loads : Bytes → Loaded
  pub decode : Bytes → Option String
  pub preview : Bytes → List ℕ

pub data FetchFailure : Type 0 where
  timed_out transport_failed invalid_json : String → FetchFailure
  error_status : (status_code : ℕ) (cloudflare_challenge : Bool) → FetchFailure
  size_limit : ℕ → FetchFailure
  circuit_breaker_open : (failure_count retry_after : ℕ) → FetchFailure
  root_not_object not_executed : FetchFailure

pub record FetchError : Type 0 where
  pub failure : FetchFailure
  pub retryable : Bool

-- How a call ends: with a value, with a FetchError, with a UnicodeDecodeError, or with the
-- OverflowError of a backoff.
pub data Outcome {ℓ} (A : Type ℓ) : Type ℓ where
  value : A → Outcome A
  fetch_error : FetchError → Outcome A
  decode_error overflow_error : Outcome A

-- The client's rate limiter, the number of requests sent, and the sleeps, the latest first.
pub record Session : Type 0 where
  pub limiter : Option SourceRateLimiter
  pub sent : ℕ
  pub slept : List ℕ

-- The loop of `_read_bounded`; `none` is the size limit's FetchError.
pub read_bounded : ℕ → ℕ → Bytes → List Bytes → Option Bytes
read_bounded limit total body [] = some body
read_bounded limit total body (chunk ∷ chunks) =
    let rest = read_bounded limit (total + length chunk) (body ++ chunk) chunks in
    if ltb limit (total + length chunk) then none else rest

abbrev pub is_challenge : List ℕ → Bool
is_challenge text =
    occurs_in (codes "cf_chl_opt") text
    || occurs_in (codes "challenge-platform") text
    || occurs_in (codes "just a moment") text
    || occurs_in (codes "cloudflare") text

abbrev pub status_error : Decoders → ℕ → Bytes → FetchError
status_error d status body = record {
  failure =
      error_status status
        (if status == 403 then is_challenge (d.preview (take 4096 body)) else false);
  retryable = is_retriable_status status;
}

abbrev pub answered : Decoders → ℕ → Bool → Option Bytes → ℕ → Outcome Bytes
answered d status is_error none limit =
    fetch_error (record { failure = size_limit limit; retryable = false })
answered d status true (some body) limit = fetch_error (status_error d status body)
answered d status false (some body) limit = value body

pub receive : HttpClientConfig → Decoders → Answer → Outcome Bytes
receive c d (timeout name) = fetch_error (record { failure = timed_out name; retryable = true })
receive c d (transport_error name) =
    fetch_error (record { failure = transport_failed name; retryable = true })
receive c d (response status is_error chunks) =
    answered d status is_error (read_bounded c.max_response_bytes 0 [] chunks) c.max_response_bytes

abbrev pub note_sleep : ℕ → List ℕ → List ℕ
note_sleep zero slept = slept
note_sleep (suc t) slept = suc t ∷ slept

-- The rate limiter hears of a body that was received.
abbrev pub heard : Outcome Bytes → Option SourceRateLimiter → Option SourceRateLimiter
heard (value body) (some l) = some (record_success l)
heard _ limiter = limiter

abbrev pub send :
    HttpClientConfig
    → Decoders
    → Answer
    → Option SourceRateLimiter
    → Session
    → Outcome Bytes × Session
send c d answer limiter s =
    let outcome = receive c d answer in
    (outcome, record s { limiter = heard outcome limiter; sent = s.sent + 1 })

abbrev pub send_admitted :
    HttpClientConfig
    → Decoders
    → Answer
    → Admission × SourceRateLimiter
    → Session
    → Outcome Bytes × Session
send_admitted c d answer (admitted wait, l) s =
    send c d answer (some l) (record s { slept = note_sleep wait s.slept })
send_admitted c d answer (rejected count retry_after, l) s = (
  fetch_error (record { failure = circuit_breaker_open count retry_after; retryable = true }),
  record s { limiter = some l },
)

abbrev pub ask_limiter :
    Option SourceRateLimiter
    → HttpClientConfig
    → Decoders
    → Exchange
    → Session
    → Outcome Bytes × Session
ask_limiter none c d x s = send c d x.answer none s
ask_limiter (some l) c d x s = send_admitted c d x.answer (wait_before_request x.asked_at l) s

pub request_bytes_once : HttpClientConfig → Decoders → Exchange → Session → Outcome Bytes × Session
request_bytes_once c d x s = ask_limiter s.limiter c d x s

abbrev pub as_object : Loaded → Outcome Fields
as_object (document (Json.obj fields)) = value fields
as_object (document _) = fetch_error (record { failure = root_not_object; retryable = false })
as_object (json_decode_error name) =
    fetch_error (record { failure = invalid_json name; retryable = false })
as_object unicode_decode_error = decode_error

abbrev pub as_text : Option String → Outcome String
as_text none = decode_error
as_text (some text) = value text

abbrev pub and_then {ℓ} : {A : Type ℓ} → (Bytes → Outcome A) → Outcome Bytes → Outcome A
and_then f (value body) = f body
and_then f (fetch_error e) = fetch_error e
and_then f decode_error = decode_error
and_then f overflow_error = overflow_error

pub request_json_once : HttpClientConfig → Decoders → Exchange → Session → Outcome Fields × Session
request_json_once c d x s =
    let (outcome, s') = request_bytes_once c d x s in
    (and_then (λ body. as_object (d.loads body)) outcome, s')

pub request_text_once : HttpClientConfig → Decoders → Exchange → Session → Outcome String × Session
request_text_once c d x s =
    let (outcome, s') = request_bytes_once c d x s in
    (and_then (λ body. as_text (d.decode body)) outcome, s')

abbrev pub failed_limiter : Bool → ℕ → Option SourceRateLimiter → Option SourceRateLimiter
failed_limiter true now (some l) = some (record_failure now l)
failed_limiter _ now limiter = limiter

pub record_request_error : FetchError → ℕ → Session → Session
record_request_error e now s = record s { limiter = failed_limiter e.retryable now s.limiter }

abbrev pub failure_delay : HttpClientConfig → Option SourceRateLimiter → Option ℕ
failure_delay c (some l) = backoff_after_failure l none
failure_delay c none = some c.retry_backoff_seconds

-- `none` when the delay overflows.
pub backoff : HttpClientConfig → Session → Option Session
backoff c s =
    Option.map (λ delay. record s { slept = note_sleep delay s.slept }) (failure_delay c s.limiter)

-- The OverflowError of a backoff is not caught.
abbrev pub resume :
    {A : Type 0}
    → (Session → Outcome A × Session)
    → (recorded : Session) → Option Session
    → Outcome A × Session
resume again recorded none = (overflow_error, recorded)
resume again recorded (some next) = again next

-- The end of an iteration of the `for` loop, with the attempts left: the value is returned, a final
-- error is raised, and otherwise the client backs off and goes on with `again`.
abbrev pub after_attempt :
    {A : Type 0}
    → HttpClientConfig
    → (left failed_at : ℕ) → (Session → Outcome A × Session)
    → Outcome A × Session
    → Outcome A × Session
after_attempt c left failed_at again (value a, s) = (value a, s)
after_attempt c left failed_at again (decode_error, s) = (decode_error, s)
after_attempt c left failed_at again (overflow_error, s) = (overflow_error, s)
after_attempt c left failed_at again (fetch_error e, s) =
    let recorded = record_request_error e failed_at s in
    let rest = resume again recorded (backoff c recorded) in
    if not e.retryable || left == 0 then (fetch_error e, recorded) else rest

module _ {A : Type 0} (once : Exchange → Session → Outcome A × Session) (c : HttpClientConfig)
    (world : ℕ → Exchange) where
  -- The `for` loop of `request_json` and `request_text` from one attempt on, with the attempts that
  -- are left. With none left the loop is over: the code raises "request failed before execution".
  pub attempts_from : (left attempt : ℕ) → Session → Outcome A × Session
  attempts_from zero attempt s =
      (fetch_error (record { failure = not_executed; retryable = true }), s)
  attempts_from (suc left) attempt s =
      after_attempt c left (world attempt).failed_at (attempts_from left (suc attempt))
        (once (world attempt) s)

pub request_json : HttpClientConfig → Decoders → (ℕ → Exchange) → Session → Outcome Fields × Session
request_json c d world s = attempts_from (request_json_once c d) c world (c.max_retries + 1) 1 s

pub request_text : HttpClientConfig → Decoders → (ℕ → Exchange) → Session → Outcome String × Session
request_text c d world s = attempts_from (request_text_once c d) c world (c.max_retries + 1) 1 s
