-- ===== src/Http/RateLimit.antt =====
-- src/shared/http/rate_limit.py. Times and delays are whole microseconds; the source has floats of
-- seconds. The asyncio lock makes each method's part before its `sleep` one step.
pub mod Spacing
pub mod Breaker
pub mod Backoff
pub mod Tests
use bisakerja_scraper.Prelude.{
  ℕ, zero, suc, ◌+◌, ◌-◌, ◌*◌, ◌/◌, ◌%◌, ◌^◌, min, max, String, Option, none, some, Bool, true,
  false, ◌&&◌, ◌||◌, not, ltb, leb, ◌==◌, if◌then◌else◌,
}
use bisakerja_scraper.Prelude.Json.{truthy}

abbrev pub second : ℕ
second = 1000000

abbrev pub is_retriable_status : ℕ → Bool
is_retriable_status code =
    code == 408 || code == 429 || code == 500 || code == 502 || code == 503 || code == 504

pub record SourceRateLimitConfig : Type 0 where
  pub source_platform : String
  pub requests_per_minute : ℕ
  pub initial_backoff_seconds : ℕ
  pub max_backoff_seconds : ℕ
  pub circuit_breaker_failure_threshold : ℕ
  pub circuit_breaker_cooldown_seconds : ℕ

-- The ValueErrors of `__post_init__`, but for the one on a negative delay, which a natural number
-- cannot be.
pub data ConfigError : Type 0 where
  source_platform_empty requests_per_minute_zero max_backoff_below_initial : ConfigError
  failure_threshold_zero cooldown_zero : ConfigError

-- `none` is a configuration that is accepted.
pub post_init : SourceRateLimitConfig → Option ConfigError
post_init c =
    if not (truthy c.source_platform)
    then some source_platform_empty
    else if leb c.requests_per_minute 0
    then some requests_per_minute_zero
    else if ltb c.max_backoff_seconds c.initial_backoff_seconds
    then some max_backoff_below_initial
    else if leb c.circuit_breaker_failure_threshold 0
    then some failure_threshold_zero
    else if leb c.circuit_breaker_cooldown_seconds 0
    then some cooldown_zero
    else none

pub record SourceRateLimiter : Type 0 where
  pub config : SourceRateLimitConfig
  pub open config use *
  pub next_available_at : ℕ
  pub failure_count : ℕ
  pub circuit_open : Bool
  pub circuit_opened_at : Option ℕ

abbrev pub limiter_of : SourceRateLimitConfig → SourceRateLimiter
limiter_of c = record {
  config = c;
  next_available_at = 0;
  failure_count = 0;
  circuit_open = false;
  circuit_opened_at = none;
}

-- `round(x, 3)` of seconds: milliseconds, a tie to the even one.
pub round_to_milliseconds : ℕ → ℕ
round_to_milliseconds t =
    let whole = t / 1000 in
    let rest = t % 1000 in
    if ltb rest 500
    then whole
    else if ltb 500 rest
    then whole + 1
    else if whole % 2 == 0
    then whole
    else whole + 1

-- `wait_before_request` goes on after a sleep, or raises the FetchError of an open circuit, which
-- carries the failure count and the rounded time to wait.
pub data Admission : Type 0 where
  admitted : ℕ → Admission
  rejected : (failure_count retry_after : ℕ) → Admission

abbrev pub cooled_down : SourceRateLimiter → Option ℕ → ℕ → Bool
cooled_down l none now = false
cooled_down l (some opened_at) now = leb l.circuit_breaker_cooldown_seconds (now - opened_at)

abbrev pub time_open : Option ℕ → ℕ → ℕ
time_open none now = 0
time_open (some opened_at) now = now - opened_at

-- `record_success`; entering half-open writes the same three fields.
pub record_success : SourceRateLimiter → SourceRateLimiter
record_success l = record l { failure_count = 0; circuit_open = false; circuit_opened_at = none }

-- The time between two slots, in whole microseconds.
pub interval : SourceRateLimitConfig → ℕ
interval c = 60 * second / c.requests_per_minute

-- The end of `wait_before_request`: the request takes the next free slot.
abbrev pub admit : ℕ → SourceRateLimiter → Admission × SourceRateLimiter
admit now l = (
  admitted (max (l.next_available_at - now) 0),
  record l { next_available_at = max now l.next_available_at + interval l.config },
)

-- The reading of the monotonic clock is `now`.
pub wait_before_request : ℕ → SourceRateLimiter → Admission × SourceRateLimiter
unfolding record_success
wait_before_request now l =
    if l.circuit_open
    then (if cooled_down l l.circuit_opened_at now then admit now (record_success l) else (
      rejected l.failure_count (
          round_to_milliseconds
            (max (l.circuit_breaker_cooldown_seconds - time_open l.circuit_opened_at now) 0)),
      l,
    ))
    else admit now l

pub record_failure : ℕ → SourceRateLimiter → SourceRateLimiter
record_failure now l =
    let count = l.failure_count + 1 in
    if leb l.circuit_breaker_failure_threshold count
    then record l { failure_count = count; circuit_open = true; circuit_opened_at = some now }
    else record l { failure_count = count }

-- The initial backoff is a float, so that `2 ** n` is converted to one: `none` is the OverflowError of
-- `n` from 1024 on.
pub backoff_delay : SourceRateLimiter → ℕ → Option ℕ
backoff_delay l zero = some 0
backoff_delay l (suc n) =
    if leb 1024 n
    then none
    else some (min (l.initial_backoff_seconds * 2 ^ n) l.max_backoff_seconds)

-- `failure_count or self._failure_count`
abbrev pub count_or : Option ℕ → ℕ → ℕ
count_or none own = own
count_or (some zero) own = own
count_or (some (suc n)) own = suc n

-- The time that the coroutine sleeps; `none` is the OverflowError.
pub backoff_after_failure : SourceRateLimiter → Option ℕ → Option ℕ
backoff_after_failure l failure_count = backoff_delay l (count_or failure_count l.failure_count)
