-- ===== src/Http/Client/Starvation.antt =====
-- An open circuit breaker and a caller that keeps asking: `wait_before_request` raises a retryable
-- FetchError, and the retry loop records that error as one more failure, which starts the cooldown
-- anew.
use bisakerja_scraper.Prelude.{
  ℕ, ◌+◌, ◌-◌, ◌≤◌, ◌<◌, ◌≡◌, refl, some, true, List, [], ◌∷◌, arith, ap, ◌∙◌, sym, subst,
}
use bisakerja_scraper.Http.RateLimit.{SourceRateLimiter}
use bisakerja_scraper.Http.Client.{
  HttpClientConfig, Decoders, Exchange, Session, Outcome, fetch_error, FetchError,
  circuit_breaker_open, request_bytes_once, request_json_once, record_request_error, attempts_from,
  request_json,
}
use bisakerja_scraper.Http.RateLimit.Breaker.{wait-rejected, record_failure-opens, retry_after}

-- The client's limiter has its circuit open since `t`, after failures that reach the threshold.
pub record IsBlocked (cooldown t : ℕ) (s : Session) : Type 0 where
  pub limiter : SourceRateLimiter
  pub has_limiter : s.limiter ≡ some limiter
  pub is_open : limiter.circuit_open ≡ true
  pub opened_at : limiter.circuit_opened_at ≡ some t
  pub over_threshold : limiter.circuit_breaker_failure_threshold ≤ limiter.failure_count
  pub cools_for : limiter.circuit_breaker_cooldown_seconds ≡ cooldown

-- The outcome is the error of an open circuit.
abbrev pub IsBreakerOpen {ℓ} : {A : Type ℓ} → Outcome A → Type 0
IsBreakerOpen (fetch_error e) =
    (e.retryable ≡ true) × ((n : ℕ) × (r : ℕ) × (e.failure ≡ circuit_breaker_open n r))
IsBreakerOpen _ = ⊥

-- A failure that is recorded while the circuit is open opens it again at the failure's time.
record_failure-IsBlocked :
    (cooldown t now : ℕ) (s : Session) (e : FetchError)
    → e.retryable ≡ true
    → IsBlocked cooldown t s
    → IsBlocked cooldown now (record_request_error e now s)
unfolding record_request_error
record_failure-IsBlocked cooldown t now s e retry b = record {
  limiter = record b.limiter {
    failure_count = b.limiter.failure_count + 1;
    circuit_open = true;
    circuit_opened_at = some now;
  };
  has_limiter =
      rw (retry, b.has_limiter)
        (ap some (record_failure-opens now b.limiter (omega (arith, b.over_threshold))));
  is_open = refl;
  opened_at = refl;
  over_threshold = omega (arith, b.over_threshold);
  cools_for = b.cools_for;
}

sent-record_request_error :
    (e : FetchError) (now : ℕ) (s : Session) → (record_request_error e now s).sent ≡ s.sent
unfolding record_request_error
sent-record_request_error e now s = refl

abbrev breaker_error :
    {cooldown : ℕ} (t : ℕ) (x : Exchange) (s : Session) → IsBlocked cooldown t s → FetchError
breaker_error t x s b = record {
  failure =
      circuit_breaker_open b.limiter.failure_count
        (retry_after x.asked_at t b.limiter b.is_open b.opened_at);
  retryable = true;
}

-- A call that ended with the error of an open circuit, sent nothing, and left the circuit open
-- since `t`.
pub record Starves {A : Type 0} (cooldown t : ℕ) (s : Session) (result : Outcome A × Session)
    : Type 0 where
  pub breaker : IsBreakerOpen result.0
  pub nothing_sent : result.1.sent ≡ s.sent
  pub still_blocked : IsBlocked cooldown t result.1

module _ (c : HttpClientConfig) (d : Decoders) where
  -- One attempt against the open circuit sends nothing and leaves the session alone.
  json_once-blocked :
      (cooldown t : ℕ) (x : Exchange) (s : Session)
      → x.asked_at - t < cooldown
      → (b : IsBlocked cooldown t s)
      → request_json_once c d x s ≡ (fetch_error (breaker_error t x s b), s)
  unfolding request_json_once request_bytes_once
  json_once-blocked cooldown t x s h b =
      rw (
        b.has_limiter,
        wait-rejected x.asked_at t b.limiter b.is_open b.opened_at (rw b.cools_for h),
      )

  one_attempt-Starves :
      (cooldown t : ℕ) (x : Exchange) (s : Session)
      → x.asked_at - t < cooldown
      → IsBlocked cooldown t s
      → Starves cooldown x.failed_at s
          (attempts_from (request_json_once c d) c (λ attempt. x) 1 1 s)
  unfolding attempts_from
  one_attempt-Starves cooldown t x s h b = rw (json_once-blocked cooldown t x s h b) (record {
    breaker = (refl, (_, _, refl));
    nothing_sent = sent-record_request_error _ _ s;
    still_blocked = record_failure-IsBlocked cooldown t x.failed_at s _ refl b;
  })

  request_json-Starves :
      (cooldown t : ℕ) (x : Exchange) (s : Session)
      → c.max_retries ≡ 0
      → x.asked_at - t < cooldown
      → IsBlocked cooldown t s
      → Starves cooldown x.failed_at s (request_json c d (λ attempt. x) s)
  unfolding request_json
  request_json-Starves cooldown t x s once h b =
      subst
        (λ retries.
          Starves cooldown x.failed_at s
            (attempts_from (request_json_once c d) c (λ attempt. x) (retries + 1) 1 s))
        (sym once) (one_attempt-Starves cooldown t x s h b)

  -- The session after a sequence of calls of `request_json` with one attempt each.
  pub session_after : List Exchange → Session → Session
  session_after [] s = s
  session_after (x ∷ calls) s = session_after calls (request_json c d (λ attempt. x) s).1

  -- Every call ends with the error of an open circuit.
  abbrev pub AllFail : List Exchange → Session → Type 0
  AllFail [] s = Unit
  AllFail (x ∷ calls) s =
      IsBreakerOpen (request_json c d (λ attempt. x) s).0
      × AllFail calls (request_json c d (λ attempt. x) s).1

-- The calls come one after the other, from `t` on, and each asks before the cooldown since the failure
-- before it is over.
abbrev pub AllHurried : (cooldown t : ℕ) → List Exchange → Type 0
AllHurried cooldown t [] = Unit
AllHurried cooldown t (x ∷ calls) =
    (t ≤ x.asked_at)
    × (x.asked_at - t < cooldown)
    × (x.asked_at ≤ x.failed_at)
    × AllHurried cooldown x.failed_at calls

-- Once the circuit of a client without retries is open, a caller whose every call comes before the
-- cooldown since its last failure is over never gets through, however long it goes on, also long after
-- the cooldown since the circuit first opened: each call ends with the error of an open circuit, and no
-- request is sent.
pub request_json-starved :
    (c : HttpClientConfig) (d : Decoders) (cooldown t : ℕ) (calls : List Exchange) (s : Session)
    → c.max_retries ≡ 0
    → AllHurried cooldown t calls
    → IsBlocked cooldown t s
    → AllFail c d calls s × ((session_after c d calls s).sent ≡ s.sent)
unfolding session_after
request_json-starved c d cooldown t [] s once h b = (tt, refl)
request_json-starved c d cooldown t (x ∷ calls) s once h b =
    let one = request_json-Starves c d cooldown t x s once h.1 b in
    let more =
      request_json-starved c d cooldown x.failed_at calls (request_json c d (λ attempt. x) s).1 once
        h.3 one.still_blocked in
    ((one.breaker, more.0), more.1 ∙ one.nothing_sent)
