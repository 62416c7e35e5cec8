-- ===== src/Http/RateLimit/Breaker.antt =====
-- The circuit breaker: when it is open, what it rejects and when it lets a request through again.
use bisakerja_scraper.Prelude.{
  ℕ, suc, length, map, All, ◌+◌, refl, ap, ◌∙◌, ◌-◌, ◌≤◌, ◌<◌, ◌≡◌, ◌≢◌, none, some, Bool, true,
  false, List, [], ◌∷◌, arith, leb, max,
}
use bisakerja_scraper.Http.RateLimit.{
  SourceRateLimitConfig, SourceRateLimiter, rejected, limiter_of, post_init, round_to_milliseconds,
  wait_before_request, record_success, record_failure,
}
use bisakerja_scraper.Http.RateLimit.Spacing.{Call, request, success, failure, slots, note_slot}

module _ (now t : ℕ) (l : SourceRateLimiter) (o : l.circuit_open ≡ true)
    (since : l.circuit_opened_at ≡ some t) where
  abbrev pub retry_after : ℕ
  retry_after = round_to_milliseconds (max (l.circuit_breaker_cooldown_seconds - (now - t)) 0)

  pub wait-rejected :
      now - t < l.circuit_breaker_cooldown_seconds
      → wait_before_request now l ≡ (rejected l.failure_count retry_after, l)
  unfolding wait_before_request
  wait-rejected h =
      let early : leb l.circuit_breaker_cooldown_seconds (now - t) ≡ false = ground arith in
      simp (o, since, early)

pub record_failure-opens :
    (now : ℕ) (l : SourceRateLimiter)
    → l.circuit_breaker_failure_threshold ≤ l.failure_count + 1
    → record_failure now l ≡ record l {
      failure_count = l.failure_count + 1;
      circuit_open = true;
      circuit_opened_at = some now;
    }
unfolding record_failure
record_failure-opens now l h =
    let over : leb l.circuit_breaker_failure_threshold (l.failure_count + 1) ≡ true =
      ground arith in
    rw over

-- What the state of the circuit says of the other fields.
abbrev pub Standing : Bool → SourceRateLimiter → Type 0
Standing true l =
    (l.circuit_breaker_failure_threshold ≤ l.failure_count) × (l.circuit_opened_at ≢ none)
Standing false l =
    (l.failure_count < l.circuit_breaker_failure_threshold) × (l.circuit_opened_at ≡ none)

abbrev pub IsConsistent : SourceRateLimiter → Type 0
IsConsistent l = Standing l.circuit_open l × (0 < l.circuit_breaker_failure_threshold)

wait-IsConsistent :
    (now : ℕ) (l : SourceRateLimiter) → IsConsistent l → IsConsistent (wait_before_request now l).1
unfolding wait_before_request
wait-IsConsistent now l h = ground arith

success-IsConsistent : (l : SourceRateLimiter) → IsConsistent l → IsConsistent (record_success l)
unfolding record_success
success-IsConsistent l h = ground arith

failure-IsConsistent :
    (now : ℕ) (l : SourceRateLimiter) → IsConsistent l → IsConsistent (record_failure now l)
unfolding record_failure
failure-IsConsistent now l h = ground arith

-- The limiter after a sequence of calls.
pub after : SourceRateLimiter → List Call → SourceRateLimiter
after l [] = l
after l (request now ∷ calls) = after (wait_before_request now l).1 calls
after l (success ∷ calls) = after (record_success l) calls
after l (failure now ∷ calls) = after (record_failure now l) calls

after_keeps :
    (l : SourceRateLimiter) (calls : List Call) → IsConsistent l → IsConsistent (after l calls)
unfolding after
after_keeps l [] h = h
after_keeps l (request now ∷ calls) h =
    after_keeps (wait_before_request now l).1 calls (wait-IsConsistent now l h)
after_keeps l (success ∷ calls) h = after_keeps (record_success l) calls (success-IsConsistent l h)
after_keeps l (failure now ∷ calls) h =
    after_keeps (record_failure now l) calls (failure-IsConsistent now l h)

-- From a configuration that `__post_init__` accepts, and after any sequence of calls, the circuit
-- is open if the failure count reaches the threshold, with a known opening time, and closed with no
-- opening time if it does not.
pub after-IsConsistent :
    (c : SourceRateLimitConfig) (calls : List Call)
    → post_init c ≡ none
    → IsConsistent (after (limiter_of c) calls)
unfolding post_init
after-IsConsistent c calls h = after_keeps (limiter_of c) calls (ground arith)

-- Each of `count` failures has been counted, and opened the circuit if it reached the threshold.
abbrev pub HasCounted : (threshold count : ℕ) → SourceRateLimiter → Type 0
HasCounted threshold count l =
    (l.failure_count ≡ count)
    × (l.circuit_open ≡ leb threshold count)
    × (l.circuit_breaker_failure_threshold ≡ threshold)

failure-HasCounted :
    (threshold count now : ℕ) (l : SourceRateLimiter)
    → HasCounted threshold count l
    → HasCounted threshold (suc count) (record_failure now l)
unfolding record_failure
failure-HasCounted threshold count now l h = ground arith

failures-HasCounted :
    (threshold count : ℕ) (l : SourceRateLimiter) (times : List ℕ)
    → HasCounted threshold count l
    → HasCounted threshold (count + length times) (after l (map failure times))
unfolding after
failures-HasCounted threshold count l [] h =
    let e : count + length {A = ℕ} [] ≡ count = omega arith in rw e h
failures-HasCounted threshold count l (now ∷ times) h =
    let e : count + suc (length times) ≡ suc count + length times = omega arith in
    rw e (
      failures-HasCounted threshold (suc count) (record_failure now l) times
        (failure-HasCounted threshold count now l h))

module _ (t : ℕ) (l : SourceRateLimiter) (o : l.circuit_open ≡ true)
    (since : l.circuit_opened_at ≡ some t) where
  early-rejected :
      (early : List ℕ)
      → All (λ n. n - t < l.circuit_breaker_cooldown_seconds) early
      → (after l (map request early) ≡ l) × (slots l (map request early) ≡ [])
  unfolding after slots
  early-rejected [] h = (refl, refl)
  early-rejected (n ∷ early) h =
      let rejection = wait-rejected n t l o since h.0 in
      let rest = early-rejected early h.1 in
      (
        ap (λ w. after w.1 (map request early)) rejection ∙ rest.0,
        ap (λ w. note_slot n w.0 (slots w.1 (map request early))) rejection ∙ rest.1,
      )

  recovers :
      (now : ℕ)
      → 0 < l.circuit_breaker_failure_threshold
      → l.circuit_breaker_cooldown_seconds ≤ now - t
      → HasCounted l.circuit_breaker_failure_threshold 0 (wait_before_request now l).1
        × (slots l (request now ∷ []) ≡ max now l.next_available_at ∷ [])
  unfolding wait_before_request record_success slots
  recovers now positive late =
      let over : leb l.circuit_breaker_cooldown_seconds (now - t) ≡ true = ground arith in
      let closed : leb l.circuit_breaker_failure_threshold 0 ≡ false = ground arith in
      let sent_at : now + max (l.next_available_at - now) 0 ≡ max now l.next_available_at =
        omega arith in
      rw (o, since, over, closed) ((refl, refl, refl), ap (λ time. time ∷ []) sent_at)

-- While a circuit is open and its cooldown since the opening is not over, every request is rejected: none
-- is sent, and the limiter stays as it is. The first request after the cooldown is sent, at the next free
-- slot, and the count of failures starts anew, with no success needed: after any further failures it is
-- their number, and the circuit is open again exactly if they reach the threshold.
pub after-cooldown :
    (t : ℕ) (l : SourceRateLimiter) (early : List ℕ) (now : ℕ) (times : List ℕ)
    → l.circuit_open ≡ true
    → l.circuit_opened_at ≡ some t
    → 0 < l.circuit_breaker_failure_threshold
    → All (λ n. n - t < l.circuit_breaker_cooldown_seconds) early
    → l.circuit_breaker_cooldown_seconds ≤ now - t
    → let waited = after l (map request early) in
      let recovered = after waited (request now ∷ map failure times) in
      (waited ≡ l)
      × (slots l (map request early) ≡ [])
      × (slots waited (request now ∷ []) ≡ max now l.next_available_at ∷ [])
      × (recovered.failure_count ≡ length times)
      × (recovered.circuit_open ≡ leb l.circuit_breaker_failure_threshold (length times))
unfolding after
after-cooldown t l early now times o since positive h late =
    let rejected = early-rejected t l o since early h in
    let one = recovers t l o since now positive late in
    let counted =
      failures-HasCounted l.circuit_breaker_failure_threshold 0 (wait_before_request now l).1 times
        one.0 in
    let none_before : 0 + length times ≡ length times = omega arith in
    let all = rw none_before at counted in rw rejected.0 (refl, rejected.1, one.1, all.0, all.1)
