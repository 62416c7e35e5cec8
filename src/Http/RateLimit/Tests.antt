-- ===== src/Http/RateLimit/Tests.antt =====
-- The rate limiter on concrete configurations.
use bisakerja_scraper.Prelude.{
  ℕ, ◌+◌, ◌≤◌, leb, map, arith, ◌≡◌, refl, none, some, true, List, [], ◌∷◌, max,
}
use bisakerja_scraper.Http.RateLimit.{
  SourceRateLimitConfig, SourceRateLimiter, limiter_of, post_init, interval, backoff_delay,
}
use bisakerja_scraper.Http.RateLimit.Spacing.{Call, slots, Spaced, Spaced-slots}
use bisakerja_scraper.Http.RateLimit.Backoff.{doubled, backoff_delay_lem}
use bisakerja_scraper.Http.RateLimit.Breaker.{
  after-cooldown, IsConsistent, after, after-IsConsistent,
}

abbrev pub limits : SourceRateLimitConfig
limits = record {
  source_platform = "glints";
  requests_per_minute = 30;
  initial_backoff_seconds = 200000;
  max_backoff_seconds = 30000000;
  circuit_breaker_failure_threshold = 3;
  circuit_breaker_cooldown_seconds = 30000000;
}

abbrev pub opened : SourceRateLimiter
opened = record (limiter_of limits) {
  failure_count = 3;
  circuit_open = true;
  circuit_opened_at = some 1000000;
}

Spaced-slots_example :
    Spaced
      (interval limits)
      0
      (slots (limiter_of limits) (Call.request 5 ∷ Call.failure 6 ∷ Call.request 7 ∷ []))
Spaced-slots_example =
    Spaced-slots (limiter_of limits) (Call.request 5 ∷ Call.failure 6 ∷ Call.request 7 ∷ [])

backoff_delay_lem_example :
    (backoff_delay opened 0 ≡ some 0)
    × (backoff_delay opened 10 ≡ some (doubled opened 9))
    × ((m j : ℕ) → doubled opened m ≤ doubled opened (m + j))
    × (doubled opened 9 ≤ 30000000)
    × (backoff_delay opened 1025 ≡ none)
backoff_delay_lem_example = backoff_delay_lem opened 9 1024 (omega arith) (omega arith)

after-cooldown_example :
    let early : List ℕ = 5000000 ∷ 9000000 ∷ [] in
    let times : List ℕ = 32000000 ∷ 33000000 ∷ [] in
    let waited = after opened (map Call.request early) in
    let recovered = after waited (Call.request 31000000 ∷ map Call.failure times) in
    (waited ≡ opened)
    × (slots opened (map Call.request early) ≡ [])
    × (slots waited (Call.request 31000000 ∷ []) ≡ max 31000000 0 ∷ [])
    × (recovered.failure_count ≡ 2)
    × (recovered.circuit_open ≡ leb 3 2)
after-cooldown_example =
    after-cooldown 1000000 opened (5000000 ∷ 9000000 ∷ []) 31000000 (32000000 ∷ 33000000 ∷ []) refl
      refl (omega arith) (omega arith) (omega arith)

limits_accepted : post_init limits ≡ none
unfolding post_init
limits_accepted = refl

after-IsConsistent_example :
    IsConsistent (after (limiter_of limits) (Call.failure 1 ∷ Call.failure 2 ∷ Call.failure 3 ∷ []))
after-IsConsistent_example =
    after-IsConsistent limits (Call.failure 1 ∷ Call.failure 2 ∷ Call.failure 3 ∷ [])
      limits_accepted
