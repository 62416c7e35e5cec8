-- ===== src/Http.antt =====
-- src/shared/http: the rate limiter with its circuit breaker, and the retrying HTTP client.
pub mod RateLimit
pub mod Client
