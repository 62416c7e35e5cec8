-- ===== src/Http/RateLimit/Backoff.antt =====
-- The delay after failures.
use native.Mathlib.Nat.{pow-suc}
use bisakerja_scraper.Prelude.{
  ℕ, zero, suc, ◌+◌, ◌*◌, ◌^◌, ◌≤◌, ◌<◌, ◌≡◌, refl, ap, arith, min, none, some, leb, false, true,
}
use bisakerja_scraper.Http.RateLimit.{SourceRateLimiter, backoff_delay}

module _ (l : SourceRateLimiter) where
  -- The delay after one failure, doubled for each of `n` further ones and cut off at the maximum.
  abbrev pub doubled : ℕ → ℕ
  doubled zero = min l.initial_backoff_seconds l.max_backoff_seconds
  doubled (suc n) = min (2 * doubled n) l.max_backoff_seconds

  doubled-pow : (n : ℕ) → doubled n ≡ min (l.initial_backoff_seconds * 2 ^ n) l.max_backoff_seconds
  doubled-pow zero = omega arith
  doubled-pow (suc n) =
      omega (arith, doubled-pow n, ap (λ (t : ℕ). l.initial_backoff_seconds * t) (pow-suc 2 n))

  doubled-le_max : (n : ℕ) → doubled n ≤ l.max_backoff_seconds
  doubled-le_max zero = omega arith
  doubled-le_max (suc n) = omega arith

  doubled_mono : (m k : ℕ) → doubled m ≤ doubled (m + k)
  doubled_mono m zero = ground arith
  doubled_mono m (suc k) =
      let e : m + suc k ≡ suc (m + k) = omega arith in
      rw e (omega (arith, doubled_mono m k, doubled-le_max (m + k)))

-- Without failures there is no delay. Up to 1024 failures the delay after the first one is the initial one,
-- or the maximum if that is shorter, and each further failure doubles it up to the maximum, so that it never
-- gets shorter nor longer than the maximum. From 1025 failures on the computation overflows.
pub backoff_delay_lem :
    (l : SourceRateLimiter) (n k : ℕ)
    → n < 1024
    → 1024 ≤ k
    → (backoff_delay l 0 ≡ some 0)
      × (backoff_delay l (suc n) ≡ some (doubled l n))
      × ((m j : ℕ) → doubled l m ≤ doubled l (m + j))
      × (doubled l n ≤ l.max_backoff_seconds)
      × (backoff_delay l (suc k) ≡ none)
unfolding backoff_delay
backoff_delay_lem l n k few many =
    let below : leb 1024 n ≡ false = ground arith in
    let above : leb 1024 k ≡ true = ground arith in
    (refl, rw (below, doubled-pow l n) refl, doubled_mono l, doubled-le_max l n, rw above refl)
