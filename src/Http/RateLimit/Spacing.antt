-- ===== src/Http/RateLimit/Spacing.antt =====
-- The slots that the limiter gives out, whatever happens between the requests.
use bisakerja_scraper.Prelude.{ℕ, ◌+◌, ◌≤◌, ◌≡◌, List, [], ◌∷◌, arith, ap, refl}
use bisakerja_scraper.Http.RateLimit.{
  SourceRateLimiter, Admission, admitted, rejected, interval, wait_before_request, record_success,
  record_failure,
}

-- The calls of one limiter, with the clock's readings.
pub data Call : Type 0 where
  request : ℕ → Call
  success : Call
  failure : ℕ → Call

abbrev pub note_slot : ℕ → Admission → List ℕ → List ℕ
note_slot now (admitted wait) rest = (now + wait) ∷ rest
note_slot now (rejected _ _) rest = rest

-- The times at which the admitted requests of a sequence of calls are sent.
unfoldable pub slots : SourceRateLimiter → List Call → List ℕ
slots l [] = []
slots l (request now ∷ calls) =
    note_slot now (wait_before_request now l).0 (slots (wait_before_request now l).1 calls)
slots l (success ∷ calls) = slots (record_success l) calls
slots l (failure now ∷ calls) = slots (record_failure now l) calls

-- The first time is not before `from`, and each is at least `gap` after the one before.
abbrev pub Spaced : ℕ → ℕ → List ℕ → Type 0
Spaced gap from [] = Unit
Spaced gap from (t ∷ times) = (from ≤ t) × Spaced gap (t + gap) times

-- What an answer says of the limiter before and after it.
abbrev Books : ℕ → SourceRateLimiter → Admission → SourceRateLimiter → Type 0
Books now l (admitted wait) l' =
    (l.next_available_at ≤ now + wait)
    × (l'.next_available_at ≡ now + wait + interval l.config)
    × (l'.config ≡ l.config)
Books now l (rejected _ _) l' = l' ≡ l

wait-Books :
    (now : ℕ) (l : SourceRateLimiter)
    → Books now l (wait_before_request now l).0 (wait_before_request now l).1
unfolding wait_before_request
wait-Books now l = ground arith

success_keeps :
    (l : SourceRateLimiter)
    → ((record_success l).next_available_at ≡ l.next_available_at)
      × ((record_success l).config ≡ l.config)
unfolding record_success
success_keeps l = (refl, refl)

failure_keeps :
    (now : ℕ) (l : SourceRateLimiter)
    → ((record_failure now l).next_available_at ≡ l.next_available_at)
      × ((record_failure now l).config ≡ l.config)
unfolding record_failure
failure_keeps now l = ground arith

Spaced-note_slot :
    (now : ℕ) (l l' : SourceRateLimiter) (answer : Admission) (gap from : ℕ) (rest : List ℕ)
    → Books now l answer l'
    → interval l.config ≡ gap
    → from ≤ l.next_available_at
    → ((lo : ℕ) → interval l'.config ≡ gap → lo ≤ l'.next_available_at → Spaced gap lo rest)
    → Spaced gap from (note_slot now answer rest)
Spaced-note_slot now l l' (admitted wait) gap from rest b e h ih =
    (omega arith, ih (now + wait + gap) (cc (ap interval b.2)) (omega arith))
Spaced-note_slot now l l' (rejected _ _) gap from rest b e h ih =
    ih from (cc (ap (λ (m : SourceRateLimiter). interval m.config) b))
      (omega (arith, ap (λ (m : SourceRateLimiter). m.next_available_at) b))

Spaced-slots_from :
    (gap from : ℕ) (l : SourceRateLimiter) (calls : List Call)
    → interval l.config ≡ gap
    → from ≤ l.next_available_at
    → Spaced gap from (slots l calls)
unfolding slots
Spaced-slots_from gap from l [] e h = tt
Spaced-slots_from gap from l (request now ∷ calls) e h =
    let l' = (wait_before_request now l).1 in
    Spaced-note_slot now l l' (wait_before_request now l).0 gap from (slots l' calls)
      (wait-Books now l) e h (λ lo. Spaced-slots_from gap lo l' calls)
Spaced-slots_from gap from l (success ∷ calls) e h =
    let k = success_keeps l in
    Spaced-slots_from gap from (record_success l) calls (cc (ap interval k.1)) (omega (arith, k.0))
Spaced-slots_from gap from l (failure now ∷ calls) e h =
    let k = failure_keeps now l in
    Spaced-slots_from gap from (record_failure now l) calls (cc (ap interval k.1))
      (omega (arith, k.0))

-- Whatever is called on a limiter, and at whatever readings of the clock, successes, failures and
-- rejected requests included, the requests that it admits are sent at least 60 seconds divided by
-- `requests_per_minute` apart, the first not before the slot that was free at the start.
pub Spaced-slots :
    (l : SourceRateLimiter) (calls : List Call)
    → Spaced (interval l.config) l.next_available_at (slots l calls)
Spaced-slots l calls =
    Spaced-slots_from (interval l.config) l.next_available_at l calls refl (omega arith)
