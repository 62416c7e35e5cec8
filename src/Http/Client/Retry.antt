-- ===== src/Http/Client/Retry.antt =====
-- What the retry loop returns.
use native.Mathlib.Numerals.{add-one}
use bisakerja_scraper.Prelude.{
  ℕ, zero, suc, ◌<◌, ◌≡◌, refl, true, false, arith, inl, inr, Bool-cases, Option-cases, none, ◌∙◌,
  sym, subst, ◌⊎◌, ap,
}
use bisakerja_scraper.Http.Client.{
  HttpClientConfig, Exchange, Session, Outcome, value, fetch_error, decode_error, overflow_error,
  resume, FetchError, record_request_error, backoff, attempts_from, Decoders, request_json,
  request_text, request_json_once, request_text_once,
}

-- The loop goes on after this outcome, if attempts are left.
abbrev pub Retries {ℓ} : {A : Type ℓ} → Outcome A → Type 0
Retries (fetch_error e) = e.retryable ≡ true
Retries _ = ⊥

module _ {A : Type 0} (once : Exchange → Session → Outcome A × Session) (c : HttpClientConfig)
    (world : ℕ → Exchange) where
  -- What follows on an attempt: a failure is recorded and the client backs off, where an overflow
  -- ends the call.
  abbrev pub follow :
      (Session → Outcome A × Session) → Outcome A × Session → ℕ → Outcome A × Session
  follow again (fetch_error e, s) now =
      resume again (record_request_error e now s) (backoff c (record_request_error e now s))
  follow again (_, s) now = again s

  -- The attempt that follows on `i` failed ones, or the overflow of a backoff before it.
  pub try_at : (i attempt : ℕ) → Session → Outcome A × Session
  try_at zero attempt s = once (world attempt) s
  try_at (suc i) attempt s =
      follow (try_at i (suc attempt)) (once (world attempt) s) (world attempt).failed_at

  -- The result is that of one attempt within the budget; all before it failed and could be
  -- retried, and it either cannot be retried or is the last one.
  pub record Settles (attempts attempt : ℕ) (s : Session) (result : Outcome A) : Type 0 where
    pub tries : ℕ
    pub within : tries < attempts
    pub outcome : result ≡ (try_at tries attempt s).0
    pub earlier : (j : ℕ) → j < tries → Retries (try_at j attempt s).0
    pub final : ¬ Retries (try_at tries attempt s).0 ⊎ (suc tries ≡ attempts)

  Settles-at_once :
      (left attempt : ℕ) (s : Session) (result : Outcome A)
      → result ≡ (once (world attempt) s).0
      → ¬ Retries (once (world attempt) s).0 ⊎ (1 ≡ suc left)
      → Settles (suc left) attempt s result
  unfolding try_at
  Settles-at_once left attempt s result e stop = record {
    tries = 0;
    within = omega arith;
    outcome = e;
    earlier = λ j h. elim h [ ];
    final = stop;
  }

  Settles-later :
      (left attempt : ℕ) (s next : Session) (result : Outcome A)
      → Retries (once (world attempt) s).0
      → ((i : ℕ) → try_at (suc i) attempt s ≡ try_at i (suc attempt) next)
      → Settles left (suc attempt) next result
      → Settles (suc left) attempt s result
  Settles-later left attempt s next result first same later = record {
    tries = suc later.tries;
    within = omega (arith, later.within);
    outcome = later.outcome ∙ sym (ap (λ r. r.0) (same later.tries));
    earlier = earlier_tries;
    final = elim later.final [
      | inl stop ↦ inl (λ r. stop (subst (λ o. Retries o.0) (same later.tries) r))
      | inr e ↦ inr (ap suc e)
    ];
  }
    where
      earlier_tries : (j : ℕ) → j < suc later.tries → Retries (try_at j attempt s).0
      earlier_tries zero h = unfold try_at in first
      earlier_tries (suc j) h =
          subst (λ o. Retries o.0) (sym (same j)) (later.earlier j (omega arith))

  module _ (attempt : ℕ) (s s' : Session) where
    stops_value :
        (left : ℕ) (a : A)
        → once (world attempt) s ≡ (value a, s')
        → Settles (suc left) attempt s (attempts_from once c world (suc left) attempt s).0
    unfolding attempts_from
    stops_value left a e = Settles-at_once left attempt s _ (rw e) (inl (λ r. rw e at r))

    stops_decode_error :
        (left : ℕ)
        → once (world attempt) s ≡ (decode_error, s')
        → Settles (suc left) attempt s (attempts_from once c world (suc left) attempt s).0
    unfolding attempts_from
    stops_decode_error left e = Settles-at_once left attempt s _ (rw e) (inl (λ r. rw e at r))

    stops_overflow :
        (left : ℕ)
        → once (world attempt) s ≡ (overflow_error, s')
        → Settles (suc left) attempt s (attempts_from once c world (suc left) attempt s).0
    unfolding attempts_from
    stops_overflow left e = Settles-at_once left attempt s _ (rw e) (inl (λ r. rw e at r))

    stops_final :
        (left : ℕ) (f : FetchError)
        → once (world attempt) s ≡ (fetch_error f, s')
        → f.retryable ≡ false
        → Settles (suc left) attempt s (attempts_from once c world (suc left) attempt s).0
    unfolding attempts_from
    stops_final left f e final =
        Settles-at_once left attempt s _ (rw (e, final)) (inl (λ r. cc (rw e at r)))

    stops_exhausted :
        (f : FetchError)
        → once (world attempt) s ≡ (fetch_error f, s')
        → Settles 1 attempt s (attempts_from once c world 1 attempt s).0
    unfolding attempts_from
    stops_exhausted f e = Settles-at_once 0 attempt s _ (ground arith) (inr refl)

    abbrev pub recorded_session : FetchError → Session
    recorded_session f = record_request_error f (world attempt).failed_at s'

    attempts_from-retry :
        (left : ℕ) (f : FetchError)
        → once (world attempt) s ≡ (fetch_error f, s')
        → f.retryable ≡ true
        → attempts_from once c world (suc (suc left)) attempt s
          ≡ resume
              (attempts_from once c world (suc left) (suc attempt))
              (recorded_session f)
              (backoff c (recorded_session f))
    unfolding attempts_from
    attempts_from-retry left f e again = rw e (ground arith)

    try_at-retry :
        (i : ℕ) (f : FetchError)
        → once (world attempt) s ≡ (fetch_error f, s')
        → try_at (suc i) attempt s
          ≡ resume (try_at i (suc attempt)) (recorded_session f) (backoff c (recorded_session f))
    unfolding try_at
    try_at-retry i f e = rw e refl

    overflows :
        (left : ℕ) (f : FetchError)
        → once (world attempt) s ≡ (fetch_error f, s')
        → f.retryable ≡ true
        → backoff c (recorded_session f) ≡ none
        → Settles (suc (suc left)) attempt s (overflow_error)
    overflows left f e again over =
        let second =
          try_at-retry 0 f e ∙ ap (resume (try_at 0 (suc attempt)) (recorded_session f)) over in
        record {
          tries = 1;
          within = omega arith;
          outcome = sym (ap (λ r. r.0) second);
          earlier = only_first;
          final = inl (λ r. subst (λ o. Retries o.0) second r);
        }
      where
        only_first : (j : ℕ) → j < 1 → Retries (try_at j attempt s).0
        only_first zero h = unfold try_at in rw e again
        only_first (suc j) h = absurd (omega arith)

    goes_on :
        (left : ℕ) (f : FetchError)
        → once (world attempt) s ≡ (fetch_error f, s')
        → f.retryable ≡ true
        → ((next : Session)
            → Settles
                (suc left)
                (suc attempt)
                next
                (attempts_from once c world (suc left) (suc attempt) next).0)
        → Settles
            (suc (suc left))
            attempt
            s
            (attempts_from once c world (suc (suc left)) attempt s).0
    goes_on left f e again ih = elim (Option-cases (backoff c (recorded_session f))) [
      | inl over ↦ rw (attempts_from-retry left f e again, over) (overflows left f e again over)
      | inr (next, found) ↦
          rw (attempts_from-retry left f e again, found)
            (Settles-later (suc left) attempt s next _ (rw e again)
              (λ i.
                try_at-retry i f e
                ∙ ap (resume (try_at i (suc attempt)) (recorded_session f)) found)
              (ih next))
    ]

  Settles-again :
      (left attempt : ℕ) (s s' : Session) (f : FetchError)
      → once (world attempt) s ≡ (fetch_error f, s')
      → f.retryable ≡ true
      → ((next : Session)
          → Settles left (suc attempt) next (attempts_from once c world left (suc attempt) next).0)
        ⊎ (left ≡ 0)
      → Settles (suc left) attempt s (attempts_from once c world (suc left) attempt s).0
  Settles-again zero attempt s s' f e again ih = stops_exhausted attempt s s' f e
  Settles-again (suc left) attempt s s' f e again (inl ih) = goes_on attempt s s' left f e again ih
  Settles-again (suc left) attempt s s' f e again (inr h) = absurd (omega arith)

  Settles-by :
      (left attempt : ℕ) (s : Session) (r : Outcome A × Session)
      → once (world attempt) s ≡ r
      → ((next : Session)
          → Settles left (suc attempt) next (attempts_from once c world left (suc attempt) next).0)
        ⊎ (left ≡ 0)
      → Settles (suc left) attempt s (attempts_from once c world (suc left) attempt s).0
  Settles-by left attempt s (value a, s') e ih = stops_value attempt s s' left a e
  Settles-by left attempt s (decode_error, s') e ih = stops_decode_error attempt s s' left e
  Settles-by left attempt s (overflow_error, s') e ih = stops_overflow attempt s s' left e
  Settles-by left attempt s (fetch_error f, s') e ih = elim (Bool-cases f.retryable) [
    | inl again ↦ Settles-again left attempt s s' f e again ih
    | inr final ↦ stops_final attempt s s' left f e final
  ]

  -- The retry loop always settles: its result is that of the first attempt that gives a value, an
  -- error that cannot be retried, or that is the last one allowed, or the overflow of the backoff
  -- before an attempt. Every attempt before it failed with a retryable error and started from the
  -- session that the failures and backoffs left.
  pub attempts_from-Settles :
      (left attempt : ℕ) (s : Session)
      → Settles (suc left) attempt s (attempts_from once c world (suc left) attempt s).0
  attempts_from-Settles zero attempt s =
      Settles-by zero attempt s (once (world attempt) s) refl (inr refl)
  attempts_from-Settles (suc left) attempt s =
      Settles-by (suc left) attempt s (once (world attempt) s) refl
        (inl (λ next. attempts_from-Settles left (suc attempt) next))

-- `request_json` and `request_text` return or raise what the first conclusive attempt does: one
-- that gives a value, that fails for good, whose backoff before it overflows, or that is the last of
-- `max_retries + 1`; each attempt before it failed with a retryable error.
pub request-Settles :
    (c : HttpClientConfig) (d : Decoders) (world : ℕ → Exchange) (s : Session)
    → Settles (request_json_once c d) c world (suc c.max_retries) 1 s (request_json c d world s).0
      × Settles (request_text_once c d) c world (suc c.max_retries) 1 s (request_text c d world s).0
unfolding request_json request_text
request-Settles c d world s = (
  rw add-one (attempts_from-Settles (request_json_once c d) c world c.max_retries 1 s),
  rw add-one (attempts_from-Settles (request_text_once c d) c world c.max_retries 1 s),
)
