-- ===== src/Backend/Retry.antt =====
-- How often `sync_payload` posts.
use bisakerja_scraper.Prelude.{
  ℕ, zero, suc, ◌+◌, ◌≤◌, ◌≡◌, ◌∙◌, ◌⊎◌, inl, inr, refl, ap, Bool, true, false, if◌then◌else◌,
  Bool-cases, arith,
}
use bisakerja_scraper.Prelude.Json.{Json}
use bisakerja_scraper.Sync.Worker.{Reply}
use bisakerja_scraper.Backend.{
  PostReply, transport_failed, response, is_retryable_status, BackendSyncClient, post_reply,
  after_post, sync_attempts, sync_payload,
}

-- A post that may succeed later: the transport failed, or the backend is busy or broken.
abbrev pub is_transient : PostReply → Bool
is_transient transport_failed = true
is_transient (response status_code body) = is_retryable_status status_code

-- The number of passes of the test in a row from a number on, up to a bound.
abbrev pub leading : (ℕ → Bool) → (bound start : ℕ) → ℕ
leading test zero start = 0
leading test (suc bound) start =
    let rest = leading test bound (start + 1) in if test start then suc rest else 0

leading-ends :
    (test : ℕ → Bool) (bound start : ℕ)
    → let n = leading test bound start in (n ≤ bound) × ((test (start + n) ≡ false) ⊎ (n ≡ bound))
leading-ends test zero start = (omega arith, inr refl)
leading-ends test (suc bound) start =
    let (short, ends) = leading-ends test bound (start + 1) in
    let e : start + 1 + leading test bound (start + 1)
        ≡ start + suc (leading test bound (start + 1)) =
      omega arith in
    elim (Bool-cases (test start)) [
      | inl passes ↦ rw passes (
        omega (arith, short),
        elim ends [ inl stops ↦ inl (rw e at stops) | inr all ↦ inr (ap suc all) ],
      )
      | inr stops ↦
          let f : start ≡ start + 0 = omega arith in rw stops (omega arith, inl (rw f at stops))
    ]

after_post-transient :
    (c : BackendSyncClient) (reply : PostReply) (posts : ℕ) (next : Reply × ℕ)
    → after_post (post_reply c reply) posts next
      ≡ (if is_transient reply then next else (post_reply c reply, posts))
unfolding post_reply
after_post-transient c transport_failed posts next = refl
after_post-transient c (response status_code body) posts next = ground arith

sync_attempts-leading :
    (c : BackendSyncClient) (payload : Json) (left attempt : ℕ)
    → let n = leading (λ i. is_transient (c.post i payload)) left attempt in
      sync_attempts c payload left attempt
      ≡ (post_reply c (c.post (attempt + n) payload), attempt + n + 1)
unfolding sync_attempts
sync_attempts-leading c payload zero attempt =
    let e : attempt ≡ attempt + 0 = omega arith in
    ap (λ i. (post_reply c (c.post i payload), i + 1)) e
sync_attempts-leading c payload (suc left) attempt =
    let rest = leading (λ i. is_transient (c.post i payload)) left (attempt + 1) in
    let ih = sync_attempts-leading c payload left (attempt + 1) in
    let first =
      after_post-transient c (c.post attempt payload) (attempt + 1)
        (sync_attempts c payload left (attempt + 1)) in
    elim (Bool-cases (is_transient (c.post attempt payload))) [
      | inl transient ↦
          let e : attempt + 1 + rest ≡ attempt + suc rest = omega arith in
          rw transient
            (rw transient at first ∙ ih ∙ ap (λ i. (post_reply c (c.post i payload), i + 1)) e)
      | inr final ↦
          let e : attempt ≡ attempt + 0 = omega arith in
          rw final (rw final at first ∙ ap (λ i. (post_reply c (c.post i payload), i + 1)) e)
    ]

-- `sync_payload` posts until a post does not fail transiently, which are failures of the transport and the
-- statuses 429, 500, 502, 503 and 504, and at most one time more than `max_retries`: with `n` transient
-- failures in a row, of which at most `max_retries` are repeated, it returns or raises what post `n` does
-- and has posted `n + 1` times; and that post is not transient unless the retries are used up.
pub sync_payload-leading :
    (c : BackendSyncClient) (payload : Json)
    → let n = leading (λ i. is_transient (c.post i payload)) c.max_retries 0 in
      (sync_payload c payload ≡ (post_reply c (c.post n payload), n + 1))
      × (n ≤ c.max_retries)
      × ((is_transient (c.post n payload) ≡ false) ⊎ (n ≡ c.max_retries))
unfolding sync_payload
sync_payload-leading c payload =
    let n = leading (λ i. is_transient (c.post i payload)) c.max_retries 0 in
    let (short, ends) = leading-ends (λ i. is_transient (c.post i payload)) c.max_retries 0 in
    let e : 0 + n ≡ n = omega arith in
    (rw e at (sync_attempts-leading c payload c.max_retries 0), short, rw e at ends)
