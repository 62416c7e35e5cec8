-- ===== src/Sync/Events/Unique.antt =====
-- Finding an event by the columns of the unique constraint, before and after the table changes.
use text.Mathlib.TextPositions.{eq_refl}
use bisakerja_scraper.Prelude.{
  ℕ, zero, suc, ◌+◌, ◌≡◌, refl, Option, none, some, true, false, [], ◌∷◌, ◌++◌, String, arith,
  get_elem?, modify, length, Bool-cases, inl, inr, ◌∙◌, ap, sym,
}
use bisakerja_scraper.Prelude.Json.{Json}
use bisakerja_scraper.Models.{NormalizedJob}
use bisakerja_scraper.Sync.Events.{
  Events, SyncEvent, has_key, find_key, find_event, hash_or, new_event, reused_event, reuse_or_add,
  prepare_event,
}

module _ (target job_id hash : String) where
  -- The event at the position is the first one with the key.
  abbrev pub IsFirst : ℕ → Events → Type 0
  IsFirst i [] = ⊥
  IsFirst zero (event ∷ events) = has_key target job_id hash event ≡ true
  IsFirst (suc i) (event ∷ events) = (has_key target job_id hash event ≡ false) × IsFirst i events

  pub IsFirst-find_key :
      (i k : ℕ) (events : Events)
      → IsFirst i events
      → (event : SyncEvent) × (find_key target job_id hash k events ≡ some (k + i, event))
        × (get_elem? events i ≡ some event)
  unfolding find_key
  IsFirst-find_key i k [] h = absurd h
  IsFirst-find_key zero k (event ∷ events) h = (event, ground arith, refl)
  IsFirst-find_key (suc i) k (event ∷ events) h =
      let rest = IsFirst-find_key i (suc k) events h.1 in
      let place : suc k + i ≡ k + suc i = omega arith in
      (rest.0, rw (h.0) (rw place at (rest.1)), rest.2)

  -- What `find_key` finds is the first event with the key.
  pub find_key-IsFirst :
      (k j : ℕ) (events : Events) (event : SyncEvent)
      → find_key target job_id hash k events ≡ some (j, event)
      → (i : ℕ) × (j ≡ k + i) × IsFirst i events
  unfolding find_key
  find_key-IsFirst k j [] event h = absurd (cc)
  find_key-IsFirst k j (other ∷ events) event h =
      elim (Bool-cases (has_key target job_id hash other)) [
        | inl found ↦ (0, ground arith, found)
        | inr absent ↦
            let rest = find_key-IsFirst (suc k) j events event (rw absent at h) in
            (suc rest.0, omega (arith, rest.1), (absent, rest.2))
      ]

  pub IsFirst-modify :
      (i j : ℕ) (f : SyncEvent → SyncEvent) (events : Events)
      → ((event : SyncEvent)
          → has_key target job_id hash (f event) ≡ has_key target job_id hash event)
      → IsFirst i events
      → IsFirst i (modify events j f)
  IsFirst-modify i j f [] same h = h
  IsFirst-modify zero zero f (event ∷ events) same h = same event ∙ h
  IsFirst-modify zero (suc j) f (event ∷ events) same h = h
  IsFirst-modify (suc i) zero f (event ∷ events) same h = (same event ∙ h.0, h.1)
  IsFirst-modify (suc i) (suc j) f (event ∷ events) same h =
      (h.0, IsFirst-modify i j f events same h.1)

  pub IsFirst-append :
      (i : ℕ) (events more : Events) → IsFirst i events → IsFirst i (events ++ more)
  IsFirst-append i [] more h = absurd h
  IsFirst-append zero (event ∷ events) more h = h
  IsFirst-append (suc i) (event ∷ events) more h = (h.0, IsFirst-append i events more h.1)

  IsFirst-new :
      (k : ℕ) (events : Events) (event : SyncEvent)
      → find_key target job_id hash k events ≡ none
      → has_key target job_id hash event ≡ true
      → IsFirst (length events) (events ++ event ∷ [])
  unfolding find_key
  IsFirst-new k [] event h e = e
  IsFirst-new k (other ∷ events) event h e = elim (Bool-cases (has_key target job_id hash other)) [
    | inl found ↦ absurd (cc (rw found at h))
    | inr absent ↦ (absent, IsFirst-new (suc k) events event (rw absent at h) e)
  ]

  pub reuse_or_add-IsFirst :
      (job : NormalizedJob) (run_id : Option String) (now : ℕ) (events : Events)
      (found : Option (ℕ × SyncEvent))
      → find_key target job_id hash 0 events ≡ found
      → has_key target job_id hash (new_event job run_id target hash now) ≡ true
      → IsFirst
          (reuse_or_add job run_id target hash now events found).0
          (reuse_or_add job run_id target hash now events found).1
  reuse_or_add-IsFirst job run_id now events none e fresh = IsFirst-new 0 events _ e fresh
  reuse_or_add-IsFirst job run_id now events (some (j, event)) e fresh =
      let (i, place, first) = find_key-IsFirst 0 j events event e in
      let same : i ≡ j = omega (arith, place) in
      rw same at (IsFirst-modify i j (reused_event run_id now) events (λ other. refl) first)

hash_or_idem :
    (hash : Json → String) (given : Option String) (job : NormalizedJob)
    → hash_or hash (some (hash_or hash given job)) job ≡ hash_or hash given job
hash_or_idem hash none job = ground arith
hash_or_idem hash (some text) job = ground arith

-- The prepared event is the first with the key of its job and payload.
pub prepare_event-IsFirst :
    (hash : Json → String) (job : NormalizedJob) (run_id : Option String) (target : String)
    (payload_hash : Option String) (now : ℕ) (events : Events)
    → IsFirst target job.id
        (hash_or hash payload_hash job)
        (prepare_event hash job run_id target payload_hash now events).0
        (prepare_event hash job run_id target payload_hash now events).1
unfolding prepare_event
prepare_event-IsFirst hash job run_id target payload_hash now events =
    reuse_or_add-IsFirst target job.id (hash_or hash payload_hash job) job run_id now events _
      (ap (λ (key : String). find_key target job.id key 0 events)
        (sym (hash_or_idem hash payload_hash job)))
      (simp eq_refl)

-- Another key stays where it is when an event is prepared.
pub prepare_event-keeps_IsFirst :
    (hash : Json → String) (job : NormalizedJob) (run_id : Option String) (target : String)
    (payload_hash : Option String) (now : ℕ) (events : Events) (target' job_id' hash' : String)
    (i : ℕ)
    → IsFirst target' job_id' hash' i events
    → IsFirst target' job_id' hash' i
        (prepare_event hash job run_id target payload_hash now events).1
unfolding prepare_event
prepare_event-keeps_IsFirst hash job run_id target payload_hash now events target' job_id' hash' i
      h =
    reuse_keeps (find_event hash job target (some (hash_or hash payload_hash job)) events)
  where
    key : String
    key = hash_or hash payload_hash job

    reuse_keeps :
        (found : Option (ℕ × SyncEvent))
        → IsFirst target' job_id' hash' i (reuse_or_add job run_id target key now events found).1
    reuse_keeps none = IsFirst-append target' job_id' hash' i events _ h
    reuse_keeps (some (j, event)) =
        IsFirst-modify target' job_id' hash' i j (reused_event run_id now) events (λ other. refl) h
