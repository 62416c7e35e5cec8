-- ===== src/Normalize/Batch/Steps.antt =====
-- The steps of a batch go on, and count one raw job each.
use bisakerja_scraper.Prelude.{
  ℕ, zero, suc, ◌+◌, ◌≤◌, ◌≡◌, le→leb, refl, Option, some, Bool, true, false, List, [], ◌∷◌, ◌>>=◌,
  if◌then◌else◌, length, All, arith, Bool-cases, inl, inr,
}
use bisakerja_scraper.Models.{RawJob}
use bisakerja_scraper.Persistence.{CanonicalJob}
use bisakerja_scraper.Normalize.{
  Raised, Stores, Work, db_operation_with_retry, Mapped, mapped, failed, Stage, Progress,
  note_success, upsert_operation,
}
use bisakerja_scraper.Normalize.Handled.{upsert_normalized_job-rows_of}
use bisakerja_scraper.Normalize.Counts.{Advanced, note_failure-Advanced}
use bisakerja_scraper.Normalize.Ai.{Ai}
use bisakerja_scraper.Normalize.Batch.{
  upsert_with_retry, has_row, prepare_mapped, prepare, log_failure, log_success,
}

-- The upsert of a raw job meets at most one OperationalError, and its log none.
abbrev pub Copes : Stage → Ai → RawJob → Type 0
Copes s ai raw_job = (s.operational_errors raw_job ≤ 1) × (ai.log_errors raw_job ≡ 0)

-- An operation that is repeated at most once succeeds, with what holds after it.
db_operation_with_retry-keeps :
    (errors : ℕ) (operation : Stores → Stores) (test : Stores → Bool)
    → ((stores : Stores) → test (operation stores) ≡ true)
    → (work : Work) → errors ≤ 1
    → (after : Work) × (db_operation_with_retry 2 errors operation work ≡ some after)
      × (test after.current ≡ true)
unfolding db_operation_with_retry
db_operation_with_retry-keeps zero operation test keeps work h = (_, refl, keeps work.current)
db_operation_with_retry-keeps (suc zero) operation test keeps work h =
    (_, refl, keeps work.committed)
db_operation_with_retry-keeps (suc (suc errors)) operation test keeps work h = absurd (omega arith)

-- The loop goes on, after so many raw jobs more.
abbrev pub Settles : ℕ → Progress → Option Progress → Type 0
Settles n p outcome = (after : Progress) × (outcome ≡ some after) × Advanced n p after

module _ (s : Stage) (ai : Ai) where
  pub log_failure-Settles :
      (raw_job : RawJob) (e : Raised) (p : Progress)
      → Copes s ai raw_job
      → Settles 1 p (log_failure s ai raw_job e p)
  unfolding db_operation_with_retry
  log_failure-Settles raw_job e p copes =
      rw copes.1 (_, refl, note_failure-Advanced s raw_job e p.work p)

  -- The row that was just upserted is there.
  upsert_with_retry-has_row :
      (raw_job : RawJob) (job : CanonicalJob) (work : Work)
      → Copes s ai raw_job
      → (after : Work) × (upsert_with_retry s raw_job job work ≡ some after)
        × (has_row (some job) after.current ≡ true)
  upsert_with_retry-has_row raw_job job work copes =
      db_operation_with_retry-keeps (s.operational_errors raw_job) (upsert_operation s raw_job job)
        (has_row (some job))
        (λ stores. le→leb 1 _ (
          upsert_normalized_job-rows_of (s.new_id raw_job) (some raw_job.id) job
            stores.normalized_jobs))
        work copes.0

  pub log_success-Settles :
      (raw_job : RawJob) (job : CanonicalJob) (p : Progress)
      → Copes s ai raw_job
      → Settles 1 p (log_success s ai raw_job job p)
  unfolding db_operation_with_retry
  log_success-Settles raw_job job p copes =
      let (work, ok, present) = upsert_with_retry-has_row raw_job job p.work copes in
      rw (ok, copes.1, present)
        (note_success s raw_job work p, refl, (refl, omega arith, omega arith, refl))

  -- Some raw jobs are settled, and the others are in the prompt.
  abbrev pub Prepares : ℕ → Progress → Option (List RawJob × Progress) → Type 0
  Prepares n p outcome =
      (prepared : List RawJob × Progress) × (settled : ℕ) × (outcome ≡ some prepared)
      × (settled + length prepared.0 ≡ n)
      × Advanced settled p prepared.1
      × All (Copes s ai) prepared.0

  prepare_mapped-total :
      (raw_job : RawJob) (outcome : Mapped) (p : Progress)
      → Copes s ai raw_job
      → (asks : Bool) × (after : Progress) × (prepare_mapped s ai raw_job outcome p
          ≡ some (asks, after))
        × Advanced (if asks then 0 else 1) p after
  prepare_mapped-total raw_job (failed e) p copes =
      (false, _, refl, note_failure-Advanced s raw_job e p.work p)
  prepare_mapped-total raw_job (mapped job) p copes = elim (Bool-cases (ai.has_prompt raw_job)) [
    | inl asks ↦ rw asks (true, p, refl, (refl, omega arith, omega arith, refl))
    | inr plain ↦
        let (work, ok, present) = upsert_with_retry-has_row raw_job job p.work copes in
        rw (plain, ok)
          (false, note_success s raw_job work p, refl, (refl, omega arith, omega arith, refl))
  ]

  pub Advanced-trans :
      (n m k : ℕ) (p middle after : Progress)
      → n + m ≡ k
      → Advanced n p middle
      → Advanced m middle after
      → Advanced k p after
  Advanced-trans n m k p middle after e first second = (
    omega (arith, first.0, second.0),
    omega (arith, e, first.1, second.1),
    omega (arith, first.2, second.2),
    omega (arith, first.3, second.3),
  )

  with_asked :
      (asks : Bool) (raw_job : RawJob) (prompt : List RawJob) (settled n : ℕ)
      (p next after : Progress)
      → Copes s ai raw_job
      → Advanced (if asks then 0 else 1) p next
      → settled + length prompt ≡ n
      → Advanced settled next after
      → All (Copes s ai) prompt
      → Prepares (suc n) p (some (if asks then raw_job ∷ prompt else prompt, after))
  with_asked true raw_job prompt settled n p next after copes one size all fits = (
    (raw_job ∷ prompt, after),
    settled,
    refl,
    omega (arith, size),
    Advanced-trans 0 settled settled p next after (omega arith) one all,
    (copes, fits),
  )
  with_asked false raw_job prompt settled n p next after copes one size all fits = (
    (prompt, after),
    settled + 1,
    refl,
    omega (arith, size),
    Advanced-trans 1 settled (settled + 1) p next after (omega arith) one all,
    fits,
  )

  pub prepare-Prepares :
      (raw_jobs : List RawJob) (p : Progress)
      → All (Copes s ai) raw_jobs
      → Prepares (length raw_jobs) p (prepare s ai raw_jobs p)
  unfolding prepare
  prepare-Prepares [] p copes =
      (([], p), 0, refl, omega arith, (refl, omega arith, omega arith, refl), tt)
  prepare-Prepares (raw_job ∷ rest) p copes =
      let (asks, next, e, one) = prepare_mapped-total raw_job (s.map_raw_job raw_job) p copes.0 in
      let (prepared, settled, f, size, all, fits) = prepare-Prepares rest next copes.1 in
      rw (e, f)
        (with_asked asks raw_job prepared.0 settled (length rest) p next prepared.1 copes.0 one size
          all fits)

  -- One raw job, and then the others.
  pub settle_next :
      (n : ℕ) (p : Progress) (first : Option Progress) (others : Progress → Option Progress)
      → Settles 1 p first
      → ((next : Progress) → Settles n next (others next))
      → Settles (suc n) p (first >>= others)
  settle_next n p first others (next, ok, one) rest =
      let (after, done, all) = rest next in
      (after, rw ok done, Advanced-trans 1 n (suc n) p next after (omega arith) one all)
