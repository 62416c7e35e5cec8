-- ===== src/Normalize/Lost.antt =====
-- What an OperationalError costs the raw jobs before it.
use bisakerja_scraper.Prelude.{
  ℕ, zero, suc, ◌+◌, ◌≡◌, ◌∙◌, refl, ap, Option, some, none, List, [], ◌∷◌, ◌++◌,
}
use bisakerja_scraper.Models.{RawJob}
use bisakerja_scraper.Persistence.{CanonicalJob, upsert_normalized_job}
use bisakerja_scraper.Normalize.{
  Work, rolled_back, Mapped, mapped, failed, Stage, Progress, upsert_operation, note_failure,
  after_upsert, normalize_mapped, normalize_one, normalize_all, open_gate, started,
  normalize_source, db_operation_with_retry,
}

-- The loop commits nothing.
after_upsert-committed :
    (s : Stage) (raw_job : RawJob) (job : CanonicalJob) (attempts errors : ℕ) (work : Work)
    (p : Progress)
    → work.committed ≡ p.work.committed
    → (after_upsert s raw_job
        (db_operation_with_retry attempts errors (upsert_operation s raw_job job) work)
        p).work.committed
      ≡ p.work.committed
unfolding db_operation_with_retry
after_upsert-committed s raw_job job zero errors work p e = refl
after_upsert-committed s raw_job job (suc attempts) zero work p e = e
after_upsert-committed s raw_job job (suc attempts) (suc errors) work p e =
    after_upsert-committed s raw_job job attempts errors (rolled_back work) p e

normalize_mapped-committed :
    (s : Stage) (raw_job : RawJob) (outcome : Mapped) (p : Progress)
    → (normalize_mapped s raw_job outcome p).work.committed ≡ p.work.committed
normalize_mapped-committed s raw_job (failed e) p = refl
normalize_mapped-committed s raw_job (mapped job) p =
    after_upsert-committed s raw_job job 2 (s.operational_errors raw_job) p.work p refl

normalize_all-committed :
    (s : Stage) (raw_jobs : List RawJob) (p : Progress)
    → (normalize_all s raw_jobs p).work.committed ≡ p.work.committed
unfolding normalize_all normalize_one
normalize_all-committed s [] p = refl
normalize_all-committed s (raw_job ∷ rest) p =
    normalize_all-committed s rest (normalize_one s raw_job p)
    ∙ normalize_mapped-committed s raw_job (s.map_raw_job raw_job) p

normalize_all-append :
    (s : Stage) (first second : List RawJob) (p : Progress)
    → normalize_all s (first ++ second) p ≡ normalize_all s second (normalize_all s first p)
unfolding normalize_all
normalize_all-append s [] second p = refl
normalize_all-append s (raw_job ∷ first) second p =
    normalize_all-append s first second (normalize_one s raw_job p)

-- The same tables and the same number of normalised raw jobs.
abbrev SameWork : Progress → Progress → Type 0
SameWork p q = (p.work ≡ q.work) × (p.counts.normalized ≡ q.counts.normalized)

after_upsert-SameWork :
    (s : Stage) (raw_job : RawJob) (outcome : Option Work) (p q : Progress)
    → SameWork p q
    → SameWork (after_upsert s raw_job outcome p) (after_upsert s raw_job outcome q)
after_upsert-SameWork s raw_job (some work) p q (e, f) = (refl, ap (λ n. n + 1) f)
after_upsert-SameWork s raw_job none p q (e, f) =
    (ap (λ work. (note_failure s raw_job s.operational_error (rolled_back work) p).work) e, f)

normalize_mapped-SameWork :
    (s : Stage) (raw_job : RawJob) (outcome : Mapped) (p q : Progress)
    → SameWork p q
    → SameWork (normalize_mapped s raw_job outcome p) (normalize_mapped s raw_job outcome q)
normalize_mapped-SameWork s raw_job (failed e) p q (same, f) =
    (ap (λ work. (note_failure s raw_job e work p).work) same, f)
normalize_mapped-SameWork s raw_job (mapped job) p q (same, f) =
    let result : Work → Option Work = λ work.
      db_operation_with_retry 2 (s.operational_errors raw_job) (upsert_operation s raw_job job)
        work in
    let (e, g) = after_upsert-SameWork s raw_job (result p.work) p q (same, f) in
    let swap = ap (λ work. after_upsert s raw_job (result work) q) same in
    (e ∙ ap (λ p. p.work) swap, g ∙ ap (λ p. p.counts.normalized) swap)

normalize_all-SameWork :
    (s : Stage) (raw_jobs : List RawJob) (p q : Progress)
    → SameWork p q
    → SameWork (normalize_all s raw_jobs p) (normalize_all s raw_jobs q)
unfolding normalize_all normalize_one
normalize_all-SameWork s [] p q same = same
normalize_all-SameWork s (raw_job ∷ rest) p q same =
    normalize_all-SameWork s rest (normalize_one s raw_job p) (normalize_one s raw_job q)
      (normalize_mapped-SameWork s raw_job (s.map_raw_job raw_job) p q same)

-- What a raw job whose upsert fails once and is repeated leaves of the work before it.
normalize_mapped-lost :
    (s : Stage) (raw_job : RawJob) (job : CanonicalJob) (p : Progress)
    → s.operational_errors raw_job ≡ 1
    → let after = normalize_mapped s raw_job (mapped job) p in
      (after.work.current.normalized_jobs
        ≡ (upsert_normalized_job
            (s.new_id raw_job)
            (some raw_job.id)
            job
            p.work.committed.normalized_jobs).2)
      × (after.counts.normalized ≡ p.counts.normalized + 1)
unfolding db_operation_with_retry
normalize_mapped-lost s raw_job job p once = rw once (refl, refl)

-- If the upsert of the last raw job of a source raises one OperationalError, its mapping succeeds and no
-- gate is set, then the normalised rows of all the raw jobs before it in the source are lost: what is
-- committed is the table before the source with only that last job's row upserted, although the raw jobs
-- before it count as normalised as they would without it.
pub normalize_source-lost :
    (s : Stage) (earlier : List RawJob) (raw_job : RawJob) (job : CanonicalJob) (work : Work)
    → s.map_raw_job raw_job ≡ mapped job
    → s.operational_errors raw_job ≡ 1
    → let (result, after) = normalize_source s open_gate (earlier ++ raw_job ∷ []) work in
      (after.committed.normalized_jobs
        ≡ (upsert_normalized_job
            (s.new_id raw_job)
            (some raw_job.id)
            job
            work.committed.normalized_jobs).2)
      × (result.counts.normalized
          ≡ (normalize_source s open_gate earlier work).0.counts.normalized + 1)
unfolding normalize_source normalize_all normalize_one
normalize_source-lost s earlier raw_job job work maps once =
    let raw_jobs = earlier ++ raw_job ∷ [] in
    let p = normalize_all s earlier (started raw_jobs raw_jobs work) in
    let (lost, counted) = normalize_mapped-lost s raw_job job p once in
    let still = normalize_all-committed s earlier (started raw_jobs raw_jobs work) in
    let same =
      normalize_all-SameWork s earlier (started raw_jobs raw_jobs work)
        (started earlier earlier work) (refl, refl) in
    rw (normalize_all-append s earlier (raw_job ∷ []) (started raw_jobs raw_jobs work), maps)
      (
        lost
            ∙ ap
                (λ stores.
                  (upsert_normalized_job (s.new_id raw_job) (some raw_job.id) job
                    stores.normalized_jobs).2)
                still,
        counted ∙ ap (λ n. n + 1) same.1,
      )
