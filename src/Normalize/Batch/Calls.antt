-- ===== src/Normalize/Batch/Calls.antt =====
-- What comes of a prompt's raw jobs: the check of the answer's identifiers leaves none out.
use bisakerja_scraper.Prelude.{
  suc, ◌≡◌, refl, ap, Option, none, some, true, List, [], ◌∷◌, length, All, arith, same_text,
  same_text_iff, Bool-cases, inl, inr,
}
use bisakerja_scraper.Models.{RawJob}
use bisakerja_scraper.Persistence.{CanonicalJob}
use bisakerja_scraper.Normalize.{Mapped, mapped, failed, Stage, Progress}
use bisakerja_scraper.Normalize.Ai.{
  Ai, same_ids, AiBatchItemResult, AiOutcome, results, ai_raised, AiFailure,
  normalize_error_from_ai_exception,
}
use bisakerja_scraper.Normalize.Ai.Answer.{Answers}
use bisakerja_scraper.Normalize.Batch.Steps.{
  Copes, Settles, log_failure-Settles, log_success-Settles, settle_next,
}
use bisakerja_scraper.Normalize.Batch.{
  commit, log_failure, fail_all, find_raw_job, apply_job, apply_results, on_outcome, apply_single,
  single_requests,
}

module _ (s : Stage) (ai : Ai) where
  fail_all-Settles :
      (e : AiFailure) (prompt : List RawJob) (p : Progress)
      → All (Copes s ai) prompt
      → Settles (length prompt) p (fail_all s ai e prompt p)
  unfolding fail_all
  fail_all-Settles e [] p copes = (p, refl, (refl, omega arith, omega arith, refl))
  fail_all-Settles e (raw_job ∷ rest) p copes =
      let error = normalize_error_from_ai_exception raw_job.external_id e in
      settle_next s ai (length rest) p (log_failure s ai raw_job error p) (fail_all s ai e rest)
        (log_failure-Settles s ai raw_job error p copes.0)
        (λ next. fail_all-Settles e rest next copes.1)

  -- The item's raw job is in the prompt.
  abbrev Found : List RawJob → AiBatchItemResult → Type 0
  Found prompt item =
      (raw_job : RawJob) × (find_raw_job item.item_id prompt ≡ some raw_job) × Copes s ai raw_job

  Found-later :
      (raw_job : RawJob) (prompt : List RawJob) (item : AiBatchItemResult)
      → Copes s ai raw_job
      → Found prompt item
      → Found (raw_job ∷ prompt) item
  unfolding find_raw_job
  Found-later raw_job prompt item copes (found, e, fits) =
      elim (Bool-cases (same_text raw_job.id item.item_id)) [
        | inl same ↦ rw same (raw_job, refl, copes)
        | inr other ↦ rw other (found, e, fits)
      ]

  All-Found-later :
      (raw_job : RawJob) (prompt : List RawJob) (items : List AiBatchItemResult)
      → Copes s ai raw_job
      → All (Found prompt) items
      → All (Found (raw_job ∷ prompt)) items
  All-Found-later raw_job prompt [] copes found = tt
  All-Found-later raw_job prompt (item ∷ items) copes found = (
    Found-later raw_job prompt item copes found.0,
    All-Found-later raw_job prompt items copes found.1,
  )

  same_ids-Found :
      (prompt : List RawJob) (items : List AiBatchItemResult)
      → All (Copes s ai) prompt
      → same_ids prompt items ≡ true
      → All (Found prompt) items × (length items ≡ length prompt)
  unfolding same_ids find_raw_job
  same_ids-Found [] [] copes h = (tt, refl)
  same_ids-Found [] (item ∷ items) copes h = absurd (cc)
  same_ids-Found (raw_job ∷ prompt) [] copes h = absurd (cc)
  same_ids-Found (raw_job ∷ prompt) (item ∷ items) copes h =
      let rest = same_ids-Found prompt items copes.1 (ground arith) in
      let same : same_text raw_job.id item.item_id ≡ true =
        ground
          (arith, same_text_iff raw_job.id item.item_id, same_text_iff item.item_id raw_job.id) in
      let head : Found (raw_job ∷ prompt) item = rw same (raw_job, refl, copes.0) in
      ((head, All-Found-later raw_job prompt items copes.0 rest.0), ap suc rest.1)

  apply_job-Settles :
      (raw_job : RawJob) (item : AiBatchItemResult) (job : Option CanonicalJob) (p : Progress)
      → Copes s ai raw_job
      → Settles 1 p (apply_job s ai raw_job item job p)
  apply_job-Settles raw_job item none p copes = log_failure-Settles s ai raw_job _ p copes
  apply_job-Settles raw_job item (some job) p copes = log_success-Settles s ai raw_job job p copes

  apply_results-Settles :
      (prompt : List RawJob) (items : List AiBatchItemResult) (p : Progress)
      → All (Found prompt) items
      → Settles (length items) p (apply_results s ai prompt items p)
  unfolding apply_results
  apply_results-Settles prompt [] p found = (p, refl, (refl, omega arith, omega arith, refl))
  apply_results-Settles prompt (item ∷ items) p ((raw_job, e, copes), found) = rw e (
      settle_next s ai (length items) p (apply_job s ai raw_job item item.normalized_job p)
        (apply_results s ai prompt items)
        (apply_job-Settles raw_job item item.normalized_job p copes)
        (λ next. apply_results-Settles prompt items next found))

  apply_single-Settles :
      (raw_job : RawJob) (outcome : Mapped) (p : Progress)
      → Copes s ai raw_job
      → Settles 1 p (apply_single s ai raw_job outcome p)
  apply_single-Settles raw_job (failed e) p copes = log_failure-Settles s ai raw_job e p copes
  apply_single-Settles raw_job (mapped job) p copes = log_success-Settles s ai raw_job job p copes

  pub single_requests-Settles :
      (prompt : List RawJob) (p : Progress)
      → All (Copes s ai) prompt
      → Settles (length prompt) p (single_requests s ai prompt p)
  unfolding single_requests
  single_requests-Settles [] p copes = (p, refl, (refl, omega arith, omega arith, refl))
  single_requests-Settles (raw_job ∷ rest) p copes =
      settle_next s ai (length rest) p
        (apply_single s ai raw_job (ai.map_with_ai raw_job) (commit p)) (single_requests s ai rest)
        (apply_single-Settles raw_job (ai.map_with_ai raw_job) (commit p) copes.0)
        (λ next. single_requests-Settles rest next copes.1)

  pub on_outcome-Settles :
      (prompt : List RawJob) (outcome : AiOutcome) (p : Progress)
      → All (Copes s ai) prompt
      → Answers prompt outcome
      → Settles (length prompt) p (on_outcome s ai prompt outcome p)
  on_outcome-Settles prompt (ai_raised e) p copes answers = fail_all-Settles e prompt p copes
  on_outcome-Settles prompt (results items) p copes answers =
      let (found, size) = same_ids-Found prompt items copes answers in
      rw size at (apply_results-Settles prompt items p found)
