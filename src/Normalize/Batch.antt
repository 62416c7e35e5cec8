-- ===== src/Normalize/Batch.antt =====
-- src/jobs/pipeline.py: `_normalize_source` with an AI client, in batches. `none` is an exception that leaves
-- the stage. Log rows are left out, but not the errors of their insertion; a commit does not fail.
pub mod Steps
pub mod Calls
pub mod Sound
mod Tests
use bisakerja_scraper.Prelude.{
  ℕ, ◌+◌, String, Option, none, some, Bool, true, false, List, [], ◌∷◌, ◌++◌, ◌>>=◌, if◌then◌else◌,
  same_text, length, keep, leb,
}
use bisakerja_scraper.Prelude.Chunks.{chunked}
use bisakerja_scraper.Models.{RawJob}
use bisakerja_scraper.Persistence.{CanonicalJob, is_normalized}
use bisakerja_scraper.Normalize.{
  Raised, Stores, Work, db_operation_with_retry, Mapped, mapped, failed, Stage, Progress,
  note_failure, note_success, upsert_operation, started, finished, Gate, pass, SourceResult,
  normalize_source,
}
use bisakerja_scraper.Normalize.Ai.{
  Ai, AiBatchItemResult, AiOutcome, results, ai_raised, AiFailure, normalize_jobs,
  normalize_error_from_ai_exception, normalize_error_from_batch_item,
}

-- `_commit_normalize_progress`
abbrev pub commit : Progress → Progress
commit p = record p { work = record { current = p.work.current; committed = p.work.current } }

-- The foreign key of a log row: its `normalized_job_id` is that of a row.
abbrev pub has_row : Option CanonicalJob → Stores → Bool
has_row none stores = true
has_row (some job) stores =
    leb 1 (length (keep (is_normalized job.platform job.external_job_id) stores.normalized_jobs))

abbrev pub insert_log : Option CanonicalJob → Option Work → Option Work
insert_log job none = none
insert_log job (some work) = if has_row job work.current then some work else none

-- `_record_normalization_ai_log`, of a failure or of a job's row; an IntegrityError is not retried.
abbrev pub record_log : Ai → RawJob → Option CanonicalJob → Work → Option Work
record_log ai raw_job job work =
    insert_log job (db_operation_with_retry 2 (ai.log_errors raw_job) (λ stores. stores) work)

abbrev pub upsert_with_retry : Stage → RawJob → CanonicalJob → Work → Option Work
upsert_with_retry s raw_job job work =
    db_operation_with_retry 2 (s.operational_errors raw_job) (upsert_operation s raw_job job) work

-- A raw job without a prompt is stored as it was mapped.
abbrev pub store_mapped : Stage → RawJob → CanonicalJob → Progress → Option (Bool × Progress)
store_mapped s raw_job job p = do
  work ← upsert_with_retry s raw_job job p.work
  some (false, note_success s raw_job work p)

-- A raw job of a batch before the call: whether it is in the prompt.
abbrev pub prepare_mapped : Stage → Ai → RawJob → Mapped → Progress → Option (Bool × Progress)
prepare_mapped s ai raw_job (failed e) p = some (false, note_failure s raw_job e p.work p)
prepare_mapped s ai raw_job (mapped job) p =
    if ai.has_prompt raw_job then some (true, p) else store_mapped s raw_job job p

-- The first loop of `_normalize_batch`: the prompt's raw jobs.
pub prepare : Stage → Ai → List RawJob → Progress → Option (List RawJob × Progress)
prepare s ai [] p = some ([], p)
prepare s ai (raw_job ∷ rest) p = do
  (asks, p') ← prepare_mapped s ai raw_job (s.map_raw_job raw_job) p
  (prompt, p'') ← prepare s ai rest p'
  some (if asks then raw_job ∷ prompt else prompt, p'')

-- A failure with its log.
abbrev pub log_failure : Stage → Ai → RawJob → Raised → Progress → Option Progress
log_failure s ai raw_job e p =
    let noted = note_failure s raw_job e p.work p in
    do work ← record_log ai raw_job none noted.work; some (record noted { work = work })

-- A success: the upsert, its log, the quarantine and the counts.
abbrev pub log_success : Stage → Ai → RawJob → CanonicalJob → Progress → Option Progress
log_success s ai raw_job job p = do
  work ← upsert_with_retry s raw_job job p.work
  logged ← record_log ai raw_job (some job) work
  some (note_success s raw_job logged p)

-- All raw jobs of the prompt fail with the call.
pub fail_all : Stage → Ai → AiFailure → List RawJob → Progress → Option Progress
fail_all s ai e [] p = some p
fail_all s ai e (raw_job ∷ rest) p = do
  p' ← log_failure s ai raw_job (normalize_error_from_ai_exception raw_job.external_id e) p
  fail_all s ai e rest p'

-- `raw_by_item_id`
pub find_raw_job : (item_id : String) → List RawJob → Option RawJob
find_raw_job item_id [] = none
find_raw_job item_id (raw_job ∷ rest) =
    let later = find_raw_job item_id rest in
    if same_text raw_job.id item_id then some raw_job else later

abbrev pub apply_job :
    Stage → Ai → RawJob → AiBatchItemResult → Option CanonicalJob → Progress → Option Progress
apply_job s ai raw_job item none p =
    log_failure s ai raw_job
      (normalize_error_from_batch_item raw_job.external_id item.error_code item.error_message) p
apply_job s ai raw_job item (some job) p = log_success s ai raw_job job p

-- The loop over `batch_results`.
pub apply_results : Stage → Ai → List RawJob → List AiBatchItemResult → Progress → Option Progress
apply_results s ai prompt [] p = some p
apply_results s ai prompt (item ∷ items) p = do
  raw_job ← find_raw_job item.item_id prompt
  p' ← apply_job s ai raw_job item item.normalized_job p
  apply_results s ai prompt items p'

abbrev pub on_outcome : Stage → Ai → List RawJob → AiOutcome → Progress → Option Progress
on_outcome s ai prompt (results items) p = apply_results s ai prompt items p
on_outcome s ai prompt (ai_raised e) p = fail_all s ai e prompt p

abbrev pub apply_single : Stage → Ai → RawJob → Mapped → Progress → Option Progress
apply_single s ai raw_job (failed e) p = log_failure s ai raw_job e p
apply_single s ai raw_job (mapped job) p = log_success s ai raw_job job p

-- `_normalize_batch_with_single_requests`
pub single_requests : Stage → Ai → List RawJob → Progress → Option Progress
single_requests s ai [] p = some p
single_requests s ai (raw_job ∷ rest) p = do
  p' ← apply_single s ai raw_job (ai.map_with_ai raw_job) (commit p)
  single_requests s ai rest p'

-- The prompt's raw jobs; without any, no call is made.
abbrev pub ask : Stage → Ai → List RawJob → Progress → Option Progress
ask s ai [] p = some p
ask s ai (raw_job ∷ rest) p =
    let prompt = raw_job ∷ rest in
    if ai.has_normalize_jobs
    then on_outcome s ai prompt (normalize_jobs ai prompt) (commit p)
    else single_requests s ai prompt p

pub normalize_batch : Stage → Ai → List RawJob → Progress → Option Progress
normalize_batch s ai raw_batch p = do (prompt, p') ← prepare s ai raw_batch p; ask s ai prompt p'

-- `_normalize_source_with_ai_batch`, without its pauses.
pub normalize_batches : Stage → Ai → List (List RawJob) → Progress → Option Progress
normalize_batches s ai [] p = some p
normalize_batches s ai (raw_batch ∷ rest) p = do
  p' ← normalize_batch s ai raw_batch (commit p)
  normalize_batches s ai rest (commit p')

-- `_normalize_source` of the stored raw jobs, with an AI client or without.
pub normalize_source_with :
    Stage → Option Ai → Gate → List RawJob → Work → Option (SourceResult × Work)
normalize_source_with s none gate raw_jobs work = some (normalize_source s gate raw_jobs work)
normalize_source_with s (some ai) gate raw_jobs work =
    let eligible = pass gate raw_jobs in
    do
      p ← normalize_batches s ai (chunked ai.batch_size eligible) (started raw_jobs eligible work)
      some (finished p)
