-- ===== src/Queue.antt =====
-- src/modules/queue/jobs.py and src/modules/queue/worker.py: the database-backed stage queue.
-- The table `stage_jobs` is a list of rows, and a row's reference is its position in the list:
-- rows are never deleted. Times are microseconds.
pub mod Rows
pub mod Invariant
pub mod Claim
pub mod Progress
mod Tests
use bisakerja_scraper.Prelude.{
  ℕ, zero, suc, ◌+◌, ◌*◌, String, Option, none, some, Bool, true, false, ◌&&◌, ◌||◌, List, [], ◌∷◌,
  ◌++◌, ltb, leb, ◌==◌, if◌then◌else◌, length, modify,
}
use bisakerja_scraper.Prelude.Json.{Json, take_chars}

pub data StageJobType : Type 0 where
  scrape_source normalize_raw enrich_batch sync_batch notify_handoff : StageJobType

abbrev pub same_type : StageJobType → StageJobType → Bool
same_type scrape_source scrape_source = true
same_type normalize_raw normalize_raw = true
same_type enrich_batch enrich_batch = true
same_type sync_batch sync_batch = true
same_type notify_handoff notify_handoff = true
same_type _ _ = false

pub data StageJobStatus : Type 0 where
  pending running completed failed dead_letter : StageJobStatus

pub record StageJob : Type 0 where
  pub scrape_run_id : Option String
  pub normalized_job_id : Option String
  pub job_type : StageJobType
  pub status : StageJobStatus
  pub payload_json : Json
  pub correlation_id : String
  pub attempt_count : ℕ
  pub max_attempts : ℕ
  pub available_at : ℕ
  pub locked_at : Option ℕ
  pub completed_at : Option ℕ
  pub error_category : Option String
  pub error_message : Option String
  pub created_at : ℕ

pub record QueueJobInput : Type 0 where
  pub job_type : StageJobType
  pub correlation_id : String
  pub payload : Json
  pub scrape_run_id : Option String
  pub normalized_job_id : Option String
  pub max_attempts : ℕ
  pub available_at : Option ℕ

pub record QueueFailure : Type 0 where
  pub category : String
  pub message : String
  pub retry_delay_seconds : ℕ

abbrev pub Table : Type 0
Table = List StageJob

-- `value or utc_now()` of an optional time.
abbrev pub or_now : Option ℕ → ℕ → ℕ
or_now none now = now
or_now (some t) now = t

abbrev pub queued_row : QueueJobInput → ℕ → StageJob
queued_row item now = record {
  scrape_run_id = item.scrape_run_id;
  normalized_job_id = item.normalized_job_id;
  job_type = item.job_type;
  status = pending;
  payload_json = item.payload;
  correlation_id = item.correlation_id;
  attempt_count = 0;
  max_attempts = item.max_attempts;
  available_at = or_now item.available_at now;
  locked_at = none;
  completed_at = none;
  error_category = none;
  error_message = none;
  created_at = now;
}

-- `none` is the ValueError on `max_attempts`; else the new row's reference and the table.
pub enqueue : QueueJobInput → ℕ → Table → Option (ℕ × Table)
enqueue item now table =
    if ltb item.max_attempts 1 then none else some (length table, table ++ queued_row item now ∷ [])

-- `status.in_([PENDING, FAILED])`
abbrev pub is_open : StageJobStatus → Bool
is_open pending = true
is_open failed = true
is_open _ = false

-- The `where` of `claim_next`.
pub claimable : StageJobType → ℕ → StageJob → Bool
claimable job_type now job =
    same_type job.job_type job_type
    && is_open job.status
    && leb job.available_at now
    && ltb job.attempt_count job.max_attempts

-- The `order_by` of `claim_next`: a row may come before another. The database leaves open which of
-- two rows with equal times comes first; here it is the one that was inserted first.
pub not_after : StageJob → StageJob → Bool
not_after a b =
    ltb a.available_at b.available_at
    || (a.available_at == b.available_at && leb a.created_at b.created_at)

abbrev pub first_of_two : ℕ → StageJob → Option (ℕ × StageJob) → Option (ℕ × StageJob)
first_of_two i a none = some (i, a)
first_of_two i a (some (j, b)) = if not_after a b then some (i, a) else some (j, b)

-- The `select(StageJob).where(...).order_by(...).limit(1)` of `claim_next`, over the rows from
-- position `i` on.
pub select_first : StageJobType → ℕ → ℕ → Table → Option (ℕ × StageJob)
select_first job_type now i [] = none
select_first job_type now i (job ∷ rows) =
    let later = select_first job_type now (suc i) rows in
    if claimable job_type now job then first_of_two i job later else later

abbrev pub claimed_row : ℕ → StageJob → StageJob
claimed_row now job = record job {
  status = running;
  locked_at = some now;
  error_category = none;
  error_message = none;
}

abbrev pub claim_selected : ℕ → Option (ℕ × StageJob) → Table → Option (ℕ × StageJob) × Table
claim_selected now none table = (none, table)
claim_selected now (some (i, job)) table =
    (some (i, claimed_row now job), modify table i (claimed_row now))

-- The claimed row with its reference, if there is one, and the table.
pub claim_next : StageJobType → ℕ → Table → Option (ℕ × StageJob) × Table
claim_next job_type now table = claim_selected now (select_first job_type now 0 table) table

abbrev pub completed_row : ℕ → StageJob → StageJob
completed_row now job = record job {
  status = completed;
  completed_at = some now;
  error_category = none;
  error_message = none;
}

pub complete : ℕ → ℕ → Table → Table
complete now i table = modify table i (completed_row now)

abbrev pub microseconds : ℕ → ℕ
microseconds seconds = seconds * 1000000

-- `fail` on its row; the tests read the counter after the increment.
abbrev pub failed_row : QueueFailure → ℕ → StageJob → StageJob
failed_row failure now job =
    let counted = record job {
      attempt_count = job.attempt_count + 1;
      error_category = some failure.category;
      error_message = some (take_chars 500 failure.message);
      locked_at = none;
    } in
    if leb counted.max_attempts counted.attempt_count
    then record counted { status = dead_letter; completed_at = some now }
    else record counted {
      status = failed;
      available_at = now + microseconds failure.retry_delay_seconds;
    }

pub fail : QueueFailure → ℕ → ℕ → Table → Table
fail failure now i table = modify table i (failed_row failure now)

-- What a handler does: it returns, or raises an exception of a class with a message.
pub data HandlerOutcome : Type 0 where
  returned : HandlerOutcome
  raised : String → String → HandlerOutcome

-- What `process_next_stage_job` does: it returns None, returns a job, or raises the KeyError of
-- `handlers[job_type]`.
pub data Processed : Type 0 where
  idle : Processed
  handled : ℕ → Processed
  no_handler : Processed

abbrev pub Handlers : Type 0
Handlers = StageJobType → Option (StageJob → HandlerOutcome)

abbrev pub finish : HandlerOutcome → ℕ → ℕ → Table → Table
finish returned now i table = complete now i table
finish (raised category message) now i table =
    fail (record { category = category; message = message; retry_delay_seconds = 0 }) now i table

abbrev pub run_handler :
    Option (StageJob → HandlerOutcome) → ℕ → Option (ℕ × StageJob) × Table → Processed × Table
run_handler handler now (none, table) = (idle, table)
run_handler none now (some (i, job), table) = (no_handler, table)
run_handler (some handler) now (some (i, job), table) =
    (handled i, finish (handler job) now i table)

-- `claimed_at` is the clock when the job is claimed and `now` when its handler has ended.
pub process_next_stage_job :
    StageJobType → Handlers → (claimed_at now : ℕ) → Table → Processed × Table
process_next_stage_job job_type handlers claimed_at now table =
    run_handler (handlers job_type) now (claim_next job_type claimed_at table)
