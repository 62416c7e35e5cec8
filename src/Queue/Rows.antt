-- ===== src/Queue/Rows.antt =====
-- The rows of the stage queue: what each status says of the other columns.
use bisakerja_scraper.Prelude.{ℕ, ◌<◌, ◌≡◌, ◌≢◌, none, arith}
use bisakerja_scraper.Queue.{
  StageJob, StageJobStatus, pending, running, completed, failed, dead_letter, QueueJobInput,
  QueueFailure, queued_row, claimed_row, completed_row, failed_row,
}

-- The columns that go with a status.
abbrev pub Fits : StageJobStatus → StageJob → Type 0
Fits pending job =
    (job.attempt_count < job.max_attempts) × (job.locked_at ≡ none) × (job.completed_at ≡ none)
Fits running job =
    (job.attempt_count < job.max_attempts) × (job.locked_at ≢ none) × (job.completed_at ≡ none)
Fits completed job =
    (job.attempt_count < job.max_attempts) × (job.locked_at ≢ none) × (job.completed_at ≢ none)
Fits failed job =
    (job.attempt_count < job.max_attempts) × (job.locked_at ≡ none) × (job.completed_at ≡ none)
Fits dead_letter job =
    (job.attempt_count ≡ job.max_attempts) × (job.locked_at ≡ none) × (job.completed_at ≢ none)

abbrev pub IsValid : StageJob → Type 0
IsValid job = Fits job.status job

pub queued_row-IsValid :
    (item : QueueJobInput) (now : ℕ) → 0 < item.max_attempts → IsValid (queued_row item now)
queued_row-IsValid item now h = ground arith

pub claimed_row-IsValid :
    (now : ℕ) (job : StageJob)
    → job.attempt_count < job.max_attempts
    → job.completed_at ≡ none
    → IsValid (claimed_row now job)
claimed_row-IsValid now job h k = ground arith

pub completed_row-IsValid :
    (now : ℕ) (job : StageJob)
    → job.status ≡ running
    → IsValid job
    → IsValid (completed_row now job)
completed_row-IsValid now job e v = ground arith

pub failed_row-IsValid :
    (failure : QueueFailure) (now : ℕ) (job : StageJob)
    → job.status ≡ running
    → IsValid job
    → IsValid (failed_row failure now job)
failed_row-IsValid failure now job e v = ground arith
