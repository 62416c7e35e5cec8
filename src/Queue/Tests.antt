-- ===== src/Queue/Tests.antt =====
-- The stage queue on a concrete table: two synchronisation jobs, and handlers that always raise.
use bisakerja_scraper.Prelude.{none, some, [], ◌∷◌, ◌≡◌, refl, arith, ◌+◌, ◌≤◌}
use bisakerja_scraper.Prelude.Json.{Json}
use bisakerja_scraper.Queue.{
  QueueJobInput, QueueFailure, Handlers, HandlerOutcome, StageJobType, Table, Processed, queued_row,
  claimed_row, failed_row, claim_next, process_next_stage_job, enqueue, select_first, claimable,
  not_after, fail,
}
use bisakerja_scraper.Queue.Claim.{Claims, claim_next-Claims}
use bisakerja_scraper.Queue.Invariant.{AllValid, process_next_stage_job-IsValid}
use bisakerja_scraper.Queue.Progress.{Handlings, total_claims, Handlings-le-total_claims}

abbrev item : QueueJobInput
item = record {
  job_type = StageJobType.sync_batch;
  correlation_id = "c1";
  payload = Json.null;
  scrape_run_id = none;
  normalized_job_id = none;
  max_attempts = 2;
  available_at = none;
}

abbrev table : Table
table = queued_row item 7 ∷ queued_row item 5 ∷ []

abbrev failing : Handlers
failing _ = some (λ _. HandlerOutcome.raised "TimeoutError" "late")

abbrev late : QueueFailure
late = record { category = "TimeoutError"; message = "late"; retry_delay_seconds = 0 }

abbrev table_once : Table
table_once = queued_row item 7 ∷ failed_row late 10 (claimed_row 9 (queued_row item 5)) ∷ []

once :
    process_next_stage_job StageJobType.sync_batch failing 9 10 table
    ≡ (Processed.handled 1, table_once)
unfolding process_next_stage_job claim_next select_first claimable not_after fail
once = refl

enqueue_zero : enqueue (record item { max_attempts = 0 }) 7 table ≡ none
unfolding enqueue
enqueue_zero = refl

first_claim : claim_next StageJobType.sync_batch 9 table ≡ (
  some (1, claimed_row 9 (queued_row item 5)),
  queued_row item 7 ∷ claimed_row 9 (queued_row item 5) ∷ [],
)
unfolding claim_next select_first claimable not_after
first_claim = refl

claim_next-Claims_example :
    Claims StageJobType.sync_batch 9 table 1
      (claimed_row 9 (queued_row item 5))
      (queued_row item 7 ∷ claimed_row 9 (queued_row item 5) ∷ [])
claim_next-Claims_example =
    claim_next-Claims StageJobType.sync_batch 9 table 1 (claimed_row 9 (queued_row item 5))
      (queued_row item 7 ∷ claimed_row 9 (queued_row item 5) ∷ []) first_claim

table-AllValid : AllValid table
table-AllValid = ground arith

process_next_stage_job-IsValid_example :
    AllValid (process_next_stage_job StageJobType.sync_batch failing 9 10 table).1
process_next_stage_job-IsValid_example =
    process_next_stage_job-IsValid StageJobType.sync_batch failing 9 10 table table-AllValid

Handlings-le-total_claims_example : 1 + total_claims table_once ≤ total_claims table
Handlings-le-total_claims_example =
    Handlings-le-total_claims
      (Handlings.next StageJobType.sync_batch failing 9 10 once Handlings.done)
