-- ===== src/Queue/Progress.antt =====
-- Handling a job uses up its attempts: the queue cannot run handlers without end.
use bisakerja_scraper.Prelude.{
  ℕ, ◌+◌, ◌-◌, ◌≤◌, ◌<◌, ◌≡◌, Option, none, some, true, [], ◌∷◌, arith, get_elem?, modify,
  Option-cases, inl, inr, zero, suc, ap,
}
use bisakerja_scraper.Queue.{
  StageJob, StageJobStatus, completed, dead_letter, StageJobType, Table, HandlerOutcome, returned,
  raised, QueueFailure, Handlers, Processed, handled, claimable, claimed_row, completed_row,
  failed_row, select_first, claim_next, complete, fail, finish, run_handler, process_next_stage_job,
}
use bisakerja_scraper.Queue.Invariant.{selected_row, claimed-get_elem?}
use bisakerja_scraper.Queue.Claim.{select_first-Selected}

-- The claims that a row can still have: a finished row has none.
abbrev pub claims_at : StageJobStatus → StageJob → ℕ
claims_at completed job = 0
claims_at dead_letter job = 0
claims_at _ job = job.max_attempts - job.attempt_count

abbrev pub claims_left : StageJob → ℕ
claims_left job = claims_at job.status job

pub total_claims : Table → ℕ
total_claims [] = 0
total_claims (job ∷ rows) = claims_left job + total_claims rows

total_claims-modify :
    (table : Table) (i : ℕ) (f : StageJob → StageJob) (job : StageJob)
    → get_elem? table i ≡ some job
    → total_claims (modify table i f) + claims_left job ≡ total_claims table + claims_left (f job)
unfolding total_claims
total_claims-modify [] i f job e = absurd (cc)
total_claims-modify (a ∷ rows) zero f job e =
    let same : a ≡ job = cc in omega (arith, ap claims_left same, ap (λ r. claims_left (f r)) same)
total_claims-modify (a ∷ rows) (suc i) f job e = omega (arith, total_claims-modify rows i f job e)

claimable-has_claims :
    (job_type : StageJobType) (now : ℕ) (job : StageJob)
    → claimable job_type now job ≡ true
    → (0 < claims_left job) × (claims_left (claimed_row now job) ≡ claims_left job)
unfolding claimable
claimable-has_claims job_type now job h = ground arith

failed_row-claims :
    (failure : QueueFailure) (now claimed_at : ℕ) (job : StageJob)
    → 0 < claims_left (claimed_row claimed_at job)
    → claims_left (failed_row failure now (claimed_row claimed_at job))
      < claims_left (claimed_row claimed_at job)
failed_row-claims failure now claimed_at job h = ground arith

finish-claims :
    (outcome : HandlerOutcome) (now claimed_at i : ℕ) (table : Table) (job : StageJob)
    → get_elem? table i ≡ some (claimed_row claimed_at job)
    → 0 < claims_left (claimed_row claimed_at job)
    → total_claims (finish outcome now i table) < total_claims table
unfolding complete fail
finish-claims returned now claimed_at i table job e h =
    omega (arith, total_claims-modify table i (completed_row now) (claimed_row claimed_at job) e)
finish-claims (raised category message) now claimed_at i table job e h =
    let failure : QueueFailure = record {
      category = category;
      message = message;
      retry_delay_seconds = 0;
    } in
    omega (
      arith,
      total_claims-modify table i (failed_row failure now) (claimed_row claimed_at job) e,
      failed_row-claims failure now claimed_at job h,
    )

run_handler-claims :
    (handler : Option (StageJob → HandlerOutcome)) (now claimed_at i : ℕ) (table : Table)
    (job : StageJob) (j : ℕ) (table' : Table)
    → get_elem? table i ≡ some (claimed_row claimed_at job)
    → 0 < claims_left (claimed_row claimed_at job)
    → run_handler handler now (some (i, claimed_row claimed_at job), table) ≡ (handled j, table')
    → total_claims table' < total_claims table
run_handler-claims none now claimed_at i table job j table' e h r = absurd (cc)
run_handler-claims (some handler) now claimed_at i table job j table' e h r = omega (
  arith,
  finish-claims (handler (claimed_row claimed_at job)) now claimed_at i table job e h,
  ap (λ (p : Processed × Table). total_claims p.1) r,
)

-- Handling one job, whether its handler returns or raises, lowers the number of claims left.
pub process_next_stage_job-claims :
    (job_type : StageJobType) (handlers : Handlers) (claimed_at now : ℕ) (table : Table) (i : ℕ)
    (table' : Table)
    → process_next_stage_job job_type handlers claimed_at now table ≡ (handled i, table')
    → total_claims table' < total_claims table
unfolding process_next_stage_job claim_next
process_next_stage_job-claims job_type handlers claimed_at now table i table' h =
    elim (Option-cases (select_first job_type claimed_at 0 table)) [
      | inl e ↦ absurd (ground arith)
      | inr ((j, old), e) ↦
          let s = select_first-Selected job_type claimed_at 0 table j old e in
          let stood = selected_row job_type claimed_at table j old e in
          let (some_left, same_left) = claimable-has_claims job_type claimed_at old s.can_claim in
          omega (
            arith,
            run_handler-claims (handlers job_type) now claimed_at j
                (modify table j (claimed_row claimed_at)) old i table'
                (claimed-get_elem? job_type claimed_at table j old e) (omega arith) (rw e at h),
            total_claims-modify table j (claimed_row claimed_at) old stood,
          )
    ]

-- `n` handlings in a row, of any job types, with any handlers and at any times.
pub data Handlings : ℕ → Table → Table → Type 0 where
  done : {table : Table} → Handlings zero table table
  next :
      {n i : ℕ} {table table' last : Table} (job_type : StageJobType) (handlers : Handlers)
      (claimed_at now : ℕ)
      → process_next_stage_job job_type handlers claimed_at now table ≡ (handled i, table')
      → Handlings n table' last
      → Handlings (suc n) table last

-- However often jobs are handled, and whatever the handlers do, the handlings are at most the
-- attempts that the unfinished rows of the table have left.
pub Handlings-le-total_claims :
    {n : ℕ} {table last : Table}
    → Handlings n table last
    → n + total_claims last ≤ total_claims table
Handlings-le-total_claims done = omega arith
Handlings-le-total_claims
      (next {i = i} {table = table} {table' = table'} job_type handlers claimed_at now h rest) =
    omega (
      arith,
      process_next_stage_job-claims job_type handlers claimed_at now table i table' h,
      Handlings-le-total_claims rest,
    )
