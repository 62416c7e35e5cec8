-- ===== src/Queue/Invariant.antt =====
-- Every operation of the stage queue keeps its rows valid.
use bisakerja_scraper.Prelude.{
  ℕ, ◌≡◌, subst, Option, none, some, true, [], ◌∷◌, arith, get_elem?, modify, All, All-append,
  All-modify_at, get_elem?-modify_self, Option-cases, Bool-cases, inl, inr, ltb,
}
use bisakerja_scraper.Queue.{
  StageJob, StageJobType, Table, QueueJobInput, QueueFailure, HandlerOutcome, returned, raised,
  Handlers, running, claimable, claimed_row, completed_row, failed_row, queued_row, enqueue,
  select_first, claim_next, complete, fail, finish, run_handler, process_next_stage_job,
}
use bisakerja_scraper.Queue.Rows.{
  IsValid, queued_row-IsValid, completed_row-IsValid, failed_row-IsValid,
}
use bisakerja_scraper.Queue.Claim.{select_first-Selected}

abbrev pub AllValid : Table → Type 0
AllValid table = All IsValid table

claimable-IsValid :
    (job_type : StageJobType) (now : ℕ) (job : StageJob)
    → claimable job_type now job ≡ true
    → IsValid job
    → IsValid (claimed_row now job)
unfolding claimable
claimable-IsValid job_type now job open_row v = ground arith

pub enqueue-IsValid :
    (item : QueueJobInput) (now : ℕ) (table : Table) (i : ℕ) (table' : Table)
    → AllValid table
    → enqueue item now table ≡ some (i, table')
    → AllValid table'
unfolding enqueue
enqueue-IsValid item now table i table' v h = elim (Bool-cases (ltb item.max_attempts 1)) [
  | inl small ↦ absurd (ground arith)
  | inr large ↦
      let rows =
        All-append IsValid table (queued_row item now ∷ []) v
          (queued_row-IsValid item now (ground arith), tt) in
      subst AllValid (ground arith) rows
]

-- The row at `i` is running.
abbrev pub IsRunning : ℕ → Table → Type 0
IsRunning i table = (job : StageJob) → get_elem? table i ≡ some job → job.status ≡ running

pub complete-IsValid :
    (now i : ℕ) (table : Table)
    → IsRunning i table
    → AllValid table
    → AllValid (complete now i table)
unfolding complete
complete-IsValid now i table r v =
    All-modify_at IsValid table i (completed_row now)
      (λ job e. completed_row-IsValid now job (r job e)) v

pub fail-IsValid :
    (failure : QueueFailure) (now i : ℕ) (table : Table)
    → IsRunning i table
    → AllValid table
    → AllValid (fail failure now i table)
unfolding fail
fail-IsValid failure now i table r v =
    All-modify_at IsValid table i (failed_row failure now)
      (λ job e. failed_row-IsValid failure now job (r job e)) v

finish-IsValid :
    (outcome : HandlerOutcome) (now i : ℕ) (table : Table)
    → IsRunning i table
    → AllValid table
    → AllValid (finish outcome now i table)
finish-IsValid returned now i table r v = complete-IsValid now i table r v
finish-IsValid (raised category message) now i table r v = fail-IsValid _ now i table r v

-- The row that a selection names, before and after it is claimed.
module _ (job_type : StageJobType) (now : ℕ) (table : Table) (i : ℕ) (old : StageJob)
    (found : select_first job_type now 0 table ≡ some (i, old)) where
  pub selected_row : get_elem? table i ≡ some old
  selected_row =
      let s = select_first-Selected job_type now 0 table i old found in
      let e : s.offset ≡ i = omega (arith, s.place) in rw (← e) (s.row)

  pub claimed-get_elem? :
      get_elem? (modify table i (claimed_row now)) i ≡ some (claimed_row now old)
  claimed-get_elem? = get_elem?-modify_self table i (claimed_row now) old selected_row

  claimed-IsRunning : IsRunning i (modify table i (claimed_row now))
  claimed-IsRunning job e = cc claimed-get_elem?

  claimed-AllValid : AllValid table → AllValid (modify table i (claimed_row now))
  claimed-AllValid v =
      All-modify_at IsValid table i (claimed_row now)
        (λ job e w.
          claimable-IsValid job_type now job
            (let s = select_first-Selected job_type now 0 table i old found in
              let same : old ≡ job = cc selected_row in
              subst (λ r. claimable job_type now r ≡ true) same s.can_claim)
            w)
        v

  run_handler-AllValid :
      (handler : Option (StageJob → HandlerOutcome)) (ended : ℕ)
      → AllValid table
      → AllValid
          (run_handler handler ended
            (some (i, claimed_row now old), modify table i (claimed_row now))).1
  run_handler-AllValid none ended v = claimed-AllValid v
  run_handler-AllValid (some handler) ended v =
      finish-IsValid (handler (claimed_row now old)) ended i (modify table i (claimed_row now))
        claimed-IsRunning (claimed-AllValid v)

-- Whatever the handlers do, and also when the job type has none, processing a job keeps every row
-- of the queue valid: attempts stay below the limit until the job is dead-lettered at the limit,
-- and the lock and completion times agree with the status.
pub process_next_stage_job-IsValid :
    (job_type : StageJobType) (handlers : Handlers) (claimed_at now : ℕ) (table : Table)
    → AllValid table
    → AllValid (process_next_stage_job job_type handlers claimed_at now table).1
unfolding process_next_stage_job claim_next
process_next_stage_job-IsValid job_type handlers claimed_at now table v =
    elim (Option-cases (select_first job_type claimed_at 0 table)) [
      | inl e ↦ rw e v
      | inr ((i, old), e) ↦
          rw e (run_handler-AllValid job_type claimed_at table i old e (handlers job_type) now v)
    ]
