-- ===== src/Scheduler.antt =====
-- src/jobs/scheduler.py: the guard that lets one stage run at a time. An asyncio task gives up control
-- only where it waits for the callback: a free lock is taken without waiting.
pub mod Guard
mod Tests
use bisakerja_scraper.Prelude.{String, Option, none, some, Bool, true, false, List, [], ◌∷◌, ◌++◌}

pub data ScheduledStage : Type 0 where
  scrape normalize enrich sync notify_handoff : ScheduledStage

pub record ScheduledRunResult : Type 0 where
  pub stage : ScheduledStage
  pub accepted : Bool
  pub reason : Option String

pub record ManualTriggerGuard : Type 0 where
  pub locked : Bool
  pub active_stage : Option ScheduledStage

pub initial : ManualTriggerGuard
initial = record { locked = false; active_stage = none }

-- `run` up to its first wait: it returns at once, or calls the callback, which is `none` here.
abbrev begin_when :
    Bool → ScheduledStage → ManualTriggerGuard → Option ScheduledRunResult × ManualTriggerGuard
begin_when true stage guard =
    (some (record { stage = stage; accepted = false; reason = some "run already active" }), guard)
begin_when false stage guard = (none, record { locked = true; active_stage = some stage })

pub begin : ScheduledStage → ManualTriggerGuard → Option ScheduledRunResult × ManualTriggerGuard
begin stage guard = begin_when guard.locked stage guard

-- The rest of `run`, when the callback has returned, or has raised (`false`): then there is no result.
abbrev result_of : Bool → ScheduledStage → Option ScheduledRunResult
result_of true stage = some (record { stage = stage; accepted = true; reason = none })
result_of false stage = none

pub end :
    (returned : Bool)
    → ScheduledStage
    → ManualTriggerGuard
    → Option ScheduledRunResult × ManualTriggerGuard
end returned stage guard =
    (result_of returned stage, record { locked = false; active_stage = none })

abbrev pub with_callback :
    Option ScheduledRunResult → ScheduledStage → List ScheduledStage → List ScheduledStage
with_callback none stage running = stage ∷ running
with_callback (some result) stage running = running

-- The states that calls of `run` reach in any order, with the stages whose callbacks are running.
pub data Reachable : List ScheduledStage → ManualTriggerGuard → Type 0 where
  start : Reachable [] initial
  begins :
      {running : List ScheduledStage} {guard : ManualTriggerGuard}
      → (stage : ScheduledStage) → Reachable running guard
      → Reachable (with_callback (begin stage guard).0 stage running) (begin stage guard).1
  ends :
      {guard : ManualTriggerGuard}
      → (before rest : List ScheduledStage) (returned : Bool) (stage : ScheduledStage)
      → Reachable (before ++ stage ∷ rest) guard
      → Reachable (before ++ rest) (end returned stage guard).1
