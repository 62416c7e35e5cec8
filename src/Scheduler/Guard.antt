-- ===== src/Scheduler/Guard.antt =====
-- `ManualTriggerGuard` in every reachable state.
use bisakerja_scraper.Prelude.{◌≡◌, refl, none, some, Bool, true, false, List, [], ◌∷◌, ◌++◌, arith}
use bisakerja_scraper.Scheduler.{
  ScheduledStage, ManualTriggerGuard, Reachable, start, begins, ends, initial, begin, end,
  with_callback,
}

-- The guard is free and nothing runs, or it is taken for the one stage that runs.
abbrev pub IsExclusive : List ScheduledStage → ManualTriggerGuard → Type 0
IsExclusive [] guard = (guard.locked ≡ false) × (guard.active_stage ≡ none)
IsExclusive (stage ∷ []) guard = (guard.locked ≡ true) × (guard.active_stage ≡ some stage)
IsExclusive (stage ∷ other ∷ rest) guard = ⊥

begin-IsExclusive :
    (running : List ScheduledStage) (guard : ManualTriggerGuard) (stage : ScheduledStage)
    → IsExclusive running guard
    → IsExclusive (with_callback (begin stage guard).0 stage running) (begin stage guard).1
unfolding begin
begin-IsExclusive [] guard stage h = ground arith
begin-IsExclusive (other ∷ []) guard stage h = ground arith
begin-IsExclusive (other ∷ next ∷ rest) guard stage h = absurd h

end-IsExclusive :
    (before rest : List ScheduledStage) (guard : ManualTriggerGuard) (returned : Bool)
    (stage : ScheduledStage)
    → IsExclusive (before ++ stage ∷ rest) guard
    → IsExclusive (before ++ rest) (end returned stage guard).1
unfolding end
end-IsExclusive [] [] guard returned stage h = (refl, refl)
end-IsExclusive [] (other ∷ rest) guard returned stage h = absurd h
end-IsExclusive (other ∷ []) rest guard returned stage h = absurd h
end-IsExclusive (other ∷ next ∷ before) rest guard returned stage h = absurd h

-- Whatever calls of `run` are made, in any order and while others wait, at most one callback runs at a
-- time; the guard is taken and names the stage exactly while that callback runs, and is free again once
-- it has returned or raised.
pub Reachable-IsExclusive :
    {running : List ScheduledStage} {guard : ManualTriggerGuard}
    → Reachable running guard
    → IsExclusive running guard
unfolding initial
Reachable-IsExclusive start = (refl, refl)
Reachable-IsExclusive (begins stage reached) =
    begin-IsExclusive _ _ stage (Reachable-IsExclusive reached)
Reachable-IsExclusive (ends before rest returned stage reached) =
    end-IsExclusive before rest _ returned stage (Reachable-IsExclusive reached)
