-- ===== src/IoManager/Idle.antt =====
-- A round of IOManager::idle of corlib/ioscheduler.cpp outside the events: how long it waits, and the
-- callbacks of the timers that it posts.
use mathlib.Core.List.{append-nil, append_assoc}
use corlib.Base.{
  ℕ, ◌+◌, ◌≤◌, ◌≡◌, sym, ◌∙◌, ◌⊎◌, inl, inr, true, Option, none, some, List, [], ◌∷◌, ◌++◌, All,
  All-map, arith, Bool-cases, ltb,
}
use corlib.Callback.{Callback}
use corlib.Scheduler.{ScheduleTask, Scheduler, cb_task, schedule_lock}
use corlib.Timer.{TimerManager, key, milliseconds, get_next_timer}
use corlib.Timer.Order.{IsValid}
use corlib.Timer.Calls.{get_next_timer_bounds}
use corlib.IoManager.{wait_time, schedule_all}

-- The tasks of the functions that are not null.
abbrev pub tasks_of : List (Option Callback) → List ScheduleTask
tasks_of [] = []
tasks_of (none ∷ cs) = tasks_of cs
tasks_of (some c ∷ cs) = cb_task (some c) none ∷ tasks_of cs

-- The callbacks of the timers that have come are put behind the tasks of the queue in their order,
-- for any thread, without those that are null.
pub schedule_all_lem :
    (s : Scheduler) (cbs : List (Option Callback))
    → (schedule_all s cbs).tasks ≡ s.tasks ++ tasks_of cbs
unfolding schedule_all schedule_lock
schedule_all_lem s [] = sym (append-nil s.tasks)
schedule_all_lem s (none ∷ cs) = schedule_all_lem s cs
schedule_all_lem s (some c ∷ cs) =
    schedule_all_lem (record s { tasks = s.tasks ++ cb_task (some c) none ∷ [] }) cs
    ∙ append_assoc s.tasks (cb_task (some c) none ∷ []) (tasks_of cs)

-- A round of `idle` waits in epoll for at most 5000 milliseconds, and while there is a timer not past
-- one: the wait is 0, or no timer of the set comes before it is over.
pub wait_time_bounds :
    (m : TimerManager) (now i : ℕ) (ts : List ℕ)
    → IsValid m
    → m.timers ≡ i ∷ ts
    → let wait = (wait_time m now).1 in
      (wait ≤ 5000) × ((wait ≡ 0) ⊎ All (λ j. now + milliseconds wait ≤ key m.object j) m.timers)
unfolding wait_time
wait_time_bounds m now i ts v e =
    let (b, _) = get_next_timer_bounds m now i ts v e in
    elim (Bool-cases (ltb 5000 (get_next_timer m now).1)) [
      | inl far ↦ rw (far, wait_time) (omega arith, inr (later far b))
      | inr near ↦ rw (near, wait_time) (ground (arith, near), b)
    ]
  where
    later :
        ltb 5000 (get_next_timer m now).1 ≡ true
        → ((get_next_timer m now).1 ≡ 0)
          ⊎ All (λ j. now + milliseconds (get_next_timer m now).1 ≤ key m.object j) m.timers
        → All (λ j. now + milliseconds 5000 ≤ key m.object j) m.timers
    later far (inl z) = absurd (ground arith)
    later far (inr h) = All-map _ _ m.timers (λ j l. ground (arith, far, l)) h
