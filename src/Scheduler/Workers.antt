-- ===== src/Scheduler/Workers.antt =====
-- Scheduler::run and Scheduler::idle of corlib/scheduler.cpp: the threads of the pool as interleaved
-- steps. A step ends where a thread gives up a lock or changes a counter. What a task does while its
-- fiber runs is left open, but for the tasks that it posts (`post`); so are the moments at which
-- sleeping idle fibers wake. A decrement of a counter stops at 0, where the code's would wrap around.
use corlib.Base.{ℕ, ◌+◌, ◌-◌, ◌≡◌, Bool, true, false, none, some, List, get_elem?, set}
use corlib.Base.Outcome.{done}
use corlib.Scheduler.{ScheduleTask, Scheduler, pick, schedule_lock, stopping}

-- Where a thread stands in `run`: before the critical section, running a task's fiber, in its idle
-- fiber, or past the loop.
pub data Pc : Type 0 where
  picking : Pc
  running : ScheduleTask → Pc
  idling : Pc
  finished : Pc

-- A thread of the pool. `idle_term` says that its idle fiber has ended.
pub record Worker : Type 0 where
  pub thread_id : ℕ
  pub pc : Pc
  pub idle_term : Bool

pub record Pool : Type 0 where
  pub sched : Scheduler
  pub workers : List Worker

abbrev pub with_worker : Pool → Scheduler → ℕ → Worker → Pool
with_worker p s i w = record { sched = s; workers = set p.workers i w }

-- One step of worker `i`, which stands in the pool as `w`.
pub data Move (p : Pool) (i : ℕ) (w : Worker) : Pool → Type 0 where
  -- a task is taken, and counted as active
  takes :
      {s : Scheduler} {t : ScheduleTask} {tickle_me : Bool}
      → w.pc ≡ picking
      → pick p.sched w.thread_id ≡ done (s, some t, tickle_me)
      → Move p i w (with_worker p s i (record w { pc = running t }))
  -- the task's fiber has come back
  completes :
      {t : ScheduleTask}
      → w.pc ≡ running t
      → Move p i w (
          with_worker p
            (record p.sched { active_thread_count = p.sched.active_thread_count - 1 })
            i
            (record w { pc = picking }))
  -- there is no task: the idle fiber is resumed
  idles :
      {s : Scheduler} {tickle_me : Bool}
      → w.pc ≡ picking
      → pick p.sched w.thread_id ≡ done (s, none, tickle_me)
      → w.idle_term ≡ false
      → Move p i w (
          with_worker p
            (record s { idle_thread_count = s.idle_thread_count + 1 })
            i
            (record w { pc = idling }))
  -- there is no task and the idle fiber has ended: the loop ends
  quits :
      {s : Scheduler} {tickle_me : Bool}
      → w.pc ≡ picking
      → pick p.sched w.thread_id ≡ done (s, none, tickle_me)
      → w.idle_term ≡ true
      → Move p i w (with_worker p s i (record w { pc = finished }))
  -- the idle fiber has slept, and yields
  wakes :
      w.pc ≡ idling
      → stopping p.sched ≡ false
      → Move p i w (
          with_worker p
            (record p.sched { idle_thread_count = p.sched.idle_thread_count - 1 })
            i
            (record w { pc = picking }))
  -- the idle fiber sees that the scheduler stops, and ends
  idle_ends :
      w.pc ≡ idling
      → stopping p.sched ≡ true
      → Move p i w (
          with_worker p
            (record p.sched { idle_thread_count = p.sched.idle_thread_count - 1 })
            i
            (record w { pc = picking; idle_term = true }))
  -- the running task posts a task
  posts :
      {t : ScheduleTask} (new : ScheduleTask)
      → w.pc ≡ running t
      → Move p i w (record p { sched = (schedule_lock p.sched new).0 })

-- A step of the pool: of one of its workers, or of its environment, which posts a task or sets the flag
-- of `stop`.
pub data Step (p : Pool) : Pool → Type 0 where
  moves : (i : ℕ) {w : Worker} {q : Pool} → get_elem? p.workers i ≡ some w → Move p i w q → Step p q
  post : (new : ScheduleTask) → Step p (record p { sched = (schedule_lock p.sched new).0 })
  stops : Step p (record p { sched = record p.sched { stopping_flag = true } })
