-- ===== src/Scheduler.antt =====
-- corlib/scheduler.h and corlib/scheduler.cpp: the task queue and the state of the thread pool. What the
-- threads do, round by round, is in Scheduler/Workers. A thread that is `none` is -1, any thread.
pub mod Queue
pub mod Workers
pub mod Counts
pub mod Tasks
pub mod Ledger
pub mod Stop
pub mod Fibers
pub mod Tests
use corlib.Base.{
  ℕ, zero, suc, ◌+◌, ◌-◌, Bool, true, false, ◌&&◌, ◌||◌, not, Option, none, some, List, [], ◌∷◌,
  ◌++◌, ltb, ◌==◌, if◌then◌else◌, is_some, is_empty, length,
}
use corlib.Callback.{Callback}
use corlib.Base.Outcome.{Outcome, done, assert, ◌>>=◌, ◌>>◌}

-- Scheduler::ScheduleTask. Fibers are named by numbers.
pub record ScheduleTask : Type 0 where
  pub fiber : Option ℕ
  pub cb : Option Callback
  pub thread : Option ℕ

-- `task.fiber || task.cb`.
abbrev pub is_set : ScheduleTask → Bool
is_set t = is_some t.fiber || is_some t.cb

-- The constructors of ScheduleTask from a fiber and from a function; those from pointers swap the
-- value out of its owner, and make the same task.
abbrev pub fiber_task : Option ℕ → Option ℕ → ScheduleTask
fiber_task f thread = record { fiber = f; cb = none; thread = thread }

abbrev pub cb_task : Option Callback → Option ℕ → ScheduleTask
cb_task c thread = record { fiber = none; cb = c; thread = thread }

-- class Scheduler: `m_tasks`, `m_threads` (the ids of the running threads), `m_threadIds`,
-- `m_threadCount`, `m_activeThreadCount`, `m_idleThreadCount`, `m_useCaller`, `m_schedulerFiber`,
-- `m_rootThread` and `m_stopping`.
pub record Scheduler : Type 0 where
  pub tasks : List ScheduleTask
  pub threads : List ℕ
  pub thread_ids : List ℕ
  pub thread_count : ℕ
  pub active_thread_count : ℕ
  pub idle_thread_count : ℕ
  pub use_caller : Bool
  pub scheduler_fiber : Option ℕ
  pub root_thread : Option ℕ
  pub stopping_flag : Bool

-- Scheduler::Scheduler. `caller` is the calling thread, `attached` says that it has a scheduler
-- already, and `fiber` is the number of the fiber made for `run`.
unfoldable pub make : ℕ → Bool → Bool → ℕ → ℕ → Outcome Scheduler
make threads use_caller attached caller fiber = do
  assert (ltb 0 threads && not attached)
  done (record {
    tasks = [];
    threads = [];
    thread_ids = if use_caller then caller ∷ [] else [];
    thread_count = if use_caller then threads - 1 else threads;
    active_thread_count = 0;
    idle_thread_count = 0;
    use_caller = use_caller;
    scheduler_fiber = if use_caller then some fiber else none;
    root_thread = if use_caller then some caller else none;
    stopping_flag = false;
  })

-- Scheduler::start, given the ids of the threads that it creates, as many as `thread_count`. The flag
-- says whether they were started.
unfoldable pub start : Scheduler → List ℕ → Outcome (Scheduler × Bool)
start s ids = if s.stopping_flag then done (s, false) else (do
  assert (is_empty s.threads)
  done (record s { threads = ids; thread_ids = s.thread_ids ++ ids }, true))

-- Scheduler::scheduleLock. The flag says that tickle() is called, after the lock is released.
unfoldable pub schedule_lock : Scheduler → ScheduleTask → Scheduler × Bool
schedule_lock s task =
    (if is_set task then record s { tasks = s.tasks ++ task ∷ [] } else s, is_empty s.tasks)

-- Scheduler::hasIdleThreads.
abbrev pub has_idle_threads : Scheduler → Bool
has_idle_threads s = ltb 0 s.idle_thread_count

-- Scheduler::stopping.
unfoldable pub stopping : Scheduler → Bool
stopping s = s.stopping_flag && is_empty s.tasks && s.active_thread_count == 0

-- Scheduler::stop, but for the run of the scheduler fiber and the joining of the threads: the new
-- state, the number of calls of tickle() and the threads to join. `attached` says that the calling
-- thread's scheduler is this one.
unfoldable pub stop : Scheduler → Bool → Outcome (Scheduler × ℕ × List ℕ)
unfolding stopping
stop s attached = if stopping s then done (s, 0, []) else (do
  assert (if s.use_caller then attached else not attached)
  done (
    record s { stopping_flag = true; threads = [] },
    s.thread_count + (if is_some s.scheduler_fiber then 1 else 0),
    s.threads,
  ))

-- `it->thread != -1 && it->thread != thread_id`: the task is for another thread.
abbrev pub is_foreign : ℕ → ScheduleTask → Bool
is_foreign thread_id t = elim t.thread [ none ↦ false | some th ↦ not (th == thread_id) ]

-- The loop of `run` over the queue: the task taken, the queue without it, and `tickle_me`. The code
-- reads the iterator once more after `erase`, where it stands at the next task.
unfoldable pub scan :
    ℕ → List ScheduleTask → Outcome (Option ScheduleTask × List ScheduleTask × Bool)
scan thread_id [] = done (none, [], false)
scan thread_id (t ∷ ts) =
    let rest = scan thread_id ts in
    let here = (do assert (is_set t); done (some t, ts, not (is_empty ts))) in
    if is_foreign thread_id t then (do r ← rest; done (r.0, t ∷ r.1, true)) else here

-- The critical section of `run`: a task that is taken counts as active.
unfoldable pub pick : Scheduler → ℕ → Outcome (Scheduler × Option ScheduleTask × Bool)
pick s thread_id = do
  r ← scan thread_id s.tasks
  done (
    record s {
      tasks = r.1;
      active_thread_count =
          if is_some r.0 then s.active_thread_count + 1 else s.active_thread_count;
    },
    r.0,
    r.2,
  )
