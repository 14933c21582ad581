-- ===== src/Scheduler/Fibers.antt =====
-- The part of Scheduler::run in corlib/scheduler.cpp that runs the fiber of a task, on any number of
-- threads: the lock of the fiber's mutex, the test of its state, resume, and the fiber's own yield or end,
-- with what corlib/fiber.cpp does there. Which fiber a thread takes from the queue is left open, so one
-- fiber may be taken many times. Fibers that a task resumes by itself are left out.
pub mod Fit
pub mod Switches
pub mod Alone
pub mod Tests
use corlib.Base.{ℕ, ◌≡◌, Bool, true, false, Option, none, some, ◌==◌, if◌then◌else◌}
use corlib.Base.Outcome.{Outcome, done}
use corlib.Fiber.{State, Fiber, FiberThread, is_term, resume, yield, finish}

-- Where a thread stands with a task's fiber: it has none, it is at the lock of its mutex, it has the mutex,
-- the fiber executes, or the fiber has given control back.
pub data Pc : Type 0 where
  picking : Pc
  locking locked inside back : ℕ → Pc

-- A thread, with its t_fiber, t_thread_fiber and t_scheduler_fiber, and the fiber that executes on it.
pub record Local : Type 0 where
  pub pc : Pc
  pub current : Option ℕ
  pub thread_fiber : Option ℕ
  pub scheduler_fiber : Option ℕ
  pub executing : ℕ

-- The fibers, with the counters of corlib/fiber.cpp; the thread that has a fiber's `m_mutex`; and the
-- threads.
pub record World : Type 0 where
  pub object : ℕ → Fiber
  pub fresh : ℕ
  pub fiber_id : ℕ
  pub fiber_count : ℕ
  pub owner : ℕ → Option ℕ
  pub local : ℕ → Local

-- What corlib/fiber.cpp sees on thread `i`.
abbrev pub view : World → ℕ → FiberThread
view w i = record {
  object = w.object;
  fresh = w.fresh;
  current = (w.local i).current;
  thread_fiber = (w.local i).thread_fiber;
  scheduler_fiber = (w.local i).scheduler_fiber;
  fiber_id = w.fiber_id;
  fiber_count = w.fiber_count;
  executing = (w.local i).executing;
}

abbrev pub set_local : World → ℕ → Local → World
set_local w i l = record w { local = λ j. if i == j then l else w.local j }

abbrev pub goes : World → ℕ → Pc → World
goes w i p = set_local w i (record (w.local i) { pc = p })

abbrev pub set_owner : World → ℕ → Option ℕ → World
set_owner w f o = record w { owner = λ g. if f == g then o else w.owner g }

-- The world after a call of corlib/fiber.cpp on thread `i`.
abbrev pub store : World → ℕ → FiberThread → Pc → World
store w i t p =
    record (set_local w i (record {
      pc = p;
      current = t.current;
      thread_fiber = t.thread_fiber;
      scheduler_fiber = t.scheduler_fiber;
      executing = t.executing;
    })) { object = t.object; fresh = t.fresh; fiber_id = t.fiber_id; fiber_count = t.fiber_count }

-- `is_task` says of which fibers there are tasks.
pub data Step (is_task : ℕ → Bool) (w : World) : World → Type 0 where
  takes :
      (i f : ℕ)
      → is_task f ≡ true
      → (w.local i).pc ≡ picking
      → Step is_task w (goes w i (locking f))
  acquires :
      (i f : ℕ)
      → (w.local i).pc ≡ locking f
      → w.owner f ≡ none
      → Step is_task w (goes (set_owner w f (some i)) i (locked f))
  skips :
      (i f : ℕ)
      → (w.local i).pc ≡ locked f
      → is_term (w.object f).state ≡ true
      → Step is_task w (goes w i (back f))
  resumes :
      (i f : ℕ) (t : FiberThread)
      → (w.local i).pc ≡ locked f
      → is_term (w.object f).state ≡ false
      → resume (view w i) f ≡ done t
      → Step is_task w (store w i t (inside f))
  yields :
      (i f : ℕ) (t : FiberThread)
      → (w.local i).pc ≡ inside f
      → yield (view w i) f ≡ done t
      → Step is_task w (store w i t (back f))
  finishes :
      (i f : ℕ) (garbage : Bool) (t : FiberThread)
      → (w.local i).pc ≡ inside f
      → finish (view w i) garbage ≡ done t
      → Step is_task w (store w i t (back f))
  releases :
      (i f : ℕ) → (w.local i).pc ≡ back f → Step is_task w (goes (set_owner w f none) i picking)

pub data Reach (is_task : ℕ → Bool) (w : World) : World → Type 0 where
  start : Reach is_task w w
  next : {u v : World} → Reach is_task w u → Step is_task u v → Reach is_task w v
