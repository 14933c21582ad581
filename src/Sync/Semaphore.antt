-- ===== src/Sync/Semaphore.antt =====
-- class FiberSemaphore of corlib/mutex.h and corlib/mutex.cpp. Schedulers and fibers are numbers; the
-- schedulers' states are a function, in which notify() posts to one.
use corlib.Base.{
  ℕ, ◌+◌, ◌-◌, ◌%◌, ◌^◌, Bool, true, false, Option, none, some, List, [], ◌∷◌, ◌++◌, ltb, ◌==◌,
  if◌then◌else◌, is_some, is_empty,
}
use corlib.Base.Outcome.{Outcome, done, assert, ◌>>◌}
use corlib.Scheduler.{Scheduler, schedule_lock, fiber_task}

-- An element of `m_waiters`.
pub record Waiter : Type 0 where
  pub scheduler : ℕ
  pub fiber : ℕ

-- `m_waiters` and `m_concurrency`.
pub record FiberSemaphore : Type 0 where
  pub waiters : List Waiter
  pub concurrency : ℕ

-- FiberSemaphore::FiberSemaphore.
abbrev pub make : ℕ → FiberSemaphore
make initial_concurrency = record { waiters = []; concurrency = initial_concurrency }

-- FiberSemaphore::~FiberSemaphore.
abbrev pub destroy : FiberSemaphore → Outcome (Unit {0})
destroy s = assert (is_empty s.waiters)

-- FiberSemaphore::tryWait. `this` is Scheduler::GetThis().
unfoldable pub try_wait : FiberSemaphore → Option ℕ → Outcome (FiberSemaphore × Bool)
try_wait s this = do
  assert (is_some this)
  done (
      if ltb 0 s.concurrency
      then (record s { concurrency = s.concurrency - 1 }, true)
      else (s, false))

-- FiberSemaphore::wait, called by `fiber`. The flag says that the fiber yields, until it is scheduled
-- again.
unfoldable pub wait : FiberSemaphore → Option ℕ → ℕ → Outcome (FiberSemaphore × Bool)
wait s none fiber = assert false >> done (s, false)
wait s (some this) fiber = done (
    if ltb 0 s.concurrency then (record s { concurrency = s.concurrency - 1 }, false) else (
      record s { waiters = s.waiters ++ record { scheduler = this; fiber = fiber } ∷ [] },
      true,
    ))

-- `next.first->scheduleLock(next.second)`.
unfoldable pub wake : (ℕ → Scheduler) → Waiter → ℕ → Scheduler
wake pools next = λ k.
    if k == next.scheduler
    then (schedule_lock (pools k) (fiber_task (some next.fiber) none)).0
    else pools k

-- FiberSemaphore::notify: the semaphore and the schedulers.
unfoldable pub notify : FiberSemaphore → (ℕ → Scheduler) → FiberSemaphore × (ℕ → Scheduler)
notify s pools = elim s.waiters [
  | next ∷ rest ↦ (record s { waiters = rest }, wake pools next)
  | [] ↦ (record s { concurrency = (s.concurrency + 1) % 2 ^ 64 }, pools)
]

-- FiberSemaphore::getConcurrency and FiberSemaphore::reset.
abbrev pub get_concurrency : FiberSemaphore → ℕ
get_concurrency s = s.concurrency

abbrev pub reset : FiberSemaphore → FiberSemaphore
reset s = record s { concurrency = 0 }
