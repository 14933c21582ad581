-- ===== src/Callback.antt =====
-- The closures that the library stores: std::function<void()> values of corlib/timer.cpp and
-- corlib/hook.cpp, one constructor for each closure that the code builds. A null function is `none`
-- of an Option. Fibers, timers and timer_info objects are named by numbers.
use Prim.Native.Nat.{ℕ}

-- `IOManager::Event`: NONE = 0, READ = 1, WRITE = 4.
pub data Event : Type 0 where
  no_event read write : Event

pub data Callback : Type 0 where
  user : ℕ → Callback  -- a closure that the client wrote
  wake : (fiber : ℕ) → Callback  -- sleep, usleep, nanosleep: iom->scheduleLock(fiber, -1)
  io_timeout : (info fd : ℕ) (event : Event) → Callback  -- the timeout of do_io and connect
  on_timer : (cond : ℕ) → Callback → Callback  -- std::bind(&OnTimer, weak_cond, cb)
