-- ===== src/IoManager/Wakeup.antt =====
-- Timers and the sleep of IOManager::idle together (corlib/timer.cpp, corlib/ioscheduler.cpp): one thread
-- waits in epoll while others change the timers, and tickle() puts a byte into the pipe.
use corlib.Base.{
  ℕ, suc, ◌+◌, ◌<◌, ◌≤◌, ◌≡◌, Bool, true, false, ◌||◌, if◌then◌else◌, Option, none, some, is_some,
}
use corlib.Callback.{Callback}
use corlib.Scheduler.{Scheduler, has_idle_threads}
use corlib.Timer.{
  TimerManager, Fits, key, milliseconds, cancel, refresh, reset, add_timer, get_next_timer,
}
use corlib.Timer.Order.{restart}
use corlib.IoManager.{wait_time, tickle}

-- The timers; until when the thread is in epoll_wait, where it is; how many threads have left the lock of
-- the timers and not called onTimerInsertedAtFront() yet; and whether the pipe holds a byte.
pub record Sleeper : Type 0 where
  pub timers : TimerManager
  pub until : Option ℕ
  pub notices : ℕ
  pub byte : Bool

-- What an operation leaves when it gives back the lock of the timers: where it has put a timer at the
-- front, its thread goes on to onTimerInsertedAtFront().
abbrev pub notice : Sleeper → TimerManager → Bool → Sleeper
notice s timers front = record s { timers = timers; notices = s.notices + (if front then 1 else 0) }

-- While the thread is in epoll_wait, the scheduler counts it as idle.
abbrev pub CountsIdle : Sleeper → Scheduler → Type 0
CountsIdle s scheduler = is_some s.until ≡ true → has_idle_threads scheduler ≡ true

abbrev pub added : Sleeper → ℕ → Option Callback → Bool → ℕ → Sleeper
added s ms cb recurring now = let r = add_timer s.timers ms cb recurring now in notice s r.0 r.1

abbrev pub was_reset : Sleeper → ℕ → ℕ → Bool → ℕ → Sleeper
was_reset s i ms from_now now = let r = reset s.timers i ms from_now now in notice s r.0 r.2

-- What happens: the thread asks for the next timer and waits, or comes back and drains the pipe; other
-- threads add, cancel, refresh and reset timers, and ask for the next one in stopping(); and a thread that
-- has put a timer at the front calls onTimerInsertedAtFront(), whenever it comes to that. Times are such
-- as the clock can hold, and a refreshed timer does not come earlier than before, which takes a clock that
-- has fallen. Taking a timer out and putting it in again in reset is one step.
pub data Step (s : Sleeper) : Sleeper → Type 0 where
  sleeps :
      (now wait : ℕ)
      → s.until ≡ none
      → (wait_time s.timers now).1 ≡ suc wait
      → Step s (record s {
        timers = (wait_time s.timers now).0;
        until = some (now + milliseconds (suc wait));
      })
  wakes : Step s (record s { until = none; byte = false })
  adds_timer :
      (ms : ℕ) (cb : Option Callback) (recurring : Bool) (now : ℕ)
      → Fits now ms
      → Step s (added s ms cb recurring now)
  resets_timer :
      (i ms : ℕ) (from_now : Bool) (now : ℕ)
      → i < s.timers.fresh
      → Fits (restart s.timers i from_now now) ms
      → Step s (was_reset s i ms from_now now)
  tickles :
      (n : ℕ) (scheduler : Scheduler)
      → s.notices ≡ suc n
      → CountsIdle s scheduler
      → Step s (record s { notices = n; byte = s.byte || tickle scheduler })
  refreshes_timer :
      (i now : ℕ)
      → i < s.timers.fresh
      → Fits now (s.timers.object i).ms
      → key s.timers.object i ≤ now + milliseconds (s.timers.object i).ms
      → Step s (record s { timers = (refresh s.timers i now).0 })
  cancels_timer : (i : ℕ) → Step s (record s { timers = (cancel s.timers i).0 })
  asks_timer : (now : ℕ) → Step s (record s { timers = (get_next_timer s.timers now).0 })

pub data Reach (s : Sleeper) : Sleeper → Type 0 where
  start : Reach s s
  next : {s' s'' : Sleeper} → Reach s s' → Step s' s'' → Reach s s''
