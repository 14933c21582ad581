-- ===== src/IoManager/SleepTests.antt =====
-- A thread waits in IOManager::idle of corlib/ioscheduler.cpp for the first timer, and another thread adds one
-- that comes earlier.
use corlib.Base.{◌≡◌, ◌<◌, ◌||◌, arith, ◌⊎◌, refl, true, false, none, some}
use corlib.Callback.{user}
use corlib.Scheduler.{Scheduler}
use corlib.Scheduler.Tests.{started}
use corlib.Timer.{get_next_timer}
use corlib.Timer.Tests.{waiting, waiting-IsValid}
use corlib.IoManager.{wait_time, tickle}
use corlib.IoManager.Wakeup.{
  Sleeper, CountsIdle, tickles, Reach, start, next, sleeps, adds_timer, added,
}
use corlib.IoManager.Guard.{NoneBefore}
use corlib.IoManager.Oversleep.{Reach-IsGuarded}

abbrev awake : Sleeper
awake = record { timers = waiting; until = none; notices = 0; byte = false }

abbrev asleep : Sleeper
asleep = record { timers = waiting; until = some 5000000; notices = 0; byte = false }

abbrev idle_pool : Scheduler
idle_pool = record started { idle_thread_count = 1 }

abbrev noticed : Sleeper
noticed = record (added asleep 2 (some (user 9)) false 0) { notices = 0; byte = true }

noticed-Reach : Reach awake noticed
unfolding wait_time get_next_timer corlib.Timer.add_timer corlib.Timer.Set.at_begin tickle
noticed-Reach =
    next
      (next {s' = asleep} (next start (sleeps 0 4 refl refl))
        (adds_timer 2 (some (user 9)) false 0 (omega arith)))
      (tickles 0 idle_pool refl (λ _. refl))

Reach-IsGuarded_example :
    (noticed.byte ≡ true)
    ⊎ (((0 < noticed.notices)
          × ((scheduler : Scheduler)
              → CountsIdle noticed scheduler
              → (noticed.byte || tickle scheduler) ≡ true))
        ⊎ NoneBefore 5000000 noticed.timers)
Reach-IsGuarded_example = Reach-IsGuarded 5000000 waiting-IsValid refl noticed-Reach refl
