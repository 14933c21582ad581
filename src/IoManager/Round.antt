-- ===== src/IoManager/Round.antt =====
-- The loop of IOManager::idle of corlib/ioscheduler.cpp: a whole round, from the test whether to stop to
-- the last reported event. `errno == EINTR` starts the wait again; any other failure reports nothing.
use corlib.Base.{ℕ, Bool, true, false, Option, none, some, List, [], ◌∷◌, if◌then◌else◌}
use corlib.Base.Outcome.{Outcome, done, ◌>>=◌}
use corlib.Callback.{Callback}
use corlib.Scheduler.{Scheduler}
use corlib.Timer.{TimerManager, list_expired_cb}
use corlib.IoManager.Mask.{Events, Epoll}
use corlib.IoManager.{IoManager, handle, stopping, wait_time, schedule_all}

-- An element of `events`: bytes in the pipe of tickle(), which are drained, or what happened to a
-- descriptor, with whether EPOLLERR or EPOLLHUP is set.
pub data Report : Type 0 where
  tickled : Report
  on : (fd : ℕ) (reported : Events) (broken : Bool) → Report

-- The readings of the clock in one round: by stopping(), before each interrupted epoll_wait, before the
-- last, and the two of listExpiredCb.
pub record Clock : Type 0 where
  pub stop_now : ℕ
  pub interrupted : List ℕ
  pub wait_now : ℕ
  pub expire_now : ℕ
  pub rollover_now : ℕ

-- What the thread of an idle fiber uses.
pub record Idler (K : Type 0) : Type 0 where
  pub io : IoManager K
  pub timers : TimerManager
  pub scheduler : Scheduler

-- The calls of epoll_wait: the timers after them, and the timeout of the last.
unfoldable pub await_epoll : TimerManager → List ℕ → ℕ → TimerManager × ℕ
await_epoll timers [] now = wait_time timers now
await_epoll timers (again ∷ rest) now = await_epoll (wait_time timers again).0 rest now

module _ (epoll : Epoll) where
  open epoll use {Kernel}

  -- The loop over the reports.
  unfoldable pub handle_all : IoManager Kernel → List Report → Outcome (IoManager Kernel)
  handle_all m [] = done m
  handle_all m (tickled ∷ rest) = handle_all m rest
  handle_all m (on fd reported broken ∷ rest) = do
    m' ← handle epoll m fd reported broken
    handle_all m' rest

  -- What is behind listExpiredCb. The flag says that the idle fiber ends.
  unfoldable pub finish_round :
      Idler Kernel
      → List Report
      → Option (TimerManager × List (Option Callback))
      → Option (Outcome (Idler Kernel × Bool))
  finish_round s reports none = none
  finish_round s reports (some (timers, cbs)) = some (do
    io ← handle_all s.io reports
    done (record { io = io; timers = timers; scheduler = schedule_all s.scheduler cbs }, false))

  -- A round, up to the fiber's yield; `none` means that the fuel of listExpiredCb ran out.
  unfoldable pub round :
      ℕ → Idler Kernel → Clock → List Report → Option (Outcome (Idler Kernel × Bool))
  round fuel s clock reports =
      let (timers, stop) = stopping s.io s.timers s.scheduler clock.stop_now in
      let (waited, timeout) = await_epoll timers clock.interrupted clock.wait_now in
      if stop
      then some (done (record s { timers = timers }, true))
      else finish_round s reports
          (list_expired_cb fuel waited clock.expire_now clock.rollover_now [])
