-- ===== src/IoManager.antt =====
-- corlib/ioscheduler.h and corlib/ioscheduler.cpp: the calls that add and remove the events of
-- descriptors, and what an idle fiber does with those that epoll reports.
pub mod Mask
pub mod Bits
pub mod Contexts
pub mod Fire
pub mod Invariant
pub mod Resize
pub mod Add
pub mod Remove
pub mod Cancel
pub mod Calls
pub mod Race
pub mod Idle
pub mod Round
pub mod Reports
pub mod Whole
pub mod Wakeup
pub mod Guard
pub mod Oversleep
pub mod Tests
pub mod RoundTests
pub mod SleepTests
use corlib.Base.{
  ℕ, zero, suc, ◌+◌, ◌-◌, ◌*◌, ◌/◌, ◌%◌, ◌^◌, ◌≡◌, ◌≢◌, Bool, true, false, ◌&&◌, ◌||◌, not, Option,
  none, some, List, [], ◌∷◌, ◌++◌, ltb, leb, ◌==◌, if◌then◌else◌, is_some, length, get_elem?, set,
  take,
}
use corlib.Base.Int.{ℤ, pos, negsuc}
use corlib.Base.Outcome.{
  Outcome, done, fault, assertion, null_pointer, out_of_range, assert, or_fault, ◌>>=◌, ◌>>◌,
}
use corlib.Callback.{Callback, Event, no_event, read, write}
use corlib.Scheduler.{ScheduleTask, Scheduler, cb_task, schedule_lock, has_idle_threads}
use corlib.Scheduler
use corlib.Timer.{TimerManager, get_next_timer}
use corlib.Timer
use Mask.{
  Events, nothing, reads_only, has, with_event, without, is_none, both, either, minus, Op, ctl_add,
  ctl_mod, ctl_del, Epoll,
}
use Contexts.{
  EventContext, FdContext, blank_context, is_blank, get_event_context, set_event_context,
  trigger_event, context_resize, contexts_for, Caller, waiter,
}

-- The state of IOManager: `m_pendingEventCount`, `m_fdContexts`, the kernel's side of `m_epfd` and the
-- read end of `m_tickleFds`.
-- `posted` lists the tasks that triggered events have handed to schedulers.
pub record IoManager (K : Type 0) : Type 0 where
  pub epoll : K
  pub pipe : ℕ
  pub pending_event_count : ℕ
  pub fd_contexts : List FdContext
  pub posted : List (ℕ × ScheduleTask)

-- `++m_pendingEventCount` and `--m_pendingEventCount`, on 64 bits.
abbrev pub increment : ℕ → ℕ
increment n = (n + 1) % 2 ^ 64

abbrev pub decrement : ℕ → ℕ
decrement n = (n + (2 ^ 64 - 1)) % 2 ^ 64

-- The state that the constructor leaves, given its epoll instance.
unfoldable pub initial : {K : Type 0} → K → ℕ → IoManager K
unfolding context_resize
initial k pipe = record {
  epoll = k;
  pipe = pipe;
  pending_event_count = 0;
  fd_contexts = context_resize 32 [];
  posted = [];
}

-- The events that a report stands for: `reported` are its EPOLLIN and EPOLLOUT, and `broken` says that
-- EPOLLERR or EPOLLHUP is set.
abbrev pub real_events : FdContext → Events → Bool → Events
real_events c reported broken = if broken then either reported c.events else reported

module _ (epoll : Epoll) where
  open epoll use {Kernel, ctl}

  -- epoll_ctl with the events that stay: a change, or the removal when none stays.
  abbrev pub keep_only : Kernel → ℕ → Events → Kernel × Bool
  keep_only k fd left = ctl k (if is_none left then ctl_del else ctl_mod) fd left

  -- The constructor's part that concerns events, behind epoll_create and pipe: `k` is the new epoll
  -- instance, `pipe` the end that is read, which goes into it.
  unfoldable pub make_io : Kernel → ℕ → Outcome (IoManager Kernel)
  unfolding initial
  make_io k pipe =
      let (k', ok) = ctl k ctl_add pipe reads_only in assert ok >> done (initial k' pipe)

  -- addEvent behind its test: the event goes into context `c` of descriptor `fd`.
  unfoldable pub register :
      IoManager Kernel
      → ℕ
      → FdContext
      → Event
      → Option Callback
      → Caller
      → Kernel
      → Outcome (IoManager Kernel × ℤ)
  register m fd c event cb who k = do
    x ← get_event_context c event
    assert (is_blank x)
    y ← waiter who cb
    done (
      record m {
        epoll = k;
        pending_event_count = increment m.pending_event_count;
        fd_contexts =
            set m.fd_contexts fd
              (set_event_context (record c { events = with_event c.events event }) event y);
      },
      pos 0,
    )

  unfoldable pub add_to :
      IoManager Kernel
      → ℕ
      → FdContext
      → Event
      → Option Callback
      → Caller
      → Outcome (IoManager Kernel × ℤ)
  unfolding register
  add_to m fd c event cb who =
      let (k, ok) =
        ctl m.epoll (if is_none c.events then ctl_add else ctl_mod) fd
          (with_event c.events event) in
      if has c.events event
      then done (m, negsuc 0)
      else if not ok
      then done (record m { epoll = k }, negsuc 0)
      else register m fd c event cb who k

  -- IOManager::addEvent.
  unfoldable pub add_event :
      IoManager Kernel → ℤ → Event → Option Callback → Caller → Outcome (IoManager Kernel × ℤ)
  unfolding add_to contexts_for
  add_event m (negsuc n) event cb who = fault out_of_range
  add_event m (pos fd) event cb who =
      let cs = contexts_for m.fd_contexts fd in
      elim (get_elem? cs fd) [
        | none ↦ fault out_of_range
        | some c ↦ add_to (record m { fd_contexts = cs }) fd c event cb who
      ]

  -- IOManager::delEvent. Where epoll_ctl fails the code returns -1 as a bool, which is true.
  unfoldable pub del_from : IoManager Kernel → ℕ → FdContext → Event → IoManager Kernel × Bool
  del_from m fd c event =
      let left = without c.events event in
      let (k, ok) = keep_only m.epoll fd left in
      if not (has c.events event)
      then (m, false)
      else if not ok
      then (record m { epoll = k }, true)
      else (
        record m {
          epoll = k;
          pending_event_count = decrement m.pending_event_count;
          fd_contexts =
              set m.fd_contexts fd
                (set_event_context (record c { events = left }) event blank_context);
        },
        true,
      )

  unfoldable pub del_event : IoManager Kernel → ℤ → Event → Outcome (IoManager Kernel × Bool)
  unfolding del_from
  del_event m (negsuc n) event = fault out_of_range
  del_event m (pos fd) event = elim (get_elem? m.fd_contexts fd) [
    | none ↦ done (m, false)
    | some c ↦ done (del_from m fd c event)
  ]

  -- `triggerEvent(event)` on the context of `fd` in the table, and `--m_pendingEventCount`.
  unfoldable pub fire :
      IoManager Kernel → ℕ → FdContext → Event → Outcome (IoManager Kernel × FdContext)
  unfolding trigger_event
  fire m fd c event = do
    r ← trigger_event c event
    done (
      record m {
        pending_event_count = decrement m.pending_event_count;
        fd_contexts = set m.fd_contexts fd r.0;
        posted = m.posted ++ (r.1, r.2) ∷ [];
      },
      r.0,
    )

  -- The events of `which`, READ first.
  unfoldable pub fire_all :
      IoManager Kernel → ℕ → FdContext → Events → Outcome (IoManager Kernel × FdContext)
  unfolding fire
  fire_all m fd c which = do
    r ← if which.reads then fire m fd c read else done (m, c)
    if which.writes then fire r.0 fd r.1 write else done r

  -- IOManager::cancelEvent.
  unfoldable pub cancel_in :
      IoManager Kernel → ℕ → FdContext → Event → Outcome (IoManager Kernel × Bool)
  cancel_in m fd c event =
      let (k, ok) = keep_only m.epoll fd (without c.events event) in
      if not (has c.events event)
      then done (m, false)
      else if not ok
      then done (record m { epoll = k }, true)
      else (do r ← fire (record m { epoll = k }) fd c event; done (r.0, true))

  unfoldable pub cancel_event : IoManager Kernel → ℤ → Event → Outcome (IoManager Kernel × Bool)
  unfolding cancel_in
  cancel_event m (negsuc n) event = fault out_of_range
  cancel_event m (pos fd) event = elim (get_elem? m.fd_contexts fd) [
    | none ↦ done (m, false)
    | some c ↦ cancel_in m fd c event
  ]

  -- IOManager::cancelAll.
  unfoldable pub cancel_all_in :
      IoManager Kernel → ℕ → FdContext → Outcome (IoManager Kernel × Bool)
  unfolding fire_all
  cancel_all_in m fd c =
      let (k, ok) = ctl m.epoll ctl_del fd nothing in
      if is_none c.events
      then done (m, false)
      else if not ok
      then done (record m { epoll = k }, true)
      else (do
        r ← fire_all (record m { epoll = k }) fd c c.events
        assert (is_none r.1.events)
        done (r.0, true))

  unfoldable pub cancel_all : IoManager Kernel → ℤ → Outcome (IoManager Kernel × Bool)
  unfolding cancel_all_in
  cancel_all m (negsuc n) = fault out_of_range
  cancel_all m (pos fd) = elim (get_elem? m.fd_contexts fd) [
    | none ↦ done (m, false)
    | some c ↦ cancel_all_in m fd c
  ]

  -- One event that epoll_wait reports for the context `c` of `fd`, in the loop of `idle`.
  unfoldable pub handle_in :
      IoManager Kernel → ℕ → FdContext → Events → Bool → Outcome (IoManager Kernel)
  unfolding fire_all
  handle_in m fd c reported broken =
      let real = real_events c reported broken in
      let (k, ok) = keep_only m.epoll fd (minus c.events real) in
      if is_none (both c.events real)
      then done m
      else if not ok
      then done (record m { epoll = k })
      else (do r ← fire_all (record m { epoll = k }) fd c real; done r.0)

  unfoldable pub handle : IoManager Kernel → ℕ → Events → Bool → Outcome (IoManager Kernel)
  unfolding handle_in
  handle m fd reported broken = do
    c ← or_fault (get_elem? m.fd_contexts fd) null_pointer
    handle_in m fd c reported broken

-- IOManager::tickle: whether a byte is written into the pipe.
unfoldable pub tickle : Scheduler → Bool
tickle s = has_idle_threads s

-- IOManager::stopping, at the time `now`: the manager after getNextTimer, and the answer.
unfoldable pub stopping :
    {K : Type 0} → IoManager K → TimerManager → Scheduler → ℕ → TimerManager × Bool
unfolding Scheduler.stopping get_next_timer
stopping m timers s now =
    let (timers', timeout) = get_next_timer timers now in
    (timers', timeout == Timer.no_timeout && m.pending_event_count == 0 && Scheduler.stopping s)

-- The timeout that `idle` gives to epoll_wait: MAX_TIMEOUT, or the next timer's where it is less.
unfoldable pub wait_time : TimerManager → ℕ → TimerManager × ℕ
unfolding get_next_timer
wait_time timers now =
    let (timers', timeout) = get_next_timer timers now in
    (timers', if ltb 5000 timeout then 5000 else timeout)

-- The loop of `idle` over the callbacks of the timers that have come.
unfoldable pub schedule_all : Scheduler → List (Option Callback) → Scheduler
schedule_all s [] = s
schedule_all s (c ∷ cs) = schedule_all (schedule_lock s (cb_task c none)).0 cs
