-- ===== src/IoManager/Contexts.antt =====
-- IOManager::FdContext of corlib/ioscheduler.h and corlib/ioscheduler.cpp: what waits for the events of
-- a descriptor, and the table of the contexts. Schedulers and fibers are named by numbers.
use corlib.Base.{
  ℕ, zero, suc, ◌-◌, ◌*◌, ◌/◌, Bool, ◌&&◌, not, Option, none, some, List, [], ◌∷◌, ◌++◌, ltb,
  if◌then◌else◌, is_some, length, take,
}
use corlib.Base.Outcome.{
  Outcome, done, fault, assertion, null_pointer, assert, or_fault, ◌>>=◌, ◌>>◌,
}
use corlib.Callback.{Callback, Event, no_event, read, write}
use corlib.Scheduler.{ScheduleTask, fiber_task, cb_task}
use corlib.IoManager.Mask.{Events, nothing, has, without}

-- FdContext::EventContext and FdContext.
pub record EventContext : Type 0 where
  pub scheduler : Option ℕ
  pub fiber : Option ℕ
  pub cb : Option Callback

pub record FdContext : Type 0 where
  pub read_context : EventContext
  pub write_context : EventContext
  pub fd : ℕ
  pub events : Events

-- FdContext::resetEventContext.
abbrev pub blank_context : EventContext
blank_context = record { scheduler = none; fiber = none; cb = none }

-- FdContext::getEventContext, and a write through the reference that it returns.
abbrev pub get_event_context : FdContext → Event → Outcome EventContext
get_event_context c no_event = fault assertion
get_event_context c read = done c.read_context
get_event_context c write = done c.write_context

abbrev pub set_event_context : FdContext → Event → EventContext → FdContext
set_event_context c no_event x = c
set_event_context c read x = record c { read_context = x }
set_event_context c write x = record c { write_context = x }

-- The task that triggerEvent makes of an event's context.
abbrev pub event_task : EventContext → ScheduleTask
event_task x = if is_some x.cb then cb_task x.cb none else fiber_task x.fiber none

-- FdContext::triggerEvent: the context, and the scheduler and the task that it is handed.
unfoldable pub trigger_event : FdContext → Event → Outcome (FdContext × ℕ × ScheduleTask)
trigger_event c event = do
  assert (has c.events event)
  x ← get_event_context c event
  s ← or_fault x.scheduler null_pointer
  done (
    set_event_context (record c { events = without c.events event }) event blank_context,
    s,
    event_task x,
  )

abbrev pub new_context : ℕ → FdContext
new_context fd = record {
  read_context = blank_context;
  write_context = blank_context;
  fd = fd;
  events = nothing;
}

-- The contexts of `n` descriptors from `fd` on.
abbrev pub new_contexts : ℕ → ℕ → List FdContext
new_contexts fd zero = []
new_contexts fd (suc n) = new_context fd ∷ new_contexts (suc fd) n

-- IOManager::contextResize.
unfoldable pub context_resize : ℕ → List FdContext → List FdContext
context_resize n cs = take n cs ++ new_contexts (length cs) (n - length cs)

-- The growth in addEvent; the size fd * 1.5 is cut to a whole number.
unfoldable pub contexts_for : List FdContext → ℕ → List FdContext
contexts_for cs fd = if ltb fd (length cs) then cs else context_resize (fd * 3 / 2) cs

-- Who calls addEvent: Scheduler::GetThis(), Fiber::GetThis(), and whether that fiber is RUNNING.
pub record Caller : Type 0 where
  pub scheduler : Option ℕ
  pub fiber : ℕ
  pub running : Bool

-- What addEvent puts into the event's context.
abbrev pub waiter : Caller → Option Callback → Outcome EventContext
waiter who (some c) = done (record { scheduler = who.scheduler; fiber = none; cb = some c })
waiter who none = do
  assert who.running
  done (record { scheduler = who.scheduler; fiber = some who.fiber; cb = none })

abbrev pub is_blank : EventContext → Bool
is_blank x = not (is_some x.scheduler) && not (is_some x.fiber) && not (is_some x.cb)
