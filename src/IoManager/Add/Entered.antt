-- ===== src/IoManager/Add/Entered.antt =====
-- A context into which IOManager::addEvent of corlib/ioscheduler.cpp has entered an event.
use corlib.Base.{
  ℕ, ◌+◌, ◌≡◌, ◌≢◌, refl, Bool, true, false, Option, none, some, if◌then◌else◌, is_some, arith,
}
use corlib.Base.Outcome.{done}
use corlib.Callback.{Callback, Event, no_event, read, write}
use corlib.IoManager.Mask.{Events, has, with_event, ctl_add, ctl_mod, target}
use corlib.IoManager.Contexts.{
  EventContext, FdContext, set_event_context, get_event_context, is_blank, Caller, waiter,
}
use corlib.IoManager.Fire.{CtxIsValid, Slot}
use corlib.IoManager.Invariant.{count, watch}

-- What waits for the event: the function that was given, or else the calling fiber.
abbrev pub waiting : Caller → Option Callback → EventContext
waiting who cb = record {
  scheduler = who.scheduler;
  fiber = if is_some cb then none else some who.fiber;
  cb = cb;
}

-- The caller runs in a fiber of a scheduler.
abbrev pub IsInside : Caller → Type 0
IsInside who = ((s : ℕ) × (who.scheduler ≡ some s)) × (who.running ≡ true)

pub waiter-waiting :
    (who : Caller) (cb : Option Callback) → IsInside who → waiter who cb ≡ done (waiting who cb)
waiter-waiting who none h = rw h.1 refl
waiter-waiting who (some c) h = refl

pub waiting-Slot : (who : Caller) (cb : Option Callback) → IsInside who → Slot true (waiting who cb)
waiting-Slot who none h = (h.0, refl)
waiting-Slot who (some c) h = (h.0, refl)

Slot-is_blank : (b : Bool) (x : EventContext) → b ≡ false → Slot b x → is_blank x ≡ true
Slot-is_blank true x e h = absurd (cc)
Slot-is_blank false x e h = rw h refl

abbrev pub entered : FdContext → Event → EventContext → FdContext
entered c event y = set_event_context (record c { events = with_event c.events event }) event y

pub entered-IsValid :
    (fd : ℕ) (c : FdContext) (event : Event) (y : EventContext)
    → CtxIsValid fd c
    → Slot true y
    → CtxIsValid fd (entered c event y)
entered-IsValid fd c no_event y v h = v
entered-IsValid fd c read y v h = record {
  same_fd = v.same_fd;
  read_slot = h;
  write_slot = v.write_slot;
}
entered-IsValid fd c write y v h = record {
  same_fd = v.same_fd;
  read_slot = v.read_slot;
  write_slot = h;
}

pub count-entered :
    (c : FdContext) (event : Event) (y : EventContext)
    → event ≢ no_event
    → has c.events event ≡ false
    → count (entered c event y) ≡ count c + 1
count-entered c no_event y ne e = absurd (ne refl)
count-entered c read y ne e = ground (arith, e)
count-entered c write y ne e = ground (arith, e)

pub watch-entered :
    (c : FdContext) (event : Event) (y : EventContext)
    → event ≢ no_event
    → watch (entered c event y).events ≡ some (with_event c.events event)
watch-entered c no_event y ne = absurd (ne refl)
watch-entered c read y ne = refl
watch-entered c write y ne = ground arith

pub target-add : (b : Bool) (e : Events) → target (if b then ctl_add else ctl_mod) e ≡ some e
target-add true e = refl
target-add false e = refl

pub blank_before :
    (fd : ℕ) (c : FdContext) (event : Event)
    → event ≢ no_event
    → has c.events event ≡ false
    → CtxIsValid fd c
    → (x : EventContext) × (get_event_context c event ≡ done x) × (is_blank x ≡ true)
blank_before fd c no_event ne e v = absurd (ne refl)
blank_before fd c read ne e v = (c.read_context, refl, Slot-is_blank _ _ e v.read_slot)
blank_before fd c write ne e v = (c.write_context, refl, Slot-is_blank _ _ e v.write_slot)
