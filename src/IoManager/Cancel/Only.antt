-- ===== src/IoManager/Cancel/Only.antt =====
-- The events of which only one is left, for IOManager::cancelEvent and delEvent of corlib/ioscheduler.cpp.
use corlib.Base.{ℕ, ◌≡◌, refl, true, false, arith}
use corlib.Callback.{Event, no_event, read, write}
use corlib.IoManager.Mask.{
  Events, nothing, reads_only, writes_only, has, without, is_none, both, minus,
}
use corlib.IoManager.Contexts.{FdContext, blank_context, set_event_context}
use corlib.IoManager.{decrement}
use corlib.IoManager.Fire.{cleared, decrements}
use corlib.IoManager.Remove.{Within}

abbrev pub only : Event → Events
only no_event = nothing
only read = reads_only
only write = writes_only

pub without-minus : (e : Events) (event : Event) → without e event ≡ minus e (only event)
without-minus e no_event = ground arith
without-minus e read = ground arith
without-minus e write = ground arith

pub only-Within : (e : Events) (event : Event) → has e event ≡ true → Within (only event) e
only-Within e no_event h = cc
only-Within e read h = ((λ _. h), λ q. absurd (cc))
only-Within e write h = ((λ q. absurd (cc)), λ _. h)

-- What delEvent writes is the context cleared of the event.
pub blanked :
    (c : FdContext) (event : Event)
    → has c.events event ≡ true
    → set_event_context (record c { events = without c.events event }) event blank_context
      ≡ cleared c (only event)
blanked c no_event e = cc
blanked c read e = ground arith
blanked c write e = ground arith

pub decrements-only :
    (c : FdContext) (event : Event) (n : ℕ)
    → has c.events event ≡ true
    → decrements (only event) n ≡ decrement n
decrements-only c no_event n e = cc
decrements-only c read n e = refl
decrements-only c write n e = refl

pub only-none :
    (e : Events) (event : Event) → has e event ≡ false → is_none (both e (only event)) ≡ true
only-none e no_event h = ground arith
only-none e read h = ground arith
only-none e write h = ground arith

pub only-some :
    (e : Events) (event : Event) → has e event ≡ true → is_none (both e (only event)) ≡ false
only-some e no_event h = ground arith
only-some e read h = ground arith
only-some e write h = ground arith
