-- ===== src/IoManager/Bits.antt =====
-- The masks of events of corlib/ioscheduler.h as ints, and the pairs of Booleans that stand for them
-- (IoManager/Mask): every operation of corlib/ioscheduler.cpp on masks is that on pairs.
use Prim.Native.Nat.{bit_and, bit_or, bit_xor}
use corlib.Base.{ℕ, ◌+◌, ◌-◌, ◌^◌, ◌≡◌, refl, Bool, true, false, not, ◌==◌, if◌then◌else◌}
use corlib.Callback.{Event, no_event, read, write}
use corlib.IoManager.Mask.{Events, has, with_event, without, is_none, both, either, minus}

-- `~a`, on 32 bits.
abbrev pub complement : ℕ → ℕ
complement a = bit_xor a (2 ^ 32 - 1)

-- NONE, READ and WRITE.
abbrev pub code : Event → ℕ
code no_event = 0
code read = 1
code write = 4

abbrev pub mask : Events → ℕ
mask e = (if e.reads then 1 else 0) + (if e.writes then 4 else 0)

-- What holds of one set of events and one event.
abbrev pub SameWithEvent : Events → Event → Type 0
SameWithEvent a e =
    (is_none a ≡ (mask a == 0))
    × (has a e ≡ not (bit_and (mask a) (code e) == 0))
    × (mask (with_event a e) ≡ bit_or (mask a) (code e))
    × (mask (without a e) ≡ bit_and (mask a) (complement (code e)))

-- What holds of two sets.
abbrev pub SameWithSet : Events → Events → Type 0
SameWithSet a b =
    (mask (both a b) ≡ bit_and (mask a) (mask b))
    × (mask (either a b) ≡ bit_or (mask a) (mask b))
    × (mask (minus a b) ≡ bit_and (mask a) (complement (mask b)))
    × (mask a ≡ mask b → a ≡ b)

with_event-same : (r w : Bool) (e : Event) → SameWithEvent (record { reads = r; writes = w }) e
with_event-same true true no_event = (refl, refl, refl, refl)
with_event-same true true read = (refl, refl, refl, refl)
with_event-same true true write = (refl, refl, refl, refl)
with_event-same true false no_event = (refl, refl, refl, refl)
with_event-same true false read = (refl, refl, refl, refl)
with_event-same true false write = (refl, refl, refl, refl)
with_event-same false true no_event = (refl, refl, refl, refl)
with_event-same false true read = (refl, refl, refl, refl)
with_event-same false true write = (refl, refl, refl, refl)
with_event-same false false no_event = (refl, refl, refl, refl)
with_event-same false false read = (refl, refl, refl, refl)
with_event-same false false write = (refl, refl, refl, refl)

abbrev bools : Bool → Bool → Events
bools r w = record { reads = r; writes = w }

with_set-same : (r w r' w' : Bool) → SameWithSet (bools r w) (bools r' w')
with_set-same true true true true = (refl, refl, refl, λ _. refl)
with_set-same true true true false = (refl, refl, refl, λ e. cc)
with_set-same true true false true = (refl, refl, refl, λ e. cc)
with_set-same true true false false = (refl, refl, refl, λ e. cc)
with_set-same true false true true = (refl, refl, refl, λ e. cc)
with_set-same true false true false = (refl, refl, refl, λ _. refl)
with_set-same true false false true = (refl, refl, refl, λ e. cc)
with_set-same true false false false = (refl, refl, refl, λ e. cc)
with_set-same false true true true = (refl, refl, refl, λ e. cc)
with_set-same false true true false = (refl, refl, refl, λ e. cc)
with_set-same false true false true = (refl, refl, refl, λ _. refl)
with_set-same false true false false = (refl, refl, refl, λ e. cc)
with_set-same false false true true = (refl, refl, refl, λ e. cc)
with_set-same false false true false = (refl, refl, refl, λ e. cc)
with_set-same false false false true = (refl, refl, refl, λ e. cc)
with_set-same false false false false = (refl, refl, refl, λ _. refl)

-- The tests `!events` and `events & event` and the masks `events | event`, `events & ~event`, `a & b`,
-- `a | b` and `a & ~b` of the code, on ints of 32 bits, are what the pairs of Booleans give; and two sets
-- with one mask are the same.
pub mask_lem : (a b : Events) (e : Event) → SameWithEvent a e × SameWithSet a b
mask_lem a b e =
    (with_event-same a.reads a.writes e, with_set-same a.reads a.writes b.reads b.writes)
