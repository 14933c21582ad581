-- ===== src/IoManager/Tests.antt =====
-- Runs of corlib/ioscheduler.cpp on an epoll instance that never fails: its state is what it watches.
use corlib.Base.{
  ℕ, ◌≡◌, ◌≢◌, refl, Bool, true, false, Option, none, some, [], ◌∷◌, ◌++◌, ◌==◌, if◌then◌else◌,
  arith,
}
use corlib.Base.Int.{ℤ, pos}
use corlib.Base.Outcome.{done, fault, assertion}
use corlib.Callback.{user, read, write}
use corlib.IoManager.Mask.{Events, reads_only, writes_only, Op, target, Epoll}
use corlib.IoManager.Contexts.{FdContext, Caller, blank_context, new_context, new_contexts}
use corlib.IoManager.{cancel_all, IoManager, initial, make_io, add_event, handle, cancel_event}
use corlib.IoManager.Invariant.{IsValid, replaced-IsValid}
use corlib.IoManager.Resize.{grown_for, initial-IsValid}
use corlib.IoManager.Add.{IsInside, Added, add_event_lem}
use corlib.IoManager.Remove.{Handled}
use corlib.IoManager.Cancel.{Taken}
use corlib.Base.{set}
use corlib.IoManager.Contexts.{contexts_for}
use corlib.IoManager.Calls.{
  handle_lem, handle_unregistered, cancel_event_lem, cancel_all_lem, start, next, adds,
  Runs-IsValid,
}

abbrev pub watched_after : (ℕ → Option Events) → Op → ℕ → Events → ℕ → Option Events
watched_after k op fd e j = if fd == j then target op e else k j

pub sure-done :
    (k : ℕ → Option Events) (op : Op) (fd : ℕ) (e : Events)
    → true ≡ true
    → watched_after k op fd e fd ≡ target op e
sure-done k op fd e p = grind arith

pub sure-other :
    (k : ℕ → Option Events) (op : Op) (fd j : ℕ) (e : Events)
    → j ≢ fd
    → watched_after k op fd e j ≡ k j
sure-other k op fd j e ne = grind arith

abbrev pub sure : Epoll
sure = record {
  Kernel = ℕ → Option Events;
  ctl = λ k op fd e. (watched_after k op fd e, true);
  interest = λ k fd. k fd;
  ctl-done = sure-done;
  ctl-failed = λ k op fd e p. absurd (cc);
  ctl-other = sure-other;
}

abbrev pub empty : ℕ → Option Events
empty fd = none

abbrev pub caller : Caller
caller = record { scheduler = some 1; fiber = 20; running = true }

pub caller-IsInside : IsInside caller
caller-IsInside = ((1, refl), refl)

-- A manager that waits for READ of descriptor 5 with a function and for WRITE with a fiber.
abbrev pub both_ways : FdContext
both_ways = record {
  read_context = record { scheduler = some 1; fiber = none; cb = some (user 3) };
  write_context = record { scheduler = some 1; fiber = some 20; cb = none };
  fd = 5;
  events = record { reads = true; writes = true };
}

abbrev pub busy : IoManager (ℕ → Option Events)
busy = record {
  epoll = watched_after empty Op.ctl_add 5 (record { reads = true; writes = true });
  pipe = 99;
  pending_event_count = 2;
  fd_contexts = new_contexts 0 5 ++ both_ways ∷ new_contexts 6 26;
  posted = [];
}

pub fresh-IsValid : IsValid sure (initial empty 99)
fresh-IsValid = initial-IsValid sure empty 99 (λ fd ne. refl)

pub busy-IsValid : IsValid sure busy
unfolding initial
busy-IsValid =
    replaced-IsValid sure (initial empty 99) 5 (new_context 5) both_ways busy.epoll 2 []
      fresh-IsValid refl
      (record { same_fd = refl; read_slot = ((1, refl), refl); write_slot = ((1, refl), refl) })
      refl (λ j ne. sure-other empty Op.ctl_add 5 j _ ne) (λ t t' e p. omega (arith, e, p))

add_event_lem_example :
    (m' : IoManager (ℕ → Option Events)) × (r : ℤ) × (add_event sure
        (initial empty 99)
        (pos 40)
        read
        (some (user 3))
        caller
      ≡ done (m', r))
    × Added sure (grown_for sure (initial empty 99) 40) 40 read (some (user 3)) caller m' r
add_event_lem_example =
    add_event_lem sure (initial empty 99) 40 read (some (user 3)) caller fresh-IsValid
      (λ e. absurd (cc)) caller-IsInside

handle_lem_example :
    (m' : IoManager (ℕ → Option Events)) × (handle sure busy 5 reads_only false ≡ done m')
    × Handled sure busy 5 both_ways reads_only true m'
handle_lem_example =
    handle_lem sure busy 5 both_ways reads_only false busy-IsValid refl ((λ _. refl), (λ _. refl))

cancel_event_lem_example :
    (m' : IoManager (ℕ → Option Events)) × (r : Bool) × (cancel_event sure busy (pos 5) write
      ≡ done (m', r))
    × Taken sure busy 5 both_ways writes_only true true m' r
cancel_event_lem_example = cancel_event_lem sure busy 5 both_ways write busy-IsValid refl

cancel_all_lem_example :
    (m' : IoManager (ℕ → Option Events)) × (r : Bool) × (cancel_all sure busy (pos 5)
      ≡ done (m', r))
    × Taken sure busy 5 both_ways both_ways.events true true m' r
cancel_all_lem_example = cancel_all_lem sure busy 5 both_ways busy-IsValid refl

-- The manager that waits for WRITE of descriptor 5 only.
abbrev writer : FdContext
writer = record both_ways { read_context = blank_context; events = writes_only }

handle_unregistered_example :
    handle sure
      (record busy { fd_contexts = new_contexts 0 5 ++ writer ∷ [] })
      5
      (record { reads = true; writes = true })
      false
    ≡ fault assertion
handle_unregistered_example =
    handle_unregistered sure (record busy { fd_contexts = new_contexts 0 5 ++ writer ∷ [] }) 5
      writer false refl refl refl

-- The new manager's epoll instance.
abbrev piped : ℕ → Option Events
piped = watched_after empty Op.ctl_add 99 reads_only

-- The new manager after one addEvent.
abbrev reader : IoManager (ℕ → Option Events)
reader = record {
  epoll = watched_after piped Op.ctl_add 5 reads_only;
  pipe = 99;
  pending_event_count = 1;
  fd_contexts =
      new_contexts 0 5
      ++ record both_ways { write_context = blank_context; events = reads_only }
        ∷ new_contexts 6 26;
  posted = [];
}

add_event-reader :
    add_event sure (initial piped 99) (pos 5) read (some (user 3)) caller ≡ done (reader, pos 0)
unfolding add_event initial
add_event-reader = refl

-- The table of 32 contexts is too small for 150 and for 40: the thread for 40 is late.
abbrev raced : IoManager (ℕ → Option Events)
raced = record (initial piped 99) {
  epoll = watched_after piped Op.ctl_add 150 reads_only;
  pending_event_count = 1;
  fd_contexts =
      set (contexts_for (initial piped 99).fd_contexts 150) 150 (record (new_context 150) {
        read_context = record { scheduler = some 1; fiber = none; cb = some (user 3) };
        events = reads_only;
      });
}

made : make_io sure empty 99 ≡ done (initial piped 99)
unfolding make_io
made = refl

Runs-IsValid_example : IsValid sure reader
Runs-IsValid_example =
    Runs-IsValid sure (λ fd. refl)
      (next (start (initial piped 99) made) (
        adds 5 read (some (user 3)) caller reader (pos 0) (λ e. absurd (cc)) caller-IsInside
          add_event-reader))
