-- ===== src/IoManager/Mask.antt =====
-- The sets of events of corlib/ioscheduler.h, and the epoll calls of corlib/ioscheduler.cpp, which
-- are a parameter (`Epoll`).
use corlib.Base.{ℕ, ◌≡◌, ◌≢◌, Bool, true, false, ◌&&◌, ◌||◌, not, Option, none, some}
use corlib.Callback.{Event, no_event, read, write}

-- A set of events: the bits READ (EPOLLIN, 1) and WRITE (EPOLLOUT, 4) of a mask.
pub record Events : Type 0 where
  pub reads : Bool
  pub writes : Bool

abbrev pub nothing : Events
nothing = record { reads = false; writes = false }

abbrev pub reads_only : Events
reads_only = record { reads = true; writes = false }

abbrev pub writes_only : Events
writes_only = record { reads = false; writes = true }

-- `events & event`, as a condition.
abbrev pub has : Events → Event → Bool
has e no_event = false
has e read = e.reads
has e write = e.writes

-- `events | event`.
abbrev pub with_event : Events → Event → Events
with_event e no_event = e
with_event e read = record e { reads = true }
with_event e write = record e { writes = true }

-- `events & ~event`.
abbrev pub without : Events → Event → Events
without e no_event = e
without e read = record e { reads = false }
without e write = record e { writes = false }

-- `!events`.
abbrev pub is_none : Events → Bool
is_none e = not e.reads && not e.writes

-- `a & b`, `a | b` and `a & ~b`.
abbrev pub both : Events → Events → Events
both a b = record { reads = a.reads && b.reads; writes = a.writes && b.writes }

abbrev pub either : Events → Events → Events
either a b = record { reads = a.reads || b.reads; writes = a.writes || b.writes }

abbrev pub minus : Events → Events → Events
minus a b = record { reads = a.reads && not b.reads; writes = a.writes && not b.writes }

-- EPOLL_CTL_ADD, EPOLL_CTL_MOD and EPOLL_CTL_DEL.
pub data Op : Type 0 where
  ctl_add ctl_mod ctl_del : Op

-- What a call that succeeds leaves in the interest list for its descriptor.
abbrev pub target : Op → Events → Option Events
target ctl_add e = some e
target ctl_mod e = some e
target ctl_del e = none

-- epoll_ctl(m_epfd, op, fd, &event), with true where it returns 0. `interest` is what the instance
-- watches for a descriptor with its FdContext as data; EPOLLET is always set.
pub record Epoll : Type 1 where
  pub Kernel : Type 0
  pub ctl : Kernel → Op → ℕ → Events → Kernel × Bool
  pub interest : Kernel → ℕ → Option Events
  pub ctl-done :
      (k : Kernel) (op : Op) (fd : ℕ) (e : Events)
      → (ctl k op fd e).1 ≡ true
      → interest (ctl k op fd e).0 fd ≡ target op e
  pub ctl-failed :
      (k : Kernel) (op : Op) (fd : ℕ) (e : Events)
      → (ctl k op fd e).1 ≡ false
      → interest (ctl k op fd e).0 fd ≡ interest k fd
  pub ctl-other :
      (k : Kernel) (op : Op) (fd j : ℕ) (e : Events)
      → j ≢ fd
      → interest (ctl k op fd e).0 j ≡ interest k j
