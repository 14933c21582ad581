-- ===== src/IoManager/Calls.antt =====
-- The public calls of IOManager in corlib/ioscheduler.cpp and the handling of reported events, on the
-- whole table, and all their sequences.
use corlib.Base.{
  ℕ, ◌≡◌, ◌≢◌, refl, subst, inl, inr, Bool, true, false, Option, none, some, get_elem?,
  Option-cases,
}
use corlib.Base.Int.{ℤ, pos}
use corlib.Base.Outcome.{Outcome, done, fault, assertion}
use corlib.Callback.{Callback, Event, no_event}
use corlib.IoManager.Mask.{minus, Events, nothing, without, ctl_del, Epoll}
use corlib.IoManager.Contexts.{FdContext, Caller, trigger_event}
use corlib.IoManager.{
  IoManager, make_io, keep_only, add_event, handle, real_events, cancel_event, cancel_all,
  del_event, fire_all, fire,
}
use corlib.IoManager.Invariant.{IsValid}
use corlib.IoManager.Resize.{make_io-IsValid}
use corlib.IoManager.Add.{IsInside, add_event_lem}
use corlib.IoManager.Remove.{Within, Handled, handle_in-Handled}
use corlib.IoManager.Cancel.{only, Taken, cancel_in-Taken, cancel_all_in-Taken, del_from-Taken}

module _ (epoll : Epoll) where
  open epoll use {Kernel, ctl, interest}

  -- An event that epoll reports for a descriptor, where EPOLLIN and EPOLLOUT are set for registered
  -- events only: no assertion fails. If no registered event is meant nothing changes. Otherwise,
  -- unless epoll_ctl fails, exactly the events meant are triggered, each once and READ first: what
  -- waits for them is handed to its scheduler, and they are registered no longer, neither in the
  -- context nor in epoll. With EPOLLERR or EPOLLHUP all registered events are meant.
  pub handle_lem :
      (m : IoManager Kernel) (fd : ℕ) (c : FdContext) (reported : Events) (broken : Bool)
      → IsValid epoll m
      → get_elem? m.fd_contexts fd ≡ some c
      → Within reported c.events
      → (m' : IoManager Kernel) × (handle epoll m fd reported broken ≡ done m')
        × Handled epoll m fd c
            (real_events c reported broken)
            (keep_only epoll m.epoll fd (minus c.events (real_events c reported broken))).1
            m'
  unfolding handle
  handle_lem m fd c reported broken v here h =
      let (m', e, w) = handle_in-Handled epoll m fd c reported broken v here h in
      (m', rw (here, handle) e, w)

  -- If both EPOLLIN and EPOLLOUT are reported where only WRITE is registered, the assertion in
  -- triggerEvent fails, unless epoll_ctl fails before.
  pub handle_unregistered :
      (m : IoManager Kernel) (fd : ℕ) (c : FdContext) (broken : Bool)
      → get_elem? m.fd_contexts fd ≡ some c
      → c.events ≡ record { reads = false; writes = true }
      → (ctl m.epoll ctl_del fd nothing).1 ≡ true
      → handle epoll m fd (record { reads = true; writes = true }) broken ≡ fault assertion
  unfolding handle fire_all fire trigger_event
  handle_unregistered m fd c true here e ok = rw (here, e, ok, handle) refl
  handle_unregistered m fd c false here e ok = rw (here, e, ok, handle) refl

  -- cancelEvent on a descriptor of the table: no assertion fails. Where the event is not registered
  -- the answer is false and nothing changes. Otherwise it is true, and unless epoll_ctl fails what
  -- waits for the event is handed to its scheduler, and the event is gone from the context and from
  -- epoll; if epoll_ctl fails the contexts are as they were.
  pub cancel_event_lem :
      (m : IoManager Kernel) (fd : ℕ) (c : FdContext) (event : Event)
      → IsValid epoll m
      → get_elem? m.fd_contexts fd ≡ some c
      → (m' : IoManager Kernel) × (r : Bool) × (cancel_event epoll m (pos fd) event ≡ done (m', r))
        × Taken epoll m fd c
            (only event)
            (keep_only epoll m.epoll fd (without c.events event)).1
            true
            m'
            r
  unfolding cancel_event
  cancel_event_lem m fd c event v here =
      let (m', r, e, w) = cancel_in-Taken epoll m fd c event v here in
      (m', r, rw (here, cancel_event) e, w)

  -- cancelAll on a descriptor of the table: no assertion fails. Where no event is registered the
  -- answer is false and nothing changes. Otherwise it is true, and unless epoll_ctl fails what waits
  -- for the registered events is handed to its scheduler, READ first, and they are gone from the
  -- context and from epoll; if epoll_ctl fails the contexts are as they were.
  pub cancel_all_lem :
      (m : IoManager Kernel) (fd : ℕ) (c : FdContext)
      → IsValid epoll m
      → get_elem? m.fd_contexts fd ≡ some c
      → (m' : IoManager Kernel) × (r : Bool) × (cancel_all epoll m (pos fd) ≡ done (m', r))
        × Taken epoll m fd c c.events (ctl m.epoll ctl_del fd nothing).1 true m' r
  unfolding cancel_all
  cancel_all_lem m fd c v here =
      let (m', r, e, w) = cancel_all_in-Taken epoll m fd c v here in
      (m', r, rw (here, cancel_all) e, w)

  -- delEvent on a descriptor of the table. Where the event is not registered the answer is false and
  -- nothing changes. Otherwise it is true, and unless epoll_ctl fails the event is gone from the
  -- context and from epoll, and nothing is handed to a scheduler; if epoll_ctl fails the answer is true
  -- as well, and the contexts are as they were.
  pub del_event_lem :
      (m : IoManager Kernel) (fd : ℕ) (c : FdContext) (event : Event)
      → IsValid epoll m
      → get_elem? m.fd_contexts fd ≡ some c
      → (m' : IoManager Kernel) × (r : Bool) × (del_event epoll m (pos fd) event ≡ done (m', r))
        × Taken epoll m fd c
            (only event)
            (keep_only epoll m.epoll fd (without c.events event)).1
            false
            m'
            r
  unfolding del_event
  del_event_lem m fd c event v here =
      (_, _, rw (here, del_event) refl, del_from-Taken epoll m fd c event v here)

  no_context :
      {A : Type 0} (m m' : IoManager Kernel) (a r : A)
      → IsValid epoll m
      → ◌≡◌ {A = Outcome (IoManager Kernel × A)} (done (m, a)) (done (m', r))
      → IsValid epoll m'
  no_context m m' a r v e = let p : m ≡ m' = cc in subst (IsValid epoll) p v

  -- What happens to one manager, in any order but not two at a time: the calls of its clients from inside
  -- a scheduler's fiber, and the events that epoll reports, each with any answers of epoll_ctl. Calls of
  -- addEvent that overlap between the size check and contextResize are not among these runs, and
  -- neither are callers without a scheduler.
  pub data Step (m : IoManager Kernel) : IoManager Kernel → Type 0 where
    adds :
        (fd : ℕ) (event : Event) (cb : Option Callback) (who : Caller) (m' : IoManager Kernel)
        (r : ℤ)
        → event ≢ no_event
        → IsInside who
        → add_event epoll m (pos fd) event cb who ≡ done (m', r)
        → Step m m'
    dels :
        (fd : ℕ) (event : Event) (m' : IoManager Kernel) (r : Bool)
        → del_event epoll m (pos fd) event ≡ done (m', r)
        → Step m m'
    cancels :
        (fd : ℕ) (event : Event) (m' : IoManager Kernel) (r : Bool)
        → cancel_event epoll m (pos fd) event ≡ done (m', r)
        → Step m m'
    cancels_all :
        (fd : ℕ) (m' : IoManager Kernel) (r : Bool)
        → cancel_all epoll m (pos fd) ≡ done (m', r)
        → Step m m'
    reports :
        (fd : ℕ) (c : FdContext) (reported : Events) (broken : Bool) (m' : IoManager Kernel)
        → get_elem? m.fd_contexts fd ≡ some c
        → Within reported c.events
        → handle epoll m fd reported broken ≡ done m'
        → Step m m'

  Step-IsValid : {m m' : IoManager Kernel} → Step m m' → IsValid epoll m → IsValid epoll m'
  unfolding del_event cancel_event cancel_all
  Step-IsValid {m} (adds fd event cb who m' r ne h e) v =
      let (n, s, q, w) = add_event_lem epoll m fd event cb who v ne h in
      let p : n ≡ m' = cc (q, e) in subst (IsValid epoll) p w.valid
  Step-IsValid {m} (dels fd event m' r e) v = elim (Option-cases (get_elem? m.fd_contexts fd)) [
    | inl here ↦ no_context m m' false r v (rw (here, del_event) at e)
    | inr (c, here) ↦
        let (n, s, q, w) = del_event_lem m fd c event v here in
        let p : n ≡ m' = cc (q, e) in subst (IsValid epoll) p w.valid
  ]
  Step-IsValid {m} (cancels fd event m' r e) v = elim (Option-cases (get_elem? m.fd_contexts fd)) [
    | inl here ↦ no_context m m' false r v (rw (here, cancel_event) at e)
    | inr (c, here) ↦
        let (n, s, q, w) = cancel_event_lem m fd c event v here in
        let p : n ≡ m' = cc (q, e) in subst (IsValid epoll) p w.valid
  ]
  Step-IsValid {m} (cancels_all fd m' r e) v = elim (Option-cases (get_elem? m.fd_contexts fd)) [
    | inl here ↦ no_context m m' false r v (rw (here, cancel_all) at e)
    | inr (c, here) ↦
        let (n, s, q, w) = cancel_all_lem m fd c v here in
        let p : n ≡ m' = cc (q, e) in subst (IsValid epoll) p w.valid
  ]
  Step-IsValid {m} (reports fd c reported broken m' here h e) v =
      let (n, q, w) = handle_lem m fd c reported broken v here h in
      let p : n ≡ m' = cc (q, e) in subst (IsValid epoll) p w.valid

  pub data Runs (k : Kernel) (pipe : ℕ) : IoManager Kernel → Type 0 where
    start : (m : IoManager Kernel) → make_io epoll k pipe ≡ done m → Runs k pipe m
    next : {m m' : IoManager Kernel} → Runs k pipe m → Step m m' → Runs k pipe m'

  -- In every state that a manager reaches, from its constructor with an empty epoll instance, by
  -- calls and reports of which no two overlap, where addEvent is called by fibers that run in a scheduler
  -- only and epoll reports EPOLLIN and EPOLLOUT for registered events: m_pendingEventCount
  -- is the number of registered events in its table, modulo 2 ^ 64; epoll watches for each descriptor but
  -- the manager's own pipe exactly its registered events; each of these has a scheduler and a fiber or a function that
  -- waits for it, and the contexts of all other events are blank.
  pub Runs-IsValid :
      {k : Kernel} {pipe : ℕ} {m : IoManager Kernel}
      → ((fd : ℕ) → interest k fd ≡ none)
      → Runs k pipe m
      → IsValid epoll m
  Runs-IsValid {k} {pipe} clean (start m e) = make_io-IsValid epoll k pipe m clean e
  Runs-IsValid clean (next r s) = Step-IsValid s (Runs-IsValid clean r)
