-- ===== src/IoManager/Fire.antt =====
-- What it means for a descriptor's context to be well formed (corlib/ioscheduler.cpp), and what the
-- triggering of its events does.
use mathlib.Core.List.{append-nil, append_assoc}
use corlib.Base.{
  ℕ, zero, suc, ◌≡◌, refl, ap, subst, ◌∙◌, Bool, true, false, ◌&&◌, ◌||◌, not, none, some, List, [],
  ◌∷◌, ◌++◌, if◌then◌else◌, set, arith,
}
use corlib.Base.Outcome.{done}
use corlib.Callback.{read, write}
use corlib.Scheduler.{ScheduleTask, is_set}
use corlib.IoManager.Mask.{Events, reads_only, writes_only, minus, Epoll}
use corlib.IoManager.Contexts.{EventContext, FdContext, blank_context, event_task, trigger_event}
use corlib.IoManager.{IoManager, decrement, fire, fire_all}

-- The context of an event: blank where the event is not registered; otherwise it has a scheduler and
-- a fiber or a function for it.
abbrev pub Slot : Bool → EventContext → Type 0
Slot false x = x ≡ blank_context
Slot true x = ((s : ℕ) × (x.scheduler ≡ some s)) × (is_set (event_task x) ≡ true)

pub record CtxIsValid (fd : ℕ) (c : FdContext) : Type 0 where
  pub same_fd : c.fd ≡ fd
  pub read_slot : Slot c.events.reads c.read_context
  pub write_slot : Slot c.events.writes c.write_context

-- What is handed to a scheduler when the event of this context is triggered.
abbrev pub posts : EventContext → List (ℕ × ScheduleTask)
posts x = elim x.scheduler [ none ↦ [] | some s ↦ (s, event_task x) ∷ [] ]

-- The context after the events of `which` were triggered.
abbrev pub cleared : FdContext → Events → FdContext
cleared c which = record c {
  read_context = if which.reads then blank_context else c.read_context;
  write_context = if which.writes then blank_context else c.write_context;
  events = minus c.events which;
}

abbrev pub posts_of : FdContext → Events → List (ℕ × ScheduleTask)
posts_of c which =
    (if which.reads then posts c.read_context else [])
    ++ (if which.writes then posts c.write_context else [])

-- The count of pending events less those of `which`.
abbrev pub decrements : Events → ℕ → ℕ
decrements which n =
    let n' = if which.reads then decrement n else n in if which.writes then decrement n' else n'

set-set {ℓ} : {A : Type ℓ} (xs : List A) (i : ℕ) (a b : A) → set (set xs i a) i b ≡ set xs i b
set-set [] i a b = refl
set-set (x ∷ xs) zero a b = refl
set-set (x ∷ xs) (suc i) a b = ap (λ ys. x ∷ ys) (set-set xs i a b)

module _ (epoll : Epoll) where
  open epoll use {Kernel}

  -- The manager after the events of `which` were triggered on the context `c` of `fd`.
  abbrev pub fired : IoManager Kernel → ℕ → FdContext → Events → IoManager Kernel
  fired m fd c which = record m {
    pending_event_count = decrements which m.pending_event_count;
    fd_contexts = set m.fd_contexts fd (cleared c which);
    posted = m.posted ++ posts_of c which;
  }

  pub fire-read :
      (m : IoManager Kernel) (fd : ℕ) (c : FdContext)
      → c.events.reads ≡ true
      → Slot true c.read_context
      → fire epoll m fd c read ≡ done (fired m fd c reads_only, cleared c reads_only)
  unfolding fire trigger_event
  fire-read m fd c e ((s, f), h) = ground (arith, e, f)

  pub fire-write :
      (m : IoManager Kernel) (fd : ℕ) (c : FdContext)
      → c.events.writes ≡ true
      → Slot true c.write_context
      → fire epoll m fd c write ≡ done (fired m fd c writes_only, cleared c writes_only)
  unfolding fire trigger_event
  fire-write m fd c e ((s, f), h) = ground (arith, e, f)

  cleared-cleared :
      (c : FdContext)
      → cleared (cleared c reads_only) writes_only
        ≡ cleared c (record { reads = true; writes = true })
  cleared-cleared c = ground arith

  fired-fired :
      (m : IoManager Kernel) (fd : ℕ) (c : FdContext)
      → fired (fired m fd c reads_only) fd (cleared c reads_only) writes_only
        ≡ fired m fd c (record { reads = true; writes = true })
  fired-fired m fd c =
      rw
        (
          cleared-cleared c,
          set-set m.fd_contexts fd (cleared c reads_only)
              (cleared c (record { reads = true; writes = true })),
          append-nil (posts c.read_context),
          append_assoc m.posted (posts c.read_context) (posts c.write_context),
        )
        refl

  -- Of registered events of a well-formed context each is triggered once, READ first.
  pub fire_all_lem :
      (m : IoManager Kernel) (fd : ℕ) (c : FdContext) (r w : Bool)
      → (r || w) ≡ true
      → (r ≡ true → c.events.reads ≡ true)
      → (w ≡ true → c.events.writes ≡ true)
      → CtxIsValid fd c
      → let which : Events = record { reads = r; writes = w } in
        fire_all epoll m fd c which ≡ done (fired m fd c which, cleared c which)
  unfolding fire_all
  fire_all_lem m fd c false false some_event hr hw v = cc
  fire_all_lem m fd c true false some_event hr hw v =
      rw
        (
          fire-read m fd c (hr refl) (subst (λ b. Slot b c.read_context) (hr refl) v.read_slot),
          fire_all,
        )
        refl
  fire_all_lem m fd c false true some_event hr hw v =
      fire-write m fd c (hw refl) (subst (λ b. Slot b c.write_context) (hw refl) v.write_slot)
  fire_all_lem m fd c true true some_event hr hw v =
      rw
        (
          fire-read m fd c (hr refl) (subst (λ b. Slot b c.read_context) (hr refl) v.read_slot),
          fire_all,
        )
        (fire-write (fired m fd c reads_only) fd (cleared c reads_only) kept
            (subst (λ b. Slot b c.write_context) (hw refl) v.write_slot)
          ∙ rw (fired-fired m fd c, cleared-cleared c) refl)
    where
      kept : (c.events.writes && not false) ≡ true
      kept = rw (hw refl) refl
