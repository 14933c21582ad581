-- ===== src/Fiber/Switch.antt =====
-- Control in corlib/fiber.cpp: a fiber that is resumed and yields, or ends, gives control back to the
-- fiber that resumed it.
use corlib.Base.{ℕ, ◌≡◌, ◌≢◌, refl, ap, Bool, Option, none, some, arith}
use corlib.Base.Outcome.{done, fault, assertion}
use corlib.Callback.{Callback}
use corlib.Fiber.{
  State, ready, running, term, Fiber, FiberThread, put, get_this, home, resume, yield,
  yield_to_ready, finish,
}

-- The thread where `f` executes after `h` has resumed it.
abbrev pub resumed : FiberThread → ℕ → FiberThread
resumed t f = record (put t f (record (t.object f) { state = running })) {
  current = some f;
  executing = f;
}

pub resume-resumed :
    (t : FiberThread) (f h : ℕ)
    → (t.object f).state ≡ ready
    → home t f ≡ some h
    → resume t f ≡ done (resumed t f)
unfolding resume
resume-resumed t f h r e = rw (r, e, resume) refl

-- What stays the same for all other fibers and for the thread, when control is at `h` again and `f` is
-- in the given state with the given function.
pub record Back (t : FiberThread) (f h : ℕ) (s : State) (cb : Option Callback) (t' : FiberThread)
    : Type 0 where
  pub current : t'.current ≡ some h
  pub executing : t'.executing ≡ h
  pub state : t'.object f ≡ record (t.object f) { state = s; cb = cb }
  pub others : (j : ℕ) → j ≢ f → t'.object j ≡ t.object j
  pub scheduler : t'.scheduler_fiber ≡ t.scheduler_fiber
  pub thread : t'.thread_fiber ≡ t.thread_fiber

pub put_self : (t : FiberThread) (f : ℕ) (b : Fiber) → (put t f b).object f ≡ b
put_self t f b = grind arith

pub put_other : (t : FiberThread) (f j : ℕ) (b : Fiber) → j ≢ f → (put t f b).object j ≡ t.object j
put_other t f j b ne = grind arith

-- The thread after `f`, left in the given state, has yielded to `h`.
abbrev pub yielded : FiberThread → ℕ → ℕ → State → FiberThread
yielded t f h s = record (put t f (record (t.object f) { state = s })) {
  current = some h;
  executing = h;
}

pub yield-running :
    (t : FiberThread) (f h : ℕ)
    → (t.object f).state ≡ running
    → home t f ≡ some h
    → yield t f ≡ done (yielded t f h ready)
unfolding yield
yield-running t f h r e = rw (r, e, yield) refl

pub yield-term :
    (t : FiberThread) (f h : ℕ)
    → (t.object f).state ≡ term
    → home t f ≡ some h
    → yield t f ≡ done (yielded t f h term)
unfolding yield
yield-term t f h r e = rw (r, e, yield) refl

resume-term : (t : FiberThread) (f : ℕ) → (t.object f).state ≡ term → resume t f ≡ fault assertion
unfolding resume
resume-term t f e = rw (e, resume) refl

-- Writing the object of `f` moves no home.
pub home-put :
    (t : FiberThread) (f h : ℕ) (b : Fiber)
    → b.run_in_scheduler ≡ (t.object f).run_in_scheduler
    → home t f ≡ some h
    → home (put t f b) f ≡ some h
home-put t f h b same e = rw (put_self t f b, same) e

module _ (t : FiberThread) (f h : ℕ) (r : (t.object f).state ≡ ready) (e : home t f ≡ some h) where
  home-resumed : home (resumed t f) f ≡ some h
  home-resumed = home-put t f h (record (t.object f) { state = running }) refl e

  state-resumed : ((resumed t f).object f).state ≡ running
  state-resumed =
      ap (λ (b : Fiber). b.state) (put_self t f (record (t.object f) { state = running }))

  -- A READY fiber that is resumed, and then calls yieldToReady, gives control back to its home: the
  -- scheduler fiber or the thread's main fiber. It is READY again, and no other fiber has changed.
  pub yield_to_ready-resume :
      (garbage : Bool)
      → (t1 : FiberThread) × (t2 : FiberThread) × (resume t f ≡ done t1)
        × (t1.executing ≡ f)
        × (yield_to_ready t1 garbage ≡ done t2)
        × Back t f h ready (t.object f).cb t2
  unfolding yield_to_ready get_this
  yield_to_ready-resume garbage = (
    resumed t f,
    yielded (resumed t f) f h ready,
    resume-resumed t f h r e,
    refl,
    yield-running (resumed t f) f h state-resumed home-resumed,
    record {
      current = refl;
      executing = refl;
      state = grind arith;
      others = λ j ne. grind arith;
      scheduler = refl;
      thread = refl;
    },
  )

  -- The thread before the last yield of a fiber whose function has come back.
  abbrev ended : FiberThread
  ended = put (resumed t f) f (record ((resumed t f).object f) { cb = none; state = term })

  -- A READY fiber that is resumed, and whose function then comes back, gives control back to its home
  -- in the same way. It is in state TERM and has no function any more, and resuming it once more
  -- fails the assertion.
  pub finish-resume :
      (garbage : Bool)
      → (t1 : FiberThread) × (t2 : FiberThread) × (resume t f ≡ done t1)
        × (finish t1 garbage ≡ done t2)
        × Back t f h term none t2
        × (resume t2 f ≡ fault assertion)
  unfolding finish get_this
  finish-resume garbage = (
    resumed t f,
    yielded ended f h term,
    resume-resumed t f h r e,
    yield-term ended f h (ap (λ (b : Fiber). b.state) (put_self (resumed t f) f _))
        (home-put (resumed t f) f h _ refl home-resumed),
    record {
      current = refl;
      executing = refl;
      state = grind arith;
      others = λ j ne. grind arith;
      scheduler = refl;
      thread = refl;
    },
    resume-term (yielded ended f h term) f (ap (λ (b : Fiber). b.state) (put_self ended f _)),
  )
