-- ===== src/Fiber.antt =====
-- corlib/fiber.h and corlib/fiber.cpp: the fibers of one thread and the passing of control between
-- them. A pointer to a fiber is a number into a store of objects. swapcontext is taken to succeed;
-- what it does is the change of `executing`, the fiber whose context runs.
pub mod Switch
pub mod Nesting
pub mod Control
pub mod Lifetime
pub mod Tests
use corlib.Base.{
  ℕ, suc, ◌+◌, ◌-◌, ◌%◌, ◌^◌, Bool, true, false, ◌&&◌, ◌||◌, Option, none, some, ◌==◌,
  if◌then◌else◌,
}
use corlib.Base.Outcome.{Outcome, done, fault, null_pointer, assert, or_fault, ◌>>=◌, ◌>>◌}
use corlib.Callback.{Callback}

-- Fiber::State.
pub data State : Type 0 where
  ready running term : State

abbrev pub is_ready : State → Bool
is_ready s = elim s [ ready ↦ true | _ ↦ false ]

abbrev pub is_running : State → Bool
is_running s = elim s [ running ↦ true | _ ↦ false ]

abbrev pub is_term : State → Bool
is_term s = elim s [ term ↦ true | _ ↦ false ]

-- class Fiber. `has_stack` says that m_stack is not null.
pub record Fiber : Type 0 where
  pub id : ℕ
  pub stacksize : ℕ
  pub state : State
  pub has_stack : Bool
  pub cb : Option Callback
  pub run_in_scheduler : Bool

-- The objects, of which those below `fresh` are made; t_fiber, t_thread_fiber and t_scheduler_fiber
-- of the thread; s_fiber_id and s_fiber_count; and the fiber whose context executes.
pub record FiberThread : Type 0 where
  pub object : ℕ → Fiber
  pub fresh : ℕ
  pub current : Option ℕ
  pub thread_fiber : Option ℕ
  pub scheduler_fiber : Option ℕ
  pub fiber_id : ℕ
  pub fiber_count : ℕ
  pub executing : ℕ

abbrev pub put : FiberThread → ℕ → Fiber → FiberThread
put t f b = record t { object = λ j. if f == j then b else t.object j }

-- `++` and `--` of the counters, on 64 bits.
abbrev pub increment : ℕ → ℕ
increment n = (n + 1) % 2 ^ 64

abbrev pub decrement : ℕ → ℕ
decrement n = (n + (2 ^ 64 - 1)) % 2 ^ 64

-- Fiber::SetThis and Fiber::SetSchedulerFiber.
abbrev pub set_this : FiberThread → Option ℕ → FiberThread
set_this t f = record t { current = f }

abbrev pub set_scheduler_fiber : FiberThread → Option ℕ → FiberThread
set_scheduler_fiber t f = record t { scheduler_fiber = f }

-- Fiber::Fiber(), for the thread's main fiber. m_runInScheduler is not initialised: it is `garbage`.
unfoldable pub make_main : FiberThread → Bool → FiberThread × ℕ
make_main t garbage = (
  record (put t t.fresh (record {
    id = t.fiber_id;
    stacksize = 0;
    state = running;
    has_stack = false;
    cb = none;
    run_in_scheduler = garbage;
  })) {
    fresh = suc t.fresh;
    current = some t.fresh;
    fiber_id = increment t.fiber_id;
    fiber_count = increment t.fiber_count;
  },
  t.fresh,
)

-- Fiber::GetThis. The main fiber that it makes is the one that executes.
unfoldable pub get_this : FiberThread → Bool → FiberThread × ℕ
unfolding make_main
get_this t garbage = elim t.current [
  | some f ↦ (t, f)
  | none ↦
      let (t', f) = make_main t garbage in
      (record t' { thread_fiber = some f; scheduler_fiber = some f; executing = f }, f)
]

-- Fiber::Fiber(cb, stacksize, run_in_scheduler).
unfoldable pub make_fiber : FiberThread → Option Callback → ℕ → Bool → FiberThread × ℕ
make_fiber t cb stacksize run_in_scheduler = (
  record (put t t.fresh (record {
    id = t.fiber_id;
    stacksize = if stacksize == 0 then 128000 else stacksize;
    state = ready;
    has_stack = true;
    cb = cb;
    run_in_scheduler = run_in_scheduler;
  })) {
    fresh = suc t.fresh;
    fiber_id = increment t.fiber_id;
    fiber_count = increment t.fiber_count;
  },
  t.fresh,
)

-- Fiber::~Fiber: the stack is freed.
unfoldable pub destroy : FiberThread → ℕ → FiberThread
destroy t f = record (put t f (record (t.object f) { has_stack = false })) {
  fiber_count = decrement t.fiber_count;
}

-- Fiber::reset.
unfoldable pub reset : FiberThread → ℕ → Option Callback → Outcome FiberThread
reset t f cb = do
  assert ((t.object f).has_stack && is_term (t.object f).state)
  done (put t f (record (t.object f) { state = ready; cb = cb }))

-- The fiber that resume leaves and yield returns to.
abbrev pub home : FiberThread → ℕ → Option ℕ
home t f = if (t.object f).run_in_scheduler then t.scheduler_fiber else t.thread_fiber

-- Fiber::resume, up to the moment at which the fiber's own context executes.
unfoldable pub resume : FiberThread → ℕ → Outcome FiberThread
resume t f = do
  assert (is_ready (t.object f).state)
  h ← or_fault (home t f) null_pointer
  done (record (put t f (record (t.object f) { state = running })) {
    current = some f;
    executing = f;
  })

-- Fiber::yield, up to the moment at which the fiber's home executes.
unfoldable pub yield : FiberThread → ℕ → Outcome FiberThread
yield t f = do
  assert (is_running (t.object f).state || is_term (t.object f).state)
  h ← or_fault (home t f) null_pointer
  done
      (record (put t f
        (record (t.object f) { state = if is_term (t.object f).state then term else ready })) {
          current = some h;
          executing = h;
        })

-- Fiber::yieldToReady.
unfoldable pub yield_to_ready : FiberThread → Bool → Outcome FiberThread
unfolding get_this yield
yield_to_ready t garbage = let (t', f) = get_this t garbage in yield t' f

-- Fiber::MainFunc behind the call of m_cb.
unfoldable pub finish : FiberThread → Bool → Outcome FiberThread
unfolding get_this yield
finish t garbage =
    let (t', f) = get_this t garbage in
    yield (put t' f (record (t'.object f) { cb = none; state = term })) f
