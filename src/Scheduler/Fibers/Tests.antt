-- ===== src/Scheduler/Fibers/Tests.antt =====
-- A run of Scheduler::run in corlib/scheduler.cpp: two threads take the same fiber.
use corlib.Base.{ℕ, ◌≡◌, ◌≢◌, refl, Bool, true, false, none, some, ◌==◌, if◌then◌else◌}
use corlib.Base.Outcome.{done}
use corlib.Callback.{user}
use corlib.Fiber.{ready, running, term, Fiber, FiberThread, resume, yield, finish}
use corlib.Fiber.Switch.{resumed, resume-resumed}
use corlib.Scheduler.Fibers.{
  picking, locking, locked, inside, World, view, goes, set_owner, store, takes, acquires, resumes,
  Reach, start, next,
}
use corlib.Scheduler.Fibers.Fit.{held}
use corlib.Scheduler.Fibers.Alone.{IsStart, Reach-resumes, Reach-executes}

-- Fiber 9 is that of a task; all others are the main fibers of threads.
abbrev is_task : ℕ → Bool
is_task f = f == 9

abbrev task_fiber : Fiber
task_fiber = record {
  id = 9;
  stacksize = 128000;
  state = ready;
  has_stack = true;
  cb = some (user 1);
  run_in_scheduler = true;
}

abbrev main_fiber : Fiber
main_fiber = record task_fiber { state = running; has_stack = false; cb = none }

abbrev resting : World
resting = record {
  object = λ f. if f == 9 then task_fiber else main_fiber;
  fresh = 10;
  fiber_id = 10;
  fiber_count = 10;
  owner = λ f. none;
  local = λ i. record {
    pc = picking;
    current = some i;
    thread_fiber = some i;
    scheduler_fiber = some i;
    executing = i;
  };
}

resting-IsStart : IsStart is_task resting
resting-IsStart = record {
  idle = λ i. refl;
  has_main = λ i. refl;
  has_scheduler = λ i. refl;
  resting = λ f t r. absurd (let x = rw t at r in cc);
}

abbrev taken : World
taken = goes (goes resting 0 (locking 9)) 1 (locking 9)

abbrev one_locked : World
one_locked = goes (set_owner taken 9 (some 0)) 0 (locked 9)

one_locked-Reach : Reach is_task resting one_locked
one_locked-Reach =
    next (next (next start (takes 0 9 refl refl)) (takes 1 9 refl refl)) (acquires 0 9 refl refl)

Reach-resumes_example :
    (resume (view one_locked 0) 9 ≡ done (resumed (view one_locked 0) 9))
    × (held (one_locked.local 1).pc ≢ some 9)
Reach-resumes_example =
    Reach-resumes is_task 0 1 9 resting-IsStart one_locked-Reach refl refl (λ e. absurd (cc))

abbrev one_inside : World
one_inside = store one_locked 0 (resumed (view one_locked 0) 9) (inside 9)

one_inside-Reach : Reach is_task resting one_inside
one_inside-Reach = next one_locked-Reach (
    resumes 0 9 (resumed (view one_locked 0) 9) refl refl
      (resume-resumed (view one_locked 0) 9 0 refl refl))

Reach-executes_example :
    ((one_inside.object 9).state ≡ running)
    × ((one_inside.local 0).current ≡ some 9)
    × (held (one_inside.local 1).pc ≢ some 9)
    × ((t : FiberThread) × (yield (view one_inside 0) 9 ≡ done t) × ((t.object 9).state ≡ ready))
    × ((t : FiberThread) × (finish (view one_inside 0) false ≡ done t)
        × ((t.object 9).state ≡ term))
Reach-executes_example =
    Reach-executes is_task 0 1 9 false resting-IsStart one_inside-Reach refl (λ e. absurd (cc))
