-- ===== src/Fiber/Tests.antt =====
-- A run of corlib/fiber.cpp on a thread with its main fiber, the object 0, and a task fiber, the
-- object 1, that runs a function of the client.
use corlib.Fiber.Lifetime
use corlib.Fiber.Lifetime.{Life, IsNew, makes_main, makes, destroys, Reach-counted}
use corlib.Base.{
  ℕ, map, Distinct, [], ◌∷◌, ◌≡◌, refl, inl, arith, true, false, none, some, ◌==◌, if◌then◌else◌,
}
use corlib.Callback.{user}
use corlib.Fiber.{
  ready, running, Fiber, FiberThread, make_main, make_fiber, destroy, yield_to_ready, get_this,
}
use native.Mathlib.Decide.{ℕ_discrete}
use corlib.Fiber.Nesting.{Nested}
use corlib.Fiber.Control.{resumes, yields, start, next, Reach-Nested}
use corlib.Fiber.Switch.{resumed, yielded, resume-resumed, yield-running}

abbrev main_fiber : Fiber
main_fiber = record {
  id = 0;
  stacksize = 0;
  state = running;
  has_stack = false;
  cb = none;
  run_in_scheduler = false;
}

abbrev task_fiber : Fiber
task_fiber = record {
  id = 1;
  stacksize = 128000;
  state = ready;
  has_stack = true;
  cb = some (user 4);
  run_in_scheduler = true;
}

abbrev thread : FiberThread
thread = record {
  object = λ j. if j == 1 then task_fiber else main_fiber;
  fresh = 2;
  current = some 0;
  thread_fiber = some 0;
  scheduler_fiber = some 0;
  fiber_id = 2;
  fiber_count = 2;
  executing = 0;
}

thread-Nested : Nested 0 0 thread
thread-Nested = record {
  thread = refl;
  scheduler = refl;
  current = refl;
  main_live = omega arith;
  scheduler_live = omega arith;
  live = omega arith;
  main_runs = refl;
  runs = refl;
  scheduler_home = λ ne. absurd (ne refl);
  home_runs = λ ne e. refl;
  others = λ j lt e. elim (ℕ_discrete j 1) [
    | yes q ↦ absurd (grind (arith, e, q))
    | no ne ↦ inl (ground (arith, lt, ne))
  ];
}

-- The task fiber is resumed, and yields.
Reach-Nested_example : Nested 0 0 (yielded (resumed thread 1) 1 0 ready)
unfolding yield_to_ready get_this
Reach-Nested_example = Reach-Nested 0 0 thread-Nested (
    next
      (next start
        (resumes 1 (resumed thread 1) (omega arith) refl (resume-resumed thread 1 0 refl refl)))
      (yields false (yielded (resumed thread 1) 1 0 ready) (λ e. ground arith)
        (yield-running (resumed thread 1) 1 0 refl refl)))

abbrev no_fibers : Life
no_fibers = record {
  thread = record {
    object = λ j. main_fiber;
    fresh = 0;
    current = none;
    thread_fiber = none;
    scheduler_fiber = none;
    fiber_id = 0;
    fiber_count = 0;
    executing = 0;
  };
  live = [];
}

no_fibers-IsNew : IsNew no_fibers
no_fibers-IsNew = record { no_object = refl; no_id = refl; no_count = refl; nothing = refl }

-- Three fibers, of which the second is destroyed.
abbrev three : Life
three = record {
  thread =
      (make_fiber (make_fiber (make_main no_fibers.thread false).0 (some (user 1)) 0 true).0
        (some (user 2)) 0 false).0;
  live = 2 ∷ 1 ∷ 0 ∷ [];
}

abbrev two_left : Life
two_left = record { thread = destroy three.thread 1; live = 2 ∷ 0 ∷ [] }

two_left-Reach : Lifetime.Reach no_fibers two_left
unfolding make_fiber make_main
two_left-Reach =
    Lifetime.next
      (Lifetime.next
        (Lifetime.next (Lifetime.next Lifetime.start (makes_main false))
          (makes (some (user 1)) 0 true))
        (makes (some (user 2)) 0 false))
      (destroys 1 (2 ∷ []) (0 ∷ []) refl)

Reach-counted_example :
    (two_left.thread.fiber_count ≡ 2)
    × Distinct {A = ℕ} (2 ∷ 0 ∷ [])
    × Distinct {A = ℕ} (map (λ f. (two_left.thread.object f).id) (2 ∷ 0 ∷ []))
unfolding destroy make_fiber make_main
Reach-counted_example = Reach-counted no_fibers-IsNew two_left-Reach (omega arith)
