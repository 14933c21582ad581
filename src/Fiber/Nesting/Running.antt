-- ===== src/Fiber/Nesting/Running.antt =====
-- Which fibers of a thread of corlib/fiber.cpp are RUNNING, and what a change of one fiber keeps.
use native.Mathlib.Decide.{ℕ_discrete}
use corlib.Base.{ℕ, ◌<◌, ◌≡◌, ◌≢◌, ap, subst, ◌∙◌, ◌⊎◌, inl, inr, true, false, some, Bool-cases}
use corlib.Fiber.{State, running, Fiber, FiberThread, put, home}
use corlib.Fiber.Switch.{put_self, put_other}

-- A thread whose main fiber is `m` and whose scheduler fiber is `s`: `m` itself, or a fiber that runs in
-- `m`.
module _ (m s : ℕ) where
  pub record Nested (t : FiberThread) : Type 0 where
    pub thread : t.thread_fiber ≡ some m
    pub scheduler : t.scheduler_fiber ≡ some s
    pub current : t.current ≡ some t.executing
    pub main_live : m < t.fresh
    pub scheduler_live : s < t.fresh
    pub live : t.executing < t.fresh
    pub main_runs : (t.object m).state ≡ running
    pub runs : (t.object t.executing).state ≡ running
    pub scheduler_home : s ≢ m → (t.object s).run_in_scheduler ≡ false
    pub home_runs :
        t.executing ≢ m
        → (t.object t.executing).run_in_scheduler ≡ true
        → (t.object s).state ≡ running
    pub others :
        (j : ℕ)
        → j < t.fresh
        → (t.object j).state ≡ running
        → (j ≡ m)
          ⊎ ((j ≡ t.executing)
              ⊎ ((j ≡ s) × (t.executing ≢ m) × ((t.object t.executing).run_in_scheduler ≡ true)))

  -- The executing fiber's home, which then executes.
  pub home-cases :
      (t : FiberThread) (f : ℕ)
      → Nested t
      → ((home t f ≡ some s) × ((t.object f).run_in_scheduler ≡ true))
        ⊎ ((home t f ≡ some m) × ((t.object f).run_in_scheduler ≡ false))
  home-cases t f v = elim (Bool-cases (t.object f).run_in_scheduler) [
    | inl e ↦ inl (rw e v.scheduler, e)
    | inr e ↦ inr (rw e v.thread, e)
  ]

  -- The objects change at `f` only, and there not in whose stack it runs.
  pub record Changed (t : FiberThread) (f : ℕ) (o : ℕ → Fiber) : Type 0 where
    pub flag : (o f).run_in_scheduler ≡ (t.object f).run_in_scheduler
    pub rest : (j : ℕ) → j ≢ f → o j ≡ t.object j

  pub put-Changed :
      (t : FiberThread) (f : ℕ) (b : Fiber)
      → b.run_in_scheduler ≡ (t.object f).run_in_scheduler
      → Changed t f (put t f b).object
  put-Changed t f b e = record { flag = rw (put_self t f b) e; rest = λ j ne. put_other t f j b ne }

  pub put_twice-Changed :
      (t : FiberThread) (f : ℕ) (b : Fiber) (a : State)
      → b.run_in_scheduler ≡ (t.object f).run_in_scheduler
      → Changed t f (put (put t f b) f (record ((put t f b).object f) { state = a })).object
  put_twice-Changed t f b a e = record {
    flag =
        rw (put_self (put t f b) f (record ((put t f b).object f) { state = a }))
          (rw (put_self t f b) e);
    rest = λ j ne.
        put_other (put t f b) f j (record ((put t f b).object f) { state = a }) ne
        ∙ put_other t f j b ne;
  }

  pub same_flag :
      (t : FiberThread) (f : ℕ) (o : ℕ → Fiber) (j : ℕ)
      → Changed t f o
      → (o j).run_in_scheduler ≡ (t.object j).run_in_scheduler
  same_flag t f o j c = elim (ℕ_discrete j f) [
    | yes e ↦ rw e c.flag
    | no ne ↦ ap (λ (b : Fiber). b.run_in_scheduler) (c.rest j ne)
  ]

  pub still_runs :
      (t : FiberThread) (f : ℕ) (o : ℕ → Fiber) (j : ℕ)
      → Changed t f o
      → j ≢ f
      → (t.object j).state ≡ running
      → (o j).state ≡ running
  still_runs t f o j c ne e = rw (c.rest j ne) e

  pub ran :
      (t : FiberThread) (f : ℕ) (o : ℕ → Fiber) (j : ℕ)
      → Changed t f o
      → j ≢ f
      → (o j).state ≡ running
      → (t.object j).state ≡ running
  ran t f o j c ne e = rw (c.rest j ne) at e

  -- What runs besides a fiber that stops.
  pub left-others :
      (t : FiberThread) (o : ℕ → Fiber) (j : ℕ)
      → Nested t
      → (o t.executing).state ≢ running
      → Changed t t.executing o
      → j < t.fresh
      → (o j).state ≡ running
      → (j ≡ m) ⊎ ((j ≡ s) × ((t.object t.executing).run_in_scheduler ≡ true))
  left-others t o j v off c lt e =
      let apart : j ≢ t.executing = λ q. off (subst (λ i. (o i).state ≡ running) q e) in
      elim (v.others j lt (ran t t.executing o j c apart e)) [
        | inl q ↦ inl q
        | inr (inl q) ↦ absurd (apart q)
        | inr (inr q) ↦ inr (q.0, q.2)
      ]
