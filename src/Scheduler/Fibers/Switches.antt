-- ===== src/Scheduler/Fibers/Switches.antt =====
-- Each step of a thread of Scheduler::run in corlib/scheduler.cpp keeps the invariant, and finds the fiber of its
-- task as corlib/fiber.cpp expects it.
mod Threads
pub use Threads.*
use native.Mathlib.Decide.{ℕ_discrete}
use corlib.Base.{
  ℕ, ◌≡◌, ◌≢◌, ◌⊎◌, inl, inr, refl, sym, ap, ◌∙◌, subst, Bool, true, false, none, some, is_some,
  ==_iff, Bool-cases, Option-cases, arith,
}
use corlib.Base.Outcome.{done}
use corlib.Fiber.{
  State, ready, running, term, Fiber, put, get_this, home, is_term, resume, yield, finish,
}
use corlib.Fiber.Switch.{
  put_self, put_other, home-put, resumed, resume-resumed, yielded, yield-running, yield-term,
}
use corlib.Scheduler.Fibers.{
  Pc, picking, locking, locked, inside, back, Local, World, view, goes, set_owner, store,
}
use corlib.Scheduler.Fibers.Fit.{
  held, target, inner, inner-held, held-target, Fit, Inv, kept-Fit, changed-Inv, local_self,
  local_other, others-Fit, held_once,
}

module _ (is_task : ℕ → Bool) where
  -- Every fiber has a home on every thread.
  home-some : (w : World) (i f : ℕ) → Inv is_task w → (h : ℕ) × (home (view w i) f ≡ some h)
  home-some w i f v = elim (Bool-cases (w.object f).run_in_scheduler) [
    | inl e ↦ elim (Option-cases (w.local i).scheduler_fiber) [
      | inl n ↦ absurd (let x = rw n at (v.threads i).has_scheduler in cc)
      | inr (h, q) ↦ (h, rw e q)
    ]
    | inr e ↦ elim (Option-cases (w.local i).thread_fiber) [
      | inl n ↦ absurd (let x = rw n at (v.threads i).has_main in cc)
      | inr (h, q) ↦ (h, rw e q)
    ]
  ]

  State-cases : (a : State) → (a ≡ ready) ⊎ ((a ≡ running) ⊎ (a ≡ term))
  State-cases ready = inl refl
  State-cases running = inr (inl refl)
  State-cases term = inr (inr refl)

  -- The state of a fiber whose mutex a thread has just taken, if it has not ended.
  locked-ready :
      (w : World) (i f : ℕ)
      → Inv is_task w
      → (w.local i).pc ≡ locked f
      → is_term (w.object f).state ≡ false
      → (w.object f).state ≡ ready
  locked-ready w i f v at alive = elim (State-cases (w.object f).state) [
    | inl e ↦ e
    | inr (inl r) ↦
        let task = (v.threads i).for_task f (rw at refl) in
        let (j, e) = v.runs_inside f task r in
        let p = held_once is_task w i j f v (rw at refl) (inner-held is_task _ f e) in
        absurd
          (let x = subst (λ j. inner (w.local j).pc ≡ some f) (sym p) e in let y = rw at at x in cc)
    | inr (inr t) ↦ absurd (let x = rw t at alive in cc)
  ]

  pub resumes_lem :
      (w : World) (i f : ℕ)
      → Inv is_task w
      → (w.local i).pc ≡ locked f
      → is_term (w.object f).state ≡ false
      → resume (view w i) f ≡ done (resumed (view w i) f)
  resumes_lem w i f v at alive =
      let (h, e) = home-some w i f v in
      resume-resumed (view w i) f h (locked-ready w i f v at alive) e

  pub yields_lem :
      (w : World) (i f : ℕ)
      → Inv is_task w
      → (w.local i).pc ≡ inside f
      → (h : ℕ) × (yield (view w i) f ≡ done (yielded (view w i) f h ready))
  yields_lem w i f v at =
      let (h, e) = home-some w i f v in
      (h, yield-running (view w i) f h ((v.threads i).inside_runs f (rw at refl)).0 e)

  abbrev pub ended : World → ℕ → Fiber
  ended w f = record (w.object f) { cb = none; state = term }

  pub finishes_lem :
      (w : World) (i f : ℕ) (garbage : Bool)
      → Inv is_task w
      → (w.local i).pc ≡ inside f
      → (h : ℕ) × (finish (view w i) garbage
          ≡ done (yielded (put (view w i) f (ended w f)) f h term))
  unfolding finish get_this
  finishes_lem w i f garbage v at =
      let (h, e) = home-some w i f v in
      let cur = ((v.threads i).inside_runs f (rw at refl)).1 in
      (
        h,
        rw cur (
            yield-term (put (view w i) f (ended w f)) f h
              (ap (λ (b : Fiber). b.state) (put_self (view w i) f (ended w f)))
              (home-put (view w i) f h (ended w f) refl e)),
      )
