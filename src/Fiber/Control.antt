-- ===== src/Fiber/Control.antt =====
-- The operations of corlib/fiber.cpp on one thread, in any order that the library uses, keep what
-- Fiber/Nesting says of the fibers that run.
use native.Mathlib.Decide.{ℕ_discrete}
use corlib.Base.{
  ℕ, ◌<◌, ◌≡◌, ◌≢◌, refl, sym, ap, subst, ◌∙◌, ◌⊎◌, inl, inr, Bool, true, Option, none, some, arith,
  if◌then◌else◌, Bool-cases, ◌==◌, ◌&&◌,
}
use corlib.Base.Outcome.{done}
use corlib.Callback.{Callback}
use corlib.Fiber.{
  State, ready, running, term, Fiber, FiberThread, put, get_this, make_fiber, reset, home, resume,
  yield, yield_to_ready, finish, is_term,
}
use corlib.Fiber.Switch.{
  put_self, put_other, resumed, resume-resumed, yielded, yield-running, yield-term, home-put,
}
use corlib.Fiber.Nesting.{
  Nested, home-cases, put-Changed, put_twice-Changed, left-Nested, entered-Nested, idle-Nested,
}

module _ (m s : ℕ) where
  -- What a fiber may do: make another, reset an ended one, resume one whose home it is, and, unless it is
  -- the main fiber, yield or come to its end.
  pub data Step (t : FiberThread) : FiberThread → Type 0 where
    makes :
        (cb : Option Callback) (stacksize : ℕ) (in_scheduler : Bool)
        → Step t (make_fiber t cb stacksize in_scheduler).0
    resets : (f : ℕ) (cb : Option Callback) (t' : FiberThread) → reset t f cb ≡ done t' → Step t t'
    resumes :
        (f : ℕ) (t' : FiberThread)
        → f < t.fresh
        → home t f ≡ some t.executing
        → resume t f ≡ done t'
        → Step t t'
    yields :
        (garbage : Bool) (t' : FiberThread)
        → t.executing ≢ m
        → yield_to_ready t garbage ≡ done t'
        → Step t t'
    finishes :
        (garbage : Bool) (t' : FiberThread)
        → t.executing ≢ m
        → finish t garbage ≡ done t'
        → Step t t'

  makes-Nested :
      (t : FiberThread) (cb : Option Callback) (stacksize : ℕ) (in_scheduler : Bool)
      → Nested m s t
      → Nested m s (make_fiber t cb stacksize in_scheduler).0
  unfolding make_fiber
  makes-Nested t cb stacksize in_scheduler v = record {
    thread = v.thread;
    scheduler = v.scheduler;
    current = v.current;
    main_live = omega (arith, v.main_live);
    scheduler_live = omega (arith, v.scheduler_live);
    live = omega (arith, v.live);
    main_runs = rw (same m v.main_live) v.main_runs;
    runs = rw (same t.executing v.live) v.runs;
    scheduler_home = λ ne. rw (same s v.scheduler_live) (v.scheduler_home ne);
    home_runs =
        λ ne e. rw (same s v.scheduler_live) (v.home_runs ne (rw (same t.executing v.live) at e));
    others = λ j lt e. elim (ℕ_discrete j t.fresh) [
      | yes fresh ↦ absurd (grind (arith, e, fresh))
      | no ne ↦
          let old : j < t.fresh = ground (arith, lt, ne) in
          rw (same t.executing v.live) (v.others j old (rw (same j old) at e))
    ];
  }
    where
      same :
          (j : ℕ)
          → j < t.fresh
          → (put t t.fresh (record {
            id = t.fiber_id;
            stacksize = if stacksize == 0 then 128000 else stacksize;
            state = ready;
            has_stack = true;
            cb = cb;
            run_in_scheduler = in_scheduler;
          })).object
              j
            ≡ t.object j
      same j lt = put_other t t.fresh j _ (λ e. omega (arith, e, lt))

  put-stopped :
      (t : FiberThread) (f : ℕ) (b : Fiber)
      → b.state ≢ running
      → ((put t f b).object f).state ≢ running
  put-stopped t f b ne r = ne (sym (ap (λ (x : Fiber). x.state) (put_self t f b)) ∙ r)

  State-cases : (a : State) → (a ≡ ready) ⊎ ((a ≡ running) ⊎ (a ≡ term))
  State-cases ready = inl refl
  State-cases running = inr (inl refl)
  State-cases term = inr (inr refl)

  resumes-Nested :
      (t t' : FiberThread) (f : ℕ)
      → Nested m s t
      → f < t.fresh
      → home t f ≡ some t.executing
      → resume t f ≡ done t'
      → Nested m s t'
  unfolding resume
  resumes-Nested t t' f v lt hm e = elim (State-cases (t.object f).state) [
    | inl was ↦
        let q : resumed t f ≡ t' = cc (resume-resumed t f t.executing was hm, e) in
        subst (Nested m s) q (
          entered-Nested m s t _ f v lt hm was (ap (λ (b : Fiber). b.state) (put_self t f _))
            (put-Changed m s t f _ refl))
    | inr (inl was) ↦ absurd (let q = rw was at e in cc)
    | inr (inr was) ↦ absurd (let q = rw was at e in cc)
  ]

  resets-Nested :
      (t t' : FiberThread) (f : ℕ) (cb : Option Callback)
      → Nested m s t
      → reset t f cb ≡ done t'
      → Nested m s t'
  unfolding reset
  resets-Nested t t' f cb v e =
      elim (Bool-cases ((t.object f).has_stack && is_term (t.object f).state)) [
        | inl y ↦
            let q : put t f (record (t.object f) { state = ready; cb = cb }) ≡ t' =
              (let k = rw y at e in cc) in
            subst (Nested m s) q (
              idle-Nested m s t _ f v (λ r. absurd (ground (arith, r, y)))
                (put-stopped t f (record (t.object f) { state = ready; cb = cb }) (λ r. cc))
                (put-Changed m s t f _ refl))
        | inr n ↦ absurd (let k = rw n at e in cc)
      ]

  yields-Nested :
      (t t' : FiberThread) (garbage : Bool)
      → Nested m s t
      → t.executing ≢ m
      → yield_to_ready t garbage ≡ done t'
      → Nested m s t'
  unfolding yield_to_ready get_this
  yields-Nested t t' garbage v ne e = elim (home-cases m s t t.executing v) [
    | inl (hm, _) ↦ go s hm
    | inr (hm, _) ↦ go m hm
  ]
    where
      go : (h : ℕ) → home t t.executing ≡ some h → Nested m s t'
      go h hm =
          let was : yield t t.executing ≡ done t' = rw v.current at e in
          let q : yielded t t.executing h ready ≡ t' =
            cc (yield-running t t.executing h v.runs hm, was) in
          subst (Nested m s) q (
            left-Nested m s t _ h v ne hm
              (put-stopped t t.executing (record (t.object t.executing) { state = ready })
                (λ r. cc))
              (put-Changed m s t t.executing _ refl))

  finishes-Nested :
      (t t' : FiberThread) (garbage : Bool)
      → Nested m s t
      → t.executing ≢ m
      → finish t garbage ≡ done t'
      → Nested m s t'
  unfolding finish get_this
  finishes-Nested t t' garbage v ne e = elim (home-cases m s t t.executing v) [
    | inl (hm, _) ↦ go s hm
    | inr (hm, _) ↦ go m hm
  ]
    where
      last : Fiber
      last = record (t.object t.executing) { cb = none; state = term }

      go : (h : ℕ) → home t t.executing ≡ some h → Nested m s t'
      go h hm =
          let was : yield (put t t.executing last) t.executing ≡ done t' = rw v.current at e in
          let q : yielded (put t t.executing last) t.executing h term ≡ t' = cc (
            yield-term (put t t.executing last) t.executing h
                (ap (λ (b : Fiber). b.state) (put_self t t.executing last))
                (home-put t t.executing h last refl hm),
            was,
          ) in
          subst (Nested m s) q (
            left-Nested m s t _ h v ne hm
              (put-stopped (put t t.executing last) t.executing
                (record ((put t t.executing last).object t.executing) { state = term }) (λ r. cc))
              (put_twice-Changed m s t t.executing last term refl))

  Step-Nested : {t t' : FiberThread} → Step t t' → Nested m s t → Nested m s t'
  Step-Nested {t} (makes cb stacksize in_scheduler) v = makes-Nested t cb stacksize in_scheduler v
  Step-Nested {t} (resets f cb t' e) v = resets-Nested t t' f cb v e
  Step-Nested {t} (resumes f t' lt hm e) v = resumes-Nested t t' f v lt hm e
  Step-Nested {t} (yields garbage t' ne e) v = yields-Nested t t' garbage v ne e
  Step-Nested {t} (finishes garbage t' ne e) v = finishes-Nested t t' garbage v ne e

  pub data Reach (t : FiberThread) : FiberThread → Type 0 where
    start : Reach t t
    next : {t' t'' : FiberThread} → Reach t t' → Step t' t'' → Reach t t''

  -- On a thread whose fibers are resumed by their homes only, and whose main fiber neither yields nor ends,
  -- whatever fibers are made, reset, resumed, yield and end: GetThis() is always the fiber that
  -- executes, it is RUNNING, and besides it only the main fiber is RUNNING and, while a fiber that
  -- belongs in the scheduler executes, the scheduler fiber. So no fiber is resumed twice, and where one
  -- gives control back its home is waiting for it.
  pub Reach-Nested : {t t' : FiberThread} → Nested m s t → Reach t t' → Nested m s t'
  Reach-Nested v start = v
  Reach-Nested v (next r q) = Step-Nested q (Reach-Nested v r)
