-- ===== src/Scheduler/Fibers/Alone.antt =====
-- What the threads of Scheduler::run in corlib/scheduler.cpp do to the fibers of tasks: each runs on one
-- thread at a time, and no assertion of corlib/fiber.cpp fails.
use mathlib.Core.Path.{fun_ext}
use corlib.Base.{
  ℕ, ◌≡◌, ◌≢◌, inl, inr, refl, sym, ap, ◌∙◌, subst, Bool, true, false, some, is_some, ◌==◌,
  Bool-cases,
}
use corlib.Base.Outcome.{done}
use corlib.Fiber.{
  State, ready, running, term, Fiber, FiberThread, put, is_term, resume, yield, finish,
}
use corlib.Fiber.Switch.{put_self, resumed, yielded}
use corlib.Scheduler.Fibers.{
  picking, locked, inside, back, World, view, store, Step, takes, acquires, skips, resumes, yields,
  finishes, releases, Reach, start, next,
}
use corlib.Scheduler.Fibers.Fit.{held, Inv, held_once}
use corlib.Scheduler.Fibers.Switches.{
  takes-Inv, acquires-Inv, skips-Inv, releases-Inv, switches-Inv, resumes_lem, yields_lem,
  finishes_lem, ended,
}

-- A fiber that ends is written twice.
put_ended :
    (t : FiberThread) (f : ℕ) (b : Fiber)
    → b.state ≡ term
    → put (put t f b) f (record ((put t f b).object f) { state = term }) ≡ put t f b
put_ended t f b e = ap (λ (o : ℕ → Fiber). record t { object = o }) (fun_ext same)
  where
    again : record ((put t f b).object f) { state = term } ≡ b
    again =
        ap (λ (x : Fiber). record x { state = term }) (put_self t f b)
        ∙ ap (λ (s : State). record b { state = s }) (sym e)

    same :
        (j : ℕ)
        → (put (put t f b) f (record ((put t f b).object f) { state = term })).object j
          ≡ (put t f b).object j
    same j = elim (Bool-cases (f == j)) [ inl y ↦ rw y again | inr n ↦ rw n refl ]

module _ (is_task : ℕ → Bool) where
  -- No thread has a task, every thread has its main fiber and its scheduler fiber, and the fiber of no
  -- task is RUNNING.
  pub record IsStart (w : World) : Type 0 where
    pub idle : (i : ℕ) → (w.local i).pc ≡ picking
    pub has_main : (i : ℕ) → is_some (w.local i).thread_fiber ≡ true
    pub has_scheduler : (i : ℕ) → is_some (w.local i).scheduler_fiber ≡ true
    pub resting : (f : ℕ) → is_task f ≡ true → (w.object f).state ≢ running

  start-Inv : (w : World) → IsStart w → Inv is_task w
  start-Inv w s = record {
    threads = λ i. record {
      owns = λ f e. absurd (let x = rw (s.idle i) at e in cc);
      inside_runs = λ f e. absurd (let x = rw (s.idle i) at e in cc);
      for_task = λ f e. absurd (let x = rw (s.idle i) at e in cc);
      has_main = s.has_main i;
      has_scheduler = s.has_scheduler i;
    };
    runs_inside = λ f t r. absurd (s.resting f t r);
  }

  Step-Inv : {w w' : World} → Step is_task w w' → Inv is_task w → Inv is_task w'
  Step-Inv {w} (takes i f t at) v = takes-Inv is_task w i f v t at
  Step-Inv {w} (acquires i f at free) v = acquires-Inv is_task w i f v at free
  Step-Inv {w} (skips i f at e) v = skips-Inv is_task w i f v at e
  Step-Inv {w} (releases i f at) v = releases-Inv is_task w i f v at
  Step-Inv {w} (resumes i f t at alive e) v =
      let q : resumed (view w i) f ≡ t = cc (resumes_lem is_task w i f v at alive, e) in
      subst (λ t. Inv is_task (store w i t (inside f))) q
        (switches-Inv is_task w i f (record (w.object f) { state = running }) f f (inside f) v
          (rw at refl) refl (inl (refl, refl, refl)))
  Step-Inv {w} (yields i f t at e) v =
      let (h, p) = yields_lem is_task w i f v at in
      let q : yielded (view w i) f h ready ≡ t = cc (p, e) in
      subst (λ t. Inv is_task (store w i t (back f))) q
        (switches-Inv is_task w i f (record (w.object f) { state = ready }) h h (back f) v
          (rw at refl) refl (inr (refl, λ r. cc)))
  Step-Inv {w} (finishes i f garbage t at e) v =
      let (h, p) = finishes_lem is_task w i f garbage v at in
      let q : yielded (put (view w i) f (ended is_task w f)) f h term ≡ t = cc (p, e) in
      let once = put_ended (view w i) f (ended is_task w f) refl in
      subst (λ t. Inv is_task (store w i t (back f)))
        (ap (λ (t : FiberThread). record t { current = some h; executing = h }) (sym once) ∙ q)
        (switches-Inv is_task w i f (ended is_task w f) h h (back f) v (rw at refl) refl
          (inr (refl, λ r. cc)))

  Reach-Inv : {w w' : World} → IsStart w → Reach is_task w w' → Inv is_task w'
  Reach-Inv {w} s start = start-Inv w s
  Reach-Inv s (next r q) = Step-Inv q (Reach-Inv s r)

  others-free :
      (w : World) (i j f : ℕ)
      → Inv is_task w
      → held (w.local i).pc ≡ some f
      → i ≢ j
      → held (w.local j).pc ≢ some f
  others-free w i j f v h ne e = ne (held_once is_task w i j f v h e)

  -- However often, and on how many threads, one fiber is taken from the queue: where a thread has taken the
  -- mutex of the fiber and the fiber has not ended, resume() succeeds, its assertion that the fiber is
  -- READY included, and no other thread has that fiber's mutex, executes it or is leaving it.
  pub Reach-resumes :
      {w w' : World} (i j f : ℕ)
      → IsStart w
      → Reach is_task w w'
      → (w'.local i).pc ≡ locked f
      → is_term (w'.object f).state ≡ false
      → i ≢ j
      → (resume (view w' i) f ≡ done (resumed (view w' i) f)) × (held (w'.local j).pc ≢ some f)
  Reach-resumes {w' = w'} i j f s r at alive ne =
      let v = Reach-Inv s r in
      (resumes_lem is_task w' i f v at alive, others-free w' i j f v (rw at refl) ne)

  -- While the fiber of a task executes on a thread it is RUNNING and is the current fiber of that thread,
  -- it executes on no other thread, and it can give control back at any moment: its yield() and its end
  -- in MainFunc succeed, and leave it READY and TERM.
  pub Reach-executes :
      {w w' : World} (i j f : ℕ) (garbage : Bool)
      → IsStart w
      → Reach is_task w w'
      → (w'.local i).pc ≡ inside f
      → i ≢ j
      → ((w'.object f).state ≡ running)
        × ((w'.local i).current ≡ some f)
        × (held (w'.local j).pc ≢ some f)
        × ((t : FiberThread) × (yield (view w' i) f ≡ done t) × ((t.object f).state ≡ ready))
        × ((t : FiberThread) × (finish (view w' i) garbage ≡ done t) × ((t.object f).state ≡ term))
  Reach-executes {w' = w'} i j f garbage s r at ne =
      let v = Reach-Inv s r in
      let (run, cur) = (v.threads i).inside_runs f (rw at refl) in
      let (h, y) = yields_lem is_task w' i f v at in
      let (k, z) = finishes_lem is_task w' i f garbage v at in
      let b = ended is_task w' f in
      (
        run,
        cur,
        others-free w' i j f v (rw at refl) ne,
        (yielded (view w' i) f h ready, y, ap (λ (b : Fiber). b.state) (put_self (view w' i) f _)),
        (
          yielded (put (view w' i) f b) f k term,
          z,
          ap (λ (b : Fiber). b.state) (put_self (put (view w' i) f b) f _),
        ),
      )
