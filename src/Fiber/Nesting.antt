-- ===== src/Fiber/Nesting.antt =====
-- Control on one thread of corlib/fiber.cpp over any run: the fibers that are RUNNING are the one that
-- executes and those that wait for it to give control back.
mod Running
pub use Running.*
use native.Mathlib.Decide.{ℕ_discrete}
use corlib.Base.{
  ℕ, ◌<◌, ◌≡◌, ◌≢◌, refl, sym, ap, subst, ◌∙◌, ◌⊎◌, inl, inr, true, false, some, Bool-cases,
}
use corlib.Fiber.{State, ready, running, Fiber, FiberThread, put, home}
use corlib.Fiber.Switch.{put_self, put_other}

-- A thread whose main fiber is `m` and whose scheduler fiber is `s`: `m` itself, or a fiber that runs in
-- `m`.
module _ (m s : ℕ) where
  -- The executing fiber, not the main one, gives control to its home.
  pub left-Nested :
      (t : FiberThread) (o : ℕ → Fiber) (h : ℕ)
      → Nested m s t
      → t.executing ≢ m
      → home t t.executing ≡ some h
      → (o t.executing).state ≢ running
      → Changed m s t t.executing o
      → Nested m s (record t { object = o; current = some h; executing = h })
  left-Nested t o h v ne hm off c = elim (home-cases m s t t.executing v) [
    | inl (to_s, flag) ↦
        let h_s : h ≡ s = cc in
        let apart : s ≢ t.executing = λ e. absurd (
          let q : (t.object s).run_in_scheduler ≡ false = v.scheduler_home (λ k. ne (sym e ∙ k)) in
          let w : (t.object s).run_in_scheduler ≡ true = rw e flag in cc) in
        rw h_s (record {
          thread = v.thread;
          scheduler = v.scheduler;
          current = refl;
          main_live = v.main_live;
          scheduler_live = v.scheduler_live;
          live = v.scheduler_live;
          main_runs = still_runs m s t _ o m c (λ e. ne (sym e)) v.main_runs;
          runs = still_runs m s t _ o s c apart (v.home_runs ne flag);
          scheduler_home = λ k. same_flag m s t _ o s c ∙ v.scheduler_home k;
          home_runs = λ k e. absurd (let q = same_flag m s t _ o s c ∙ v.scheduler_home k in cc);
          others = λ j lt e. elim (left-others m s t o j v off c lt e) [
            | inl q ↦ inl q
            | inr q ↦ inr (inl q.0)
          ];
        })
    | inr (to_m, flag) ↦
        let h_m : h ≡ m = cc in
        rw h_m (record {
          thread = v.thread;
          scheduler = v.scheduler;
          current = refl;
          main_live = v.main_live;
          scheduler_live = v.scheduler_live;
          live = v.main_live;
          main_runs = still_runs m s t _ o m c (λ e. ne (sym e)) v.main_runs;
          runs = still_runs m s t _ o m c (λ e. ne (sym e)) v.main_runs;
          scheduler_home = λ k. same_flag m s t _ o s c ∙ v.scheduler_home k;
          home_runs = λ k e. absurd (k refl);
          others = λ j lt e. elim (left-others m s t o j v off c lt e) [
            | inl q ↦ inl q
            | inr q ↦ absurd (let p = q.1 in cc)
          ];
        })
  ]

  -- The home that resumes a fiber is the scheduler fiber or the main one, as the flag says.
  home_executes :
      (t : FiberThread) (f : ℕ)
      → Nested m s t
      → home t f ≡ some t.executing
      → ((t.executing ≡ s) × ((t.object f).run_in_scheduler ≡ true)) ⊎ (t.executing ≡ m)
  home_executes t f v hm = elim (home-cases m s t f v) [
    | inl (q, flag) ↦ let p : t.executing ≡ s = cc in inl (p, flag)
    | inr (q, flag) ↦ let p : t.executing ≡ m = cc in inr p
  ]

  -- A home other than the main fiber is not in the scheduler itself.
  home_plain :
      (t : FiberThread) (f : ℕ)
      → Nested m s t
      → home t f ≡ some t.executing
      → t.executing ≢ m
      → (t.object t.executing).run_in_scheduler ≡ false
  home_plain t f v hm ne = elim (home_executes t f v hm) [
    | inl (q, flag) ↦ rw q (v.scheduler_home (λ e. ne (q ∙ e)))
    | inr q ↦ absurd (ne q)
  ]

  entered-others :
      (t : FiberThread) (f j : ℕ)
      → Nested m s t
      → home t f ≡ some t.executing
      → j < t.fresh
      → (t.object j).state ≡ running
      → (j ≡ m) ⊎ ((j ≡ s) × ((t.object f).run_in_scheduler ≡ true))
  entered-others t f j v hm lt e = elim (v.others j lt e) [
    | inl q ↦ inl q
    | inr (inl q) ↦ elim (home_executes t f v hm) [
      | inl (p, flag) ↦ inr (q ∙ p, flag)
      | inr p ↦ inl (q ∙ p)
    ]
    | inr (inr q) ↦ absurd (let p = home_plain t f v hm q.1 in let w = q.2 in cc)
  ]

  -- The executing fiber resumes `f`, whose home it is.
  pub entered-Nested :
      (t : FiberThread) (o : ℕ → Fiber) (f : ℕ)
      → Nested m s t
      → f < t.fresh
      → home t f ≡ some t.executing
      → (t.object f).state ≡ ready
      → (o f).state ≡ running
      → Changed m s t f o
      → Nested m s (record t { object = o; current = some f; executing = f })
  entered-Nested t o f v lt hm was now c =
      let not_m : f ≢ m =
        λ e. absurd (let q : (t.object f).state ≡ running = rw e v.main_runs in cc) in
      let not_f : (j : ℕ) → (t.object j).state ≡ running → j ≢ f =
        λ j r e. absurd (let q : (t.object j).state ≡ ready = rw e was in cc) in
      record {
        thread = v.thread;
        scheduler = v.scheduler;
        current = refl;
        main_live = v.main_live;
        scheduler_live = v.scheduler_live;
        live = lt;
        main_runs = still_runs m s t f o m c (λ e. not_m (sym e)) v.main_runs;
        runs = now;
        scheduler_home = λ k. same_flag m s t f o s c ∙ v.scheduler_home k;
        home_runs = λ k e. elim (home-cases m s t f v) [
          | inl (q, flag) ↦
              let p : t.executing ≡ s = cc in
              let r : (t.object s).state ≡ running =
                subst (λ i. (t.object i).state ≡ running) p v.runs in
              still_runs m s t f o s c (not_f s r) r
          | inr (q, flag) ↦ absurd (let p = c.flag in cc)
        ];
        others = λ j l e. elim (ℕ_discrete j f) [
          | yes q ↦ inr (inl q)
          | no ne ↦ elim (entered-others t f j v hm l (ran m s t f o j c ne e)) [
            | inl q ↦ inl q
            | inr (q, flag) ↦ inr (inr (q, not_m, c.flag ∙ flag))
          ]
        ];
      }

  -- A fiber that does not run changes, and runs after as little as before.
  pub idle-Nested :
      (t : FiberThread) (o : ℕ → Fiber) (f : ℕ)
      → Nested m s t
      → (t.object f).state ≢ running
      → (o f).state ≢ running
      → Changed m s t f o
      → Nested m s (record t { object = o })
  idle-Nested t o f v was now c =
      let apart : (j : ℕ) → (t.object j).state ≡ running → j ≢ f =
        λ j r e. was (subst (λ i. (t.object i).state ≡ running) e r) in
      record {
        thread = v.thread;
        scheduler = v.scheduler;
        current = v.current;
        main_live = v.main_live;
        scheduler_live = v.scheduler_live;
        live = v.live;
        main_runs = still_runs m s t f o m c (apart m v.main_runs) v.main_runs;
        runs = still_runs m s t f o t.executing c (apart t.executing v.runs) v.runs;
        scheduler_home = λ k. same_flag m s t f o s c ∙ v.scheduler_home k;
        home_runs = λ k e.
            let r = v.home_runs k (sym (same_flag m s t f o t.executing c) ∙ e) in
            still_runs m s t f o s c (apart s r) r;
        others = λ j l e.
            let ne : j ≢ f = λ q. now (subst (λ i. (o i).state ≡ running) q e) in
            elim (v.others j l (ran m s t f o j c ne e)) [
              | inl q ↦ inl q
              | inr (inl q) ↦ inr (inl q)
              | inr (inr q) ↦ inr (inr (q.0, q.1, same_flag m s t f o t.executing c ∙ q.2))
            ];
      }
