-- ===== src/Scheduler/Fibers/Switches/Threads.antt =====
-- The steps of a thread of corlib/scheduler.cpp: taking a task, passing over one, and going into and
-- out of a fiber.
use native.Mathlib.Decide.{ℕ_discrete}
use corlib.Base.{
  ℕ, ◌≡◌, ◌≢◌, ◌⊎◌, inl, inr, refl, sym, ap, ◌∙◌, subst, Bool, true, none, some, is_some, ==_iff,
  arith,
}
use corlib.Fiber.{running, Fiber, put, is_term}
use corlib.Fiber.Switch.{put_self, put_other}
use corlib.Scheduler.Fibers.{
  Pc, picking, locking, locked, back, Local, World, view, goes, set_owner, store,
}
use corlib.Scheduler.Fibers.Fit.{
  held, target, inner, inner-held, held-target, Fit, Inv, kept-Fit, changed-Inv, local_self,
  local_other, others-Fit, held_once,
}

module _ (is_task : ℕ → Bool) where
  -- The facts of one thread, by the state that it is in.
  make-Fit :
      (w : World) (i : ℕ) (l : Local)
      → w.local i ≡ l
      → ((f : ℕ) → held l.pc ≡ some f → w.owner f ≡ some i)
      → ((f : ℕ) → inner l.pc ≡ some f → ((w.object f).state ≡ running) × (l.current ≡ some f))
      → ((f : ℕ) → target l.pc ≡ some f → is_task f ≡ true)
      → is_some l.thread_fiber ≡ true
      → is_some l.scheduler_fiber ≡ true
      → Fit is_task w i
  make-Fit w i l e a b c d h = record {
    owns = rw e a;
    inside_runs = rw e b;
    for_task = rw e c;
    has_main = rw e d;
    has_scheduler = rw e h;
  }

  pub takes-Inv :
      (w : World) (i f : ℕ)
      → Inv is_task w
      → is_task f ≡ true
      → (w.local i).pc ≡ picking
      → Inv is_task (goes w i (locking f))
  takes-Inv w i f v task at =
      let w' = goes w i (locking f) in
      let l' = record (w.local i) { pc = locking f } in
      let same = local_other is_task w i in
      let fit = v.threads i in
      changed-Inv is_task w w' i f v (λ j ne. local_other is_task w i j l' ne) (λ g ne. refl)
        (λ j ne x.
          kept-Fit is_task w w' j (local_other is_task w i j l' ne) (λ g e. refl) (λ g e. refl) x)
        (make-Fit w' i l' (local_self is_task w i l') (λ g e. absurd (cc)) (λ g e. absurd (cc))
          (λ g e. let p : f ≡ g = cc (e) in subst (λ g. is_task g ≡ true) p task) fit.has_main
          fit.has_scheduler)
        (λ g e. absurd (let x = rw at at e in cc))
        (λ t r.
          let (j, e) = v.runs_inside f t r in
          (
            j,
            elim (ℕ_discrete i j) [
              | yes p ↦ absurd (
                  let x = subst (λ j. inner (w.local j).pc ≡ some f) (sym p) e in
                  let y = rw at at x in cc)
              | no ne ↦ rw (local_other is_task w i j l' ne) e
            ],
          ))

  pub acquires-Inv :
      (w : World) (i f : ℕ)
      → Inv is_task w
      → (w.local i).pc ≡ locking f
      → w.owner f ≡ none
      → Inv is_task (goes (set_owner w f (some i)) i (locked f))
  acquires-Inv w i f v at free =
      let w' = goes (set_owner w f (some i)) i (locked f) in
      let l' = record (w.local i) { pc = locked f } in
      let fit = v.threads i in
      let l = λ (j : ℕ) (ne : i ≢ j). local_other is_task w i j l' ne in
      changed-Inv is_task w w' i f v l (λ g ne. refl)
        (others-Fit is_task w w' i f v (inr free) l (λ g ne. refl) (λ g ne. grind arith))
        (make-Fit w' i l' (local_self is_task w i l')
          (λ g e. let p : f ≡ g = cc (e) in rw ((==_iff f g).1 p) refl) (λ g e. absurd (cc))
          (λ g e. fit.for_task g (rw at e)) fit.has_main fit.has_scheduler)
        (λ g e. absurd (let x = rw at at e in cc))
        (λ t r.
          let (j, e) = v.runs_inside f t r in
          absurd (let p = (v.threads j).owns f (inner-held is_task _ f e) in cc))

  pub skips-Inv :
      (w : World) (i f : ℕ)
      → Inv is_task w
      → (w.local i).pc ≡ locked f
      → is_term (w.object f).state ≡ true
      → Inv is_task (goes w i (back f))
  skips-Inv w i f v at ended =
      let w' = goes w i (back f) in
      let l' = record (w.local i) { pc = back f } in
      let fit = v.threads i in
      let l = λ (j : ℕ) (ne : i ≢ j). local_other is_task w i j l' ne in
      changed-Inv is_task w w' i f v l (λ g ne. refl)
        (others-Fit is_task w w' i f v (inl (rw at refl)) l (λ g ne. refl) (λ g ne. refl))
        (make-Fit w' i l' (local_self is_task w i l') (λ g e. fit.owns g (rw at e))
          (λ g e. absurd (cc)) (λ g e. fit.for_task g (rw at e)) fit.has_main fit.has_scheduler)
        (λ g e. absurd (let x = rw at at e in cc)) (λ t r. absurd (let x = rw r at ended in cc))

  pub releases-Inv :
      (w : World) (i f : ℕ)
      → Inv is_task w
      → (w.local i).pc ≡ back f
      → Inv is_task (goes (set_owner w f none) i picking)
  releases-Inv w i f v at =
      let w' = goes (set_owner w f none) i picking in
      let l' = record (w.local i) { pc = picking } in
      let fit = v.threads i in
      let l = λ (j : ℕ) (ne : i ≢ j). local_other is_task w i j l' ne in
      changed-Inv is_task w w' i f v l (λ g ne. refl)
        (others-Fit is_task w w' i f v (inl (rw at refl)) l (λ g ne. refl) (λ g ne. grind arith))
        (make-Fit w' i l' (local_self is_task w i l') (λ g e. absurd (cc)) (λ g e. absurd (cc))
          (λ g e. absurd (cc)) fit.has_main fit.has_scheduler)
        (λ g e. absurd (let x = rw at at e in cc))
        (λ t r.
          let (j, e) = v.runs_inside f t r in
          let p = held_once is_task w i j f v (rw at refl) (inner-held is_task _ f e) in
          absurd (
            let x = subst (λ j. inner (w.local j).pc ≡ some f) (sym p) e in
            let y = rw at at x in cc))

  -- Control changes on thread `i`, which holds `f`, so that `f` becomes `b`.
  pub switches-Inv :
      (w : World) (i f : ℕ) (b : Fiber) (c x : ℕ) (p : Pc)
      → Inv is_task w
      → held (w.local i).pc ≡ some f
      → held p ≡ some f
      → ((inner p ≡ some f) × (b.state ≡ running) × (c ≡ f))
        ⊎ ((inner p ≡ none) × (b.state ≢ running))
      → Inv is_task (store w i (record (put (view w i) f b) { current = some c; executing = x }) p)
  switches-Inv w i f b c x p v holds still how =
      let w' = store w i (record (put (view w i) f b) { current = some c; executing = x }) p in
      let l' = record (w.local i) { pc = p; current = some c; executing = x } in
      let fit = v.threads i in
      let l = λ (j : ℕ) (ne : i ≢ j). local_other is_task w i j l' ne in
      let here : (w'.object f).state ≡ b.state =
        ap (λ (b : Fiber). b.state) (put_self (view w i) f b) in
      let o = λ (g : ℕ) (ne : g ≢ f). put_other (view w i) f g b ne in
      changed-Inv is_task w w' i f v l o
        (others-Fit is_task w w' i f v (inl holds) l o (λ g ne. refl))
        (make-Fit w' i l' (local_self is_task w i l') (λ g e. fit.owns g (holds ∙ sym still ∙ e))
          (λ g e. elim how [
            | inl (a, r, q) ↦
                let same : f ≡ g = cc (a, e) in
                (subst (λ g. (w'.object g).state ≡ running) same (here ∙ r), ap some (q ∙ same))
            | inr (a, ne) ↦ absurd (cc)
          ])
          (λ g e.
            fit.for_task g
              (held-target is_task _ f holds ∙ sym (held-target is_task p f still) ∙ e))
          fit.has_main fit.has_scheduler)
        (λ g e. let h = inner-held is_task _ g e in cc (h, holds))
        (λ t r. elim how [
          | inl (a, q, z) ↦ (i, rw (local_self is_task w i l') a)
          | inr (a, ne) ↦ absurd (ne (sym here ∙ r))
        ])
