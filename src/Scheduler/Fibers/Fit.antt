-- ===== src/Scheduler/Fibers/Fit.antt =====
-- The invariant of the threads of Scheduler::run in corlib/scheduler.cpp and of the fibers of tasks, and what
-- keeps it while one thread goes a step.
use corlib.Base.{
  ℕ, ◌≡◌, ◌≢◌, ◌⊎◌, inl, inr, refl, sym, ap, ◌∙◌, subst, Bool, true, Option, none, some, is_some,
  ==_iff, arith,
}
use native.Mathlib.Decide.{ℕ_discrete}
use corlib.Fiber.{running, Fiber}
use corlib.Scheduler.Fibers.{Pc, picking, locking, locked, inside, back, Local, World, set_local}

-- The fiber whose mutex the thread has.
abbrev pub held : Pc → Option ℕ
held picking = none
held (locking f) = none
held (locked f) = some f
held (inside f) = some f
held (back f) = some f

-- The fiber of the thread's task.
abbrev pub target : Pc → Option ℕ
target picking = none
target (locking f) = some f
target p = held p

abbrev pub inner : Pc → Option ℕ
inner (inside f) = some f
inner p = none

module _ (is_task : ℕ → Bool) where
  pub record Fit (w : World) (i : ℕ) : Type 0 where
    pub owns : (f : ℕ) → held (w.local i).pc ≡ some f → w.owner f ≡ some i
    pub inside_runs :
        (f : ℕ)
        → inner (w.local i).pc ≡ some f
        → ((w.object f).state ≡ running) × ((w.local i).current ≡ some f)
    pub for_task : (f : ℕ) → target (w.local i).pc ≡ some f → is_task f ≡ true
    pub has_main : is_some (w.local i).thread_fiber ≡ true
    pub has_scheduler : is_some (w.local i).scheduler_fiber ≡ true

  pub record Inv (w : World) : Type 0 where
    pub threads : (i : ℕ) → Fit w i
    pub runs_inside :
        (f : ℕ)
        → is_task f ≡ true
        → (w.object f).state ≡ running
        → (i : ℕ) × (inner (w.local i).pc ≡ some f)

  pub inner-held : (p : Pc) (f : ℕ) → inner p ≡ some f → held p ≡ some f
  inner-held (inside g) f e = e
  inner-held picking f e = cc
  inner-held (locking g) f e = cc
  inner-held (locked g) f e = cc
  inner-held (back g) f e = cc

  pub held-target : (p : Pc) (f : ℕ) → held p ≡ some f → target p ≡ some f
  held-target (inside g) f e = e
  held-target picking f e = cc
  held-target (locking g) f e = cc
  held-target (locked g) f e = e
  held-target (back g) f e = e

  -- A fiber's mutex has one owner.
  pub held_once :
      (w : World) (i j f : ℕ)
      → Inv w
      → held (w.local i).pc ≡ some f
      → held (w.local j).pc ≡ some f
      → i ≡ j
  held_once w i j f v a b =
      let p = (v.threads i).owns f a in let q = (v.threads j).owns f b in cc (p, q)

  -- A thread that stands still, where the fiber that it holds stays as it is.
  pub kept-Fit :
      (w w' : World) (j : ℕ)
      → w'.local j ≡ w.local j
      → ((g : ℕ) → held (w.local j).pc ≡ some g → w'.object g ≡ w.object g)
      → ((g : ℕ) → held (w.local j).pc ≡ some g → w'.owner g ≡ w.owner g)
      → Fit w j
      → Fit w' j
  kept-Fit w w' j l o m v = record {
    owns = λ g e. let e' = rw l at e in m g e' ∙ v.owns g e';
    inside_runs = λ g e.
        let e' = rw l at e in
        let r = v.inside_runs g e' in
        (
          ap (λ (b : Fiber). b.state) (o g (inner-held _ g e')) ∙ r.0,
          ap (λ (b : Local). b.current) l ∙ r.1,
        );
    for_task = λ g e. v.for_task g (rw l at e);
    has_main = rw l v.has_main;
    has_scheduler = rw l v.has_scheduler;
  }

  -- Thread `i` goes a step in which at most the fiber `f` changes.
  pub changed-Inv :
      (w w' : World) (i f : ℕ)
      → Inv w
      → ((j : ℕ) → i ≢ j → w'.local j ≡ w.local j)
      → ((g : ℕ) → g ≢ f → w'.object g ≡ w.object g)
      → ((j : ℕ) → i ≢ j → Fit w j → Fit w' j)
      → Fit w' i
      → ((g : ℕ) → inner (w.local i).pc ≡ some g → g ≡ f)
      → (is_task f ≡ true
          → (w'.object f).state ≡ running
          → (j : ℕ) × (inner (w'.local j).pc ≡ some f))
      → Inv w'
  changed-Inv w w' i f v l o others fit only runs = record {
    threads = λ j. elim (ℕ_discrete i j) [
      | yes p ↦ subst (Fit w') p fit
      | no ne ↦ others j ne (v.threads j)
    ];
    runs_inside = λ g task r. elim (ℕ_discrete g f) [
      | yes p ↦
          let (j, e) =
            runs (subst (λ g. is_task g ≡ true) p task)
              (subst (λ g. (w'.object g).state ≡ running) p r) in
          (j, e ∙ ap some (sym p))
      | no ne ↦
          let (j, e) = v.runs_inside g task (ap (λ (b : Fiber). b.state) (sym (o g ne)) ∙ r) in
          (
            j,
            elim (ℕ_discrete i j) [
              | yes p ↦ absurd (ne (only g (subst (λ j. inner (w.local j).pc ≡ some g) (sym p) e)))
              | no n ↦ rw (l j n) e
            ],
          )
    ];
  }

  pub local_self : (w : World) (i : ℕ) (l : Local) → (set_local w i l).local i ≡ l
  local_self w i l = rw ((==_iff i i).1 refl) refl

  pub local_other :
      (w : World) (i j : ℕ) (l : Local) → i ≢ j → (set_local w i l).local j ≡ w.local j
  local_other w i j l ne = grind arith

  -- The other threads, while `i` holds `f`, or none does.
  pub others-Fit :
      (w w' : World) (i f : ℕ)
      → Inv w
      → (held (w.local i).pc ≡ some f) ⊎ (w.owner f ≡ none)
      → ((j : ℕ) → i ≢ j → w'.local j ≡ w.local j)
      → ((g : ℕ) → g ≢ f → w'.object g ≡ w.object g)
      → ((g : ℕ) → g ≢ f → w'.owner g ≡ w.owner g)
      → (j : ℕ) → i ≢ j
      → Fit w j
      → Fit w' j
  others-Fit w w' i f v h l o m j ne fit =
      let apart : (g : ℕ) → held (w.local j).pc ≡ some g → g ≢ f =
        λ g e q. absurd (ne (clash g e q h)) in
      kept-Fit w w' j (l j ne) (λ g e. o g (apart g e)) (λ g e. m g (apart g e)) fit
    where
      clash :
          (g : ℕ)
          → held (w.local j).pc ≡ some g
          → g ≡ f
          → (held (w.local i).pc ≡ some f) ⊎ (w.owner f ≡ none)
          → i ≡ j
      clash g e q (inl a) = held_once w i j f v a (e ∙ ap some q)
      clash g e q (inr n) = let p = fit.owns f (e ∙ ap some q) in absurd (cc)
