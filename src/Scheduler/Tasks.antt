-- ===== src/Scheduler/Tasks.antt =====
-- What corlib/scheduler.h promises of its tasks, without the order of the queue and without the threads:
-- a bag of tasks that wait and a bag of tasks that run.
use corlib.Base.{
  ℕ, zero, suc, ◌≡◌, refl, ap, sym, subst, ◌∙◌, inl, inr, Bool, true, Option, none, some, List, [],
  ◌∷◌, ◌++◌, arith, get_elem?, set, Bool-cases,
}
use corlib.Base.Outcome.{done}
use corlib.Scheduler.{ScheduleTask, Scheduler, pick, schedule_lock, is_set}
use corlib.Scheduler.Queue.{AllSet, scan_lem}
use corlib.Scheduler.Workers.{
  Pc, picking, running, idling, finished, Worker, Pool, Move, Step, takes, completes, idles, quits,
  wakes, idle_ends, posts, moves, post, stops,
}
use mathlib.Mathlib.Data.Multiset.Defs.{Multiset, of_list}
use mathlib.Mathlib.Data.Multiset.ZeroCons.{cons, cons-swap}
use mathlib.Mathlib.Data.Multiset.ZeroCons
use mathlib.Core.Quot.{sound}
use mathlib.Core.Path.{ap₂}
use mathlib.Core.List.{perm_middle, perm_append_comm}

-- The tasks that wait and the tasks that run, in no order.
pub record Bags : Type 0 where
  pub queued : Multiset ScheduleTask
  pub running : Multiset ScheduleTask

-- What may happen to a task: it is posted, it starts once, and it ends.
pub data BagStep (b c : Bags) : Type 0 where
  stays : c ≡ b → BagStep b c
  posted :
      (t : ScheduleTask)
      → is_set t ≡ true
      → c.queued ≡ cons t b.queued
      → c.running ≡ b.running
      → BagStep b c
  taken :
      (t : ScheduleTask) → b.queued ≡ cons t c.queued → c.running ≡ cons t b.running → BagStep b c
  completed : (t : ScheduleTask) → c.queued ≡ b.queued → b.running ≡ cons t c.running → BagStep b c

-- The task that a thread at this point runs.
abbrev pub add_running : Pc → Multiset ScheduleTask → Multiset ScheduleTask
add_running (running t) b = cons t b
add_running picking b = b
add_running idling b = b
add_running finished b = b

abbrev pub running_tasks : List Worker → Multiset ScheduleTask
running_tasks [] = ZeroCons.zero
running_tasks (w ∷ ws) = add_running w.pc (running_tasks ws)

abbrev pub bags : Pool → Bags
bags p = record { queued = of_list p.sched.tasks; running = running_tasks p.workers }

add_running-cons :
    (pc : Pc) (t : ScheduleTask) (b : Multiset ScheduleTask)
    → add_running pc (cons t b) ≡ cons t (add_running pc b)
add_running-cons (running u) t b = cons-swap u t b
add_running-cons picking t b = refl
add_running-cons idling t b = refl
add_running-cons finished t b = refl

-- A thread that runs nothing changes to one that runs `t`.
running_tasks-set :
    (ws : List Worker) (i : ℕ) (v w : Worker) (t : ScheduleTask)
    → get_elem? ws i ≡ some v
    → ((b : Multiset ScheduleTask) → add_running w.pc b ≡ cons t (add_running v.pc b))
    → running_tasks (set ws i w) ≡ cons t (running_tasks ws)
running_tasks-set [] i v w t e f = cc
running_tasks-set (x ∷ ws) zero v w t e f = let p : x ≡ v = cc in rw p (f (running_tasks ws))
running_tasks-set (x ∷ ws) (suc i) v w t e f =
    ap (add_running x.pc) (running_tasks-set ws i v w t e f)
    ∙ add_running-cons x.pc t (running_tasks ws)

running_tasks-kept :
    (ws : List Worker) (i : ℕ) (v w : Worker)
    → get_elem? ws i ≡ some v
    → ((b : Multiset ScheduleTask) → add_running w.pc b ≡ add_running v.pc b)
    → running_tasks (set ws i w) ≡ running_tasks ws
running_tasks-kept [] i v w e f = cc
running_tasks-kept (x ∷ ws) zero v w e f = let p : x ≡ v = cc in rw p (f (running_tasks ws))
running_tasks-kept (x ∷ ws) (suc i) v w e f =
    ap (add_running x.pc) (running_tasks-kept ws i v w e f)

-- A thread that runs `t` changes to one that runs nothing.
running_tasks-drop :
    (ws : List Worker) (i : ℕ) (v w : Worker) (t : ScheduleTask)
    → get_elem? ws i ≡ some v
    → ((b : Multiset ScheduleTask) → add_running v.pc b ≡ cons t (add_running w.pc b))
    → running_tasks ws ≡ cons t (running_tasks (set ws i w))
running_tasks-drop [] i v w t e f = cc
running_tasks-drop (x ∷ ws) zero v w t e f = let p : x ≡ v = cc in rw p (f (running_tasks ws))
running_tasks-drop (x ∷ ws) (suc i) v w t e f =
    ap (add_running x.pc) (running_tasks-drop ws i v w t e f)
    ∙ add_running-cons x.pc t (running_tasks (set ws i w))

-- The change of the queue by the critical section of `run`.
abbrev pub PickedTasks : List ScheduleTask → List ScheduleTask → Option ScheduleTask → Type 0
PickedTasks ts ts' none = ts' ≡ ts
PickedTasks ts ts' (some t) =
    (before : List ScheduleTask) × (after : List ScheduleTask) × (ts ≡ before ++ t ∷ after)
    × (ts' ≡ before ++ after)

pub pick-PickedTasks :
    (s s' : Scheduler) (thread_id : ℕ) (t : Option ScheduleTask) (tickle_me : Bool)
    → AllSet s.tasks
    → pick s thread_id ≡ done (s', t, tickle_me)
    → PickedTasks s.tasks s'.tasks t
unfolding pick
pick-PickedTasks s s' thread_id t tickle_me a q = elim (scan_lem thread_id s.tasks a) [
  | inl n ↦
      let e : none ≡ t = ground (arith, n.result, q) in
      subst (PickedTasks s.tasks s'.tasks) e (ground (arith, n.result, q))
  | inr (before, task, after, k) ↦
      let e : some task ≡ t = ground (arith, k.result, q) in
      subst (PickedTasks s.tasks s'.tasks) e (before, after, k.split, ground (arith, k.result, q))
]

-- What a move does to a thread's part of the running tasks and to the queue.
taken-BagStep :
    (p : Pool) (ts : List ScheduleTask) (i : ℕ) (v w : Worker) (t : ScheduleTask)
    → get_elem? p.workers i ≡ some v
    → PickedTasks p.sched.tasks ts (some t)
    → v.pc ≡ picking
    → w.pc ≡ running t
    → BagStep (bags p) (record { queued = of_list ts; running = running_tasks (set p.workers i w) })
taken-BagStep p ts i v w t here (before, after, split, rest) at now =
    taken t
      (ap of_list split
        ∙ sound (perm_middle before after)
        ∙ ap (λ xs. cons t (of_list xs)) (sym rest))
      (running_tasks-set p.workers i v w t here (λ b. rw (at, now) refl))

kept-BagStep :
    (p : Pool) (ts : List ScheduleTask) (i : ℕ) (v w : Worker)
    → get_elem? p.workers i ≡ some v
    → ts ≡ p.sched.tasks
    → ((b : Multiset ScheduleTask) → add_running w.pc b ≡ add_running v.pc b)
    → BagStep (bags p) (record { queued = of_list ts; running = running_tasks (set p.workers i w) })
kept-BagStep p ts i v w here queue same = stays (
    ap₂ (λ q r. record { queued = of_list q; running = r }) queue
      (running_tasks-kept p.workers i v w here same))

completed-BagStep :
    (p : Pool) (ts : List ScheduleTask) (i : ℕ) (v w : Worker) (t : ScheduleTask)
    → get_elem? p.workers i ≡ some v
    → ts ≡ p.sched.tasks
    → v.pc ≡ running t
    → w.pc ≡ picking
    → BagStep (bags p) (record { queued = of_list ts; running = running_tasks (set p.workers i w) })
completed-BagStep p ts i v w t here queue at now =
    completed t (ap of_list queue)
      (running_tasks-drop p.workers i v w t here (λ b. rw (at, now) refl))

posted-BagStep :
    (p : Pool) (new : ScheduleTask)
    → BagStep (bags p) (bags (record p { sched = (schedule_lock p.sched new).0 }))
unfolding schedule_lock
posted-BagStep p new = elim (Bool-cases (is_set new)) [
  | inl e ↦ posted new e (rw e (sound (perm_append_comm p.sched.tasks (new ∷ [])))) refl
  | inr e ↦ stays (rw e refl)
]

Move-BagStep :
    {p q : Pool} (i : ℕ) {w : Worker}
    → AllSet p.sched.tasks
    → get_elem? p.workers i ≡ some w
    → Move p i w q
    → BagStep (bags p) (bags q)
Move-BagStep {p} i {w} a here (takes {s} {t} {tickle_me} pc e) =
    taken-BagStep p s.tasks i w _ t here (pick-PickedTasks p.sched s w.thread_id _ tickle_me a e) pc
      refl
Move-BagStep {p} i {w} a here (completes {t} pc) =
    completed-BagStep p p.sched.tasks i w _ t here refl pc refl
Move-BagStep {p} i {w} a here (idles {s} {tickle_me} pc e fresh) =
    kept-BagStep p s.tasks i w _ here (pick-PickedTasks p.sched s w.thread_id _ tickle_me a e)
      (λ b. rw pc refl)
Move-BagStep {p} i {w} a here (quits {s} {tickle_me} pc e term) =
    kept-BagStep p s.tasks i w _ here (pick-PickedTasks p.sched s w.thread_id _ tickle_me a e)
      (λ b. rw pc refl)
Move-BagStep {p} i {w} a here (wakes pc go) =
    kept-BagStep p p.sched.tasks i w _ here refl (λ b. rw pc refl)
Move-BagStep {p} i {w} a here (idle_ends pc stop) =
    kept-BagStep p p.sched.tasks i w _ here refl (λ b. rw pc refl)
Move-BagStep {p} i a here (posts new pc) = posted-BagStep p new

-- From a state whose queue holds real tasks only, every step of the pool, of its threads, of those who
-- post and of stop(), posts one task, starts one task that waited, ends one task that ran, or leaves
-- both bags as they are. So no step loses a task, doubles it, or runs one that was not posted.
pub Step-BagStep : {p q : Pool} → AllSet p.sched.tasks → Step p q → BagStep (bags p) (bags q)
Step-BagStep a (moves i here m) = Move-BagStep i a here m
Step-BagStep {p} a (post new) = posted-BagStep p new
Step-BagStep a stops = stays refl
