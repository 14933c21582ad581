-- ===== src/Scheduler/Ledger.antt =====
-- The tasks of corlib/scheduler.cpp over a whole run: what was posted, what has ended, what runs and
-- what waits. Tasks are counted by weights: a weight that is 1 at some tasks counts these.
use corlib.Base.{
  ℕ, ◌+◌, ◌≡◌, refl, total, total-set, total-append, inl, inr, true, false, none, some, List, [],
  ◌∷◌, ◌++◌, All, get_elem?, arith, if◌then◌else◌, Bool-cases,
}
use corlib.Scheduler.{ScheduleTask, schedule_lock, is_set}
use corlib.Scheduler.Queue.{AllSet}
use corlib.Scheduler.Workers.{
  picking, running, idling, finished, Worker, Pool, Move, Step, takes, completes, idles, quits,
  wakes, idle_ends, posts, moves, post, stops,
}
use corlib.Scheduler.Counts.{Reach, start, next, IsStarted, Reach-Inv}
use corlib.Scheduler.Tasks.{PickedTasks, pick-PickedTasks}

-- The tasks that a step posts: an empty task is none.
abbrev pub post_of : ScheduleTask → List ScheduleTask
post_of new = if is_set new then new ∷ [] else []

abbrev pub move_posts : {p q : Pool} {i : ℕ} {w : Worker} → Move p i w q → List ScheduleTask
move_posts (posts new pc) = post_of new
move_posts (takes pc e) = []
move_posts (completes pc) = []
move_posts (idles pc e fresh) = []
move_posts (quits pc e term) = []
move_posts (wakes pc go) = []
move_posts (idle_ends pc stop) = []

abbrev pub step_posts : {p q : Pool} → Step p q → List ScheduleTask
step_posts (moves i here m) = move_posts m
step_posts (post new) = post_of new
step_posts stops = []

-- The tasks that end in a step.
abbrev pub move_ends : {p q : Pool} {i : ℕ} {w : Worker} → Move p i w q → List ScheduleTask
move_ends (completes {t} pc) = t ∷ []
move_ends (posts new pc) = []
move_ends (takes pc e) = []
move_ends (idles pc e fresh) = []
move_ends (quits pc e term) = []
move_ends (wakes pc go) = []
move_ends (idle_ends pc stop) = []

abbrev pub step_ends : {p q : Pool} → Step p q → List ScheduleTask
step_ends (moves i here m) = move_ends m
step_ends (post new) = []
step_ends stops = []

abbrev pub all_posts : {p q : Pool} → Reach p q → List ScheduleTask
all_posts start = []
all_posts (next r s) = all_posts r ++ step_posts s

abbrev pub all_ends : {p q : Pool} → Reach p q → List ScheduleTask
all_ends start = []
all_ends (next r s) = all_ends r ++ step_ends s

module _ (f : ScheduleTask → ℕ) where
  abbrev pub weight : Worker → ℕ
  weight w = elim w.pc [ running t ↦ f t | _ ↦ 0 ]

  -- The weight of the tasks that run or wait.
  abbrev pub held : Pool → ℕ
  held p = total weight p.workers + total f p.sched.tasks

  posted-held :
      (p : Pool) (new : ScheduleTask)
      → held (record p { sched = (schedule_lock p.sched new).0 }) ≡ held p + total f (post_of new)
  unfolding schedule_lock
  posted-held p new = elim (Bool-cases (is_set new)) [
    | inl e ↦ rw e (omega (arith, total-append f p.sched.tasks (new ∷ [])))
    | inr e ↦ rw e (omega arith)
  ]

  taken-total :
      (ts ts' : List ScheduleTask) (t : ScheduleTask)
      → PickedTasks ts ts' (some t)
      → total f ts ≡ f t + total f ts'
  taken-total ts ts' t (before, after, split, rest) =
      rw (split, rest)
        (omega (arith, total-append f before (t ∷ after), total-append f before after))

  kept-total : (ts ts' : List ScheduleTask) → PickedTasks ts ts' none → total f ts' ≡ total f ts
  kept-total ts ts' e = rw e refl

  Move-held :
      {p q : Pool} (i : ℕ) {w : Worker}
      → AllSet p.sched.tasks
      → get_elem? p.workers i ≡ some w
      → (m : Move p i w q) → held p + total f (move_posts m) ≡ held q + total f (move_ends m)
  Move-held {p} i {w} a here (takes {s} {t} {tickle_me} pc e) =
      let k = taken-total _ _ t (pick-PickedTasks p.sched s w.thread_id _ tickle_me a e) in
      ground (arith, total-set weight p.workers i w (record w { pc = running t }) here)
  Move-held {p} i {w} a here (completes {t} pc) =
      ground (arith, total-set weight p.workers i w (record w { pc = picking }) here)
  Move-held {p} i {w} a here (idles {s} {tickle_me} pc e fresh) =
      let k = kept-total _ _ (pick-PickedTasks p.sched s w.thread_id _ tickle_me a e) in
      ground (arith, total-set weight p.workers i w (record w { pc = idling }) here)
  Move-held {p} i {w} a here (quits {s} {tickle_me} pc e term) =
      let k = kept-total _ _ (pick-PickedTasks p.sched s w.thread_id _ tickle_me a e) in
      ground (arith, total-set weight p.workers i w (record w { pc = finished }) here)
  Move-held {p} i {w} a here (wakes pc go) =
      ground (arith, total-set weight p.workers i w (record w { pc = picking }) here)
  Move-held {p} i {w} a here (idle_ends pc stop) =
      ground
        (arith, total-set weight p.workers i w (record w { pc = picking; idle_term = true }) here)
  Move-held {p} i a here (posts new pc) = omega (arith, posted-held p new)

  Step-held :
      {p q : Pool}
      → AllSet p.sched.tasks
      → (s : Step p q) → held p + total f (step_posts s) ≡ held q + total f (step_ends s)
  Step-held a (moves i here m) = Move-held i a here m
  Step-held {p} a (post new) = omega (arith, posted-held p new)
  Step-held a stops = refl

  started-held :
      (ws : List Worker)
      → All (λ w. (w.pc ≡ picking) × (w.idle_term ≡ false)) ws
      → total weight ws ≡ 0
  started-held [] h = refl
  started-held (w ∷ ws) h = ground (arith, started-held ws h.1)

  -- In every run of a started pool, whatever weight tasks are given, the tasks that were posted weigh as
  -- much as those that have ended, those that run and those that wait together. So each task that was
  -- posted waits, runs or has ended as often as it was posted: none is lost, and none runs twice.
  pub Reach-Ledger :
      {p q : Pool}
      → IsStarted p
      → (r : Reach p q)
      → total f (all_posts r)
        ≡ total f (all_ends r) + total weight q.workers + total f q.sched.tasks
  Reach-Ledger {p} h start = let k = started-held p.workers h.at_head in rw h.no_tasks (omega arith)
  Reach-Ledger h (next r s) = omega (
    arith,
    Reach-Ledger h r,
    Step-held (Reach-Inv h r).set_tasks s,
    total-append f (all_posts r) (step_posts s),
    total-append f (all_ends r) (step_ends s),
  )
