-- ===== src/Scheduler/Counts.antt =====
-- The counters of corlib/scheduler.cpp tell the truth in every reachable state of the pool.
use corlib.Base.{
  ℕ, ◌+◌, ◌≡◌, refl, total, total-set, sym, subst, ◌∙◌, inl, inr, Bool, true, false, Option, none,
  some, List, [], ◌∷◌, ◌++◌, All, get_elem?, arith, if◌then◌else◌, is_some,
}
use corlib.Base.Outcome.{done}
use corlib.Scheduler.{ScheduleTask, Scheduler, pick, scan, schedule_lock, stopping}
use corlib.Scheduler.Queue.{AllSet, scan_lem, schedule_lock_lem}
use corlib.Scheduler.Workers.{
  picking, running, idling, finished, Worker, Pool, Move, Step, takes, completes, idles, quits,
  wakes, idle_ends, posts, moves, post, stops,
}

abbrev pub runs : Worker → ℕ
runs w = elim w.pc [ running t ↦ 1 | _ ↦ 0 ]

abbrev pub idle_in : Worker → ℕ
idle_in w = elim w.pc [ idling ↦ 1 | _ ↦ 0 ]

pub record Inv (p : Pool) : Type 0 where
  pub set_tasks : AllSet p.sched.tasks
  pub active : p.sched.active_thread_count ≡ total runs p.workers
  pub idle : p.sched.idle_thread_count ≡ total idle_in p.workers

All-remove :
    (before : List ScheduleTask) (t : ScheduleTask) (after ts : List ScheduleTask)
    → ts ≡ before ++ t ∷ after
    → AllSet ts
    → AllSet (before ++ after)
All-remove before t after ts e a = go before (subst AllSet e a)
  where
    go : (xs : List ScheduleTask) → AllSet (xs ++ t ∷ after) → AllSet (xs ++ after)
    go [] h = h.1
    go (x ∷ xs) h = (h.0, go xs h.1)

-- What the critical section does to the parts of the state that the invariant reads.
pub record Picked (s s' : Scheduler) (t : Option ScheduleTask) : Type 0 where
  pub set_tasks : AllSet s'.tasks
  pub active : s'.active_thread_count ≡ s.active_thread_count + (if is_some t then 1 else 0)
  pub idle : s'.idle_thread_count ≡ s.idle_thread_count
  pub flag : s'.stopping_flag ≡ s.stopping_flag

pick-scan :
    (s s' : Scheduler) (thread_id : ℕ) (t t' : Option ScheduleTask) (tickle_me tickle' : Bool)
    (ts : List ScheduleTask)
    → AllSet ts
    → scan thread_id s.tasks ≡ done (t, ts, tickle')
    → pick s thread_id ≡ done (s', t', tickle_me)
    → Picked s s' t'
unfolding pick
pick-scan s s' thread_id t t' tickle_me tickle' ts a e q =
    let r : s' ≡ record s {
      tasks = ts;
      active_thread_count = if is_some t then s.active_thread_count + 1 else s.active_thread_count;
    } =
      ground (arith, e, q) in
    let same : t ≡ t' = ground (arith, e, q) in
    record { set_tasks = rw r a; active = ground arith; idle = ground arith; flag = ground arith }

pub pick-Picked :
    (s s' : Scheduler) (thread_id : ℕ) (t : Option ScheduleTask) (tickle_me : Bool)
    → AllSet s.tasks
    → pick s thread_id ≡ done (s', t, tickle_me)
    → Picked s s' t
pick-Picked s s' thread_id t tickle_me a q = elim (scan_lem thread_id s.tasks a) [
  | inl n ↦ pick-scan s s' thread_id _ t tickle_me _ _ a n.result q
  | inr (before, task, after, p) ↦
      pick-scan s s' thread_id _ t tickle_me _ _ (All-remove before task after s.tasks p.split a)
        p.result q
]

pub schedule_lock-counts :
    (s : Scheduler) (new : ScheduleTask)
    → ((schedule_lock s new).0.active_thread_count ≡ s.active_thread_count)
      × ((schedule_lock s new).0.idle_thread_count ≡ s.idle_thread_count)
      × ((schedule_lock s new).0.stopping_flag ≡ s.stopping_flag)
unfolding schedule_lock
schedule_lock-counts s new = ground arith

posted-Inv :
    (p : Pool) (new : ScheduleTask)
    → Inv p
    → Inv (record p { sched = (schedule_lock p.sched new).0 })
posted-Inv p new v =
    let (active, idle, _) = schedule_lock-counts p.sched new in
    record {
      set_tasks = (schedule_lock_lem p.sched new v.set_tasks).0;
      active = active ∙ v.active;
      idle = idle ∙ v.idle;
    }

Move-Inv :
    {p q : Pool} (i : ℕ) {w : Worker}
    → get_elem? p.workers i ≡ some w
    → Move p i w q
    → Inv p
    → Inv q
Move-Inv {p} i {w} here (takes {s} {t} {tickle_me} pc e) v =
    let k = pick-Picked p.sched s w.thread_id (some t) tickle_me v.set_tasks e in
    record {
      set_tasks = k.set_tasks;
      active = ground (arith, total-set runs p.workers i w (record w { pc = running t }) here);
      idle = ground (arith, total-set idle_in p.workers i w (record w { pc = running t }) here);
    }
Move-Inv {p} i {w} here (completes pc) v = record {
  set_tasks = v.set_tasks;
  active = ground (arith, total-set runs p.workers i w (record w { pc = picking }) here);
  idle = ground (arith, total-set idle_in p.workers i w (record w { pc = picking }) here);
}
Move-Inv {p} i {w} here (idles {s} {tickle_me} pc e fresh) v =
    let k = pick-Picked p.sched s w.thread_id none tickle_me v.set_tasks e in
    record {
      set_tasks = k.set_tasks;
      active = ground (arith, total-set runs p.workers i w (record w { pc = idling }) here);
      idle = ground (arith, total-set idle_in p.workers i w (record w { pc = idling }) here);
    }
Move-Inv {p} i {w} here (quits {s} {tickle_me} pc e term) v =
    let k = pick-Picked p.sched s w.thread_id none tickle_me v.set_tasks e in
    record {
      set_tasks = k.set_tasks;
      active = ground (arith, total-set runs p.workers i w (record w { pc = finished }) here);
      idle = ground (arith, total-set idle_in p.workers i w (record w { pc = finished }) here);
    }
Move-Inv {p} i {w} here (wakes pc go) v = record {
  set_tasks = v.set_tasks;
  active = ground (arith, total-set runs p.workers i w (record w { pc = picking }) here);
  idle = ground (arith, total-set idle_in p.workers i w (record w { pc = picking }) here);
}
Move-Inv {p} i {w} here (idle_ends pc stop) v = record {
  set_tasks = v.set_tasks;
  active =
      ground
        (arith, total-set runs p.workers i w (record w { pc = picking; idle_term = true }) here);
  idle =
      ground
        (arith, total-set idle_in p.workers i w (record w { pc = picking; idle_term = true }) here);
}
Move-Inv {p} i here (posts new pc) v = posted-Inv p new v

-- Every step keeps it: of the workers, of the posters and of `stop`.
pub Step-Inv : {p q : Pool} → Step p q → Inv p → Inv q
Step-Inv (moves i here m) v = Move-Inv i here m v
Step-Inv {p} (post new) v = posted-Inv p new v
Step-Inv stops v = record { set_tasks = v.set_tasks; active = v.active; idle = v.idle }

-- A started pool: no task is queued or runs, and every worker is at the head of its loop.
pub record IsStarted (p : Pool) : Type 0 where
  pub no_tasks : p.sched.tasks ≡ []
  pub no_active : p.sched.active_thread_count ≡ 0
  pub no_idle : p.sched.idle_thread_count ≡ 0
  pub at_head : All (λ w. (w.pc ≡ picking) × (w.idle_term ≡ false)) p.workers

pub data Reach (p : Pool) : Pool → Type 0 where
  start : Reach p p
  next : {q r : Pool} → Reach p q → Step q r → Reach p r

total-started :
    (ws : List Worker)
    → All (λ w. (w.pc ≡ picking) × (w.idle_term ≡ false)) ws
    → (total runs ws ≡ 0) × (total idle_in ws ≡ 0)
total-started [] h = (refl, refl)
total-started (w ∷ ws) h = ground (arith, total-started ws h.1)

-- In every state that a started pool reaches, the queue holds real tasks only,
-- m_activeThreadCount is the number of threads that run a task, and m_idleThreadCount the number of
-- threads in their idle fiber.
pub Reach-Inv : {p q : Pool} → IsStarted p → Reach p q → Inv q
Reach-Inv {p} h start = record {
  set_tasks = rw h.no_tasks tt;
  active = h.no_active ∙ sym (total-started p.workers h.at_head).0;
  idle = h.no_idle ∙ sym (total-started p.workers h.at_head).1;
}
Reach-Inv h (next r s) = Step-Inv s (Reach-Inv h r)

-- So when stopping() answers true, in any state that a started pool reaches, stop() has been called,
-- no task is queued and no thread runs one.
pub stopping_means_quiet :
    {p q : Pool}
    → IsStarted p
    → Reach p q
    → stopping q.sched ≡ true
    → (q.sched.stopping_flag ≡ true) × (q.sched.tasks ≡ []) × (total runs q.workers ≡ 0)
unfolding stopping
stopping_means_quiet {p} {q} h r e =
    let v = Reach-Inv h r in (ground arith, ground arith, ground arith)
