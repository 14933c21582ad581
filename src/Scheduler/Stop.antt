-- ===== src/Scheduler/Stop.antt =====
-- How the threads of corlib/scheduler.cpp end: only after stop(), and once the queue is empty and no
-- task runs every idle thread can.
use corlib.Base.{
  ℕ, zero, suc, ◌+◌, ◌-◌, ◌≡◌, refl, subst, ◌∙◌, ◌⊎◌, inl, inr, Bool, true, false, none, some, List,
  [], ◌∷◌, All, All-map, get_elem?, set, arith,
}
use corlib.Base.Outcome.{done}
use corlib.Scheduler.{ScheduleTask, Scheduler, pick, scan, stopping}
use corlib.Scheduler.Workers.{
  Pc, picking, running, idling, finished, Worker, Pool, Move, Step, takes, completes, idles, quits,
  wakes, idle_ends, posts, moves, post, stops, with_worker,
}
use corlib.Scheduler.Counts.{
  Inv, IsStarted, Reach, start, next, pick-Picked, Reach-Inv, schedule_lock-counts,
}

-- A worker whose idle fiber has ended, or whose loop has.
abbrev pub IsEnding : Worker → Type 0
IsEnding w = (w.idle_term ≡ true) ⊎ (w.pc ≡ finished)

abbrev pub Guarded : Pool → Type 0
Guarded p = All (λ w. IsEnding w → p.sched.stopping_flag ≡ true) p.workers

module _ (P Q : Worker → Type 0) (f : (w : Worker) → P w → Q w) where
  All-set : (ws : List Worker) (i : ℕ) (w : Worker) → All P ws → Q w → All Q (set ws i w)
  All-set [] i w a q = tt
  All-set (x ∷ xs) zero w a q = (q, All-map P Q xs f a.1)
  All-set (x ∷ xs) (suc i) w a q = (f x a.0, All-set xs i w a.1 q)

All-get :
    (P : Worker → Type 0) (ws : List Worker) (i : ℕ) (w : Worker)
    → get_elem? ws i ≡ some w
    → All P ws
    → P w
All-get P [] i w e a = cc
All-get P (x ∷ xs) zero w e a = let p : x ≡ w = cc in subst P p a.0
All-get P (x ∷ xs) (suc i) w e a = All-get P xs i w e a.1

stopping_flagged : (s : Scheduler) → stopping s ≡ true → s.stopping_flag ≡ true
unfolding stopping
stopping_flagged s e = ground (arith, e)

-- A worker that moves elsewhere than past its loop is ending only if it was.
IsEnding-pc :
    (w : Worker) (pc : Pc) → (pc ≡ finished → ⊥) → IsEnding (record w { pc = pc }) → IsEnding w
IsEnding-pc w pc other (inl e) = inl e
IsEnding-pc w pc other (inr e) = absurd (other e)

running_not_finished : (t : ScheduleTask) → running t ≡ finished → ⊥
running_not_finished t e = cc

-- The flag stays as it was, and the worker that moved is ending only if it was, or the flag is set.
same_flag :
    (p : Pool) (s : Scheduler) (i : ℕ) (w w' : Worker)
    → get_elem? p.workers i ≡ some w
    → s.stopping_flag ≡ p.sched.stopping_flag
    → ((IsEnding w → p.sched.stopping_flag ≡ true) → IsEnding w' → p.sched.stopping_flag ≡ true)
    → Guarded p
    → Guarded (with_worker p s i w')
same_flag p s i w w' here e keep g =
    All-set _ _ (λ x h q. e ∙ h q) p.workers i w' g
      (λ q. e ∙ keep (All-get _ p.workers i w here g) q)

Move-Guarded :
    {p q : Pool} (i : ℕ) {w : Worker}
    → get_elem? p.workers i ≡ some w
    → Move p i w q
    → Inv p
    → Guarded p
    → Guarded q
Move-Guarded {p} i {w} here (takes {s} {t} {tickle_me} pc e) v g =
    same_flag p s i w _ here
      (pick-Picked p.sched s w.thread_id (some t) tickle_me v.set_tasks e).flag
      (λ h q. h (IsEnding-pc w (running t) (running_not_finished t) q)) g
Move-Guarded {p} i {w} here (completes pc) v g =
    same_flag p (record p.sched { active_thread_count = p.sched.active_thread_count - 1 }) i w _
      here refl (λ h q. h (IsEnding-pc w picking (λ e. absurd (cc)) q)) g
Move-Guarded {p} i {w} here (idles {s} {tickle_me} pc e fresh) v g =
    same_flag p (record s { idle_thread_count = s.idle_thread_count + 1 }) i w _ here
      (pick-Picked p.sched s w.thread_id none tickle_me v.set_tasks e).flag
      (λ h q. h (IsEnding-pc w idling (λ r. absurd (cc)) q)) g
Move-Guarded {p} i {w} here (quits {s} {tickle_me} pc e term) v g =
    same_flag p s i w _ here (pick-Picked p.sched s w.thread_id none tickle_me v.set_tasks e).flag
      (λ h q. h (inl term)) g
Move-Guarded {p} i {w} here (wakes pc go) v g =
    same_flag p (record p.sched { idle_thread_count = p.sched.idle_thread_count - 1 }) i w _ here
      refl (λ h q. h (IsEnding-pc w picking (λ e. absurd (cc)) q)) g
Move-Guarded {p} i {w} here (idle_ends pc e) v g =
    same_flag p (record p.sched { idle_thread_count = p.sched.idle_thread_count - 1 }) i w _ here
      refl (λ h q. stopping_flagged p.sched e) g
Move-Guarded {p} i here (posts new pc) v g =
    All-map _ _ p.workers (λ w h q. (schedule_lock-counts p.sched new).2 ∙ h q) g

pub Step-Guarded : {p q : Pool} → Step p q → Inv p → Guarded p → Guarded q
Step-Guarded (moves i here m) v g = Move-Guarded i here m v g
Step-Guarded {p} (post new) v g =
    All-map _ _ p.workers (λ w h q. (schedule_lock-counts p.sched new).2 ∙ h q) g
Step-Guarded {p} stops v g = All-map _ _ p.workers (λ w h q. refl) g

started-Guarded :
    (ws : List Worker) (b : Bool)
    → All (λ w. (w.pc ≡ picking) × (w.idle_term ≡ false)) ws
    → All (λ w. IsEnding w → b ≡ true) ws
started-Guarded [] b h = tt
started-Guarded (w ∷ ws) b h = (fresh h.0, started-Guarded ws b h.1)
  where
    fresh : ((w.pc ≡ picking) × (w.idle_term ≡ false)) → IsEnding w → b ≡ true
    fresh k (inl e) = absurd (cc)
    fresh k (inr e) = absurd (cc)

Reach-Guarded : {p q : Pool} → IsStarted p → Reach p q → Guarded q
Reach-Guarded {p} h start = started-Guarded p.workers p.sched.stopping_flag h.at_head
Reach-Guarded h (next r s) = Step-Guarded s (Reach-Inv h r) (Reach-Guarded h r)

-- In every state that a started pool reaches, a thread whose idle fiber has ended, or which is past
-- its loop, has ended because of stop(): m_stopping is set.
pub ends_after_stop :
    {p q : Pool} (i : ℕ) (w : Worker)
    → IsStarted p
    → Reach p q
    → get_elem? q.workers i ≡ some w
    → IsEnding w
    → q.sched.stopping_flag ≡ true
ends_after_stop {p} {q} i w h r here e = All-get _ q.workers i w here (Reach-Guarded h r) e

pub pick_empty :
    (s : Scheduler) (thread_id : ℕ)
    → s.tasks ≡ []
    → pick s thread_id ≡ done (record s { tasks = [] }, none, false)
unfolding pick scan
pick_empty s thread_id e = rw e refl

stopping_empty : (s : Scheduler) → stopping s ≡ true → s.tasks ≡ []
unfolding stopping
stopping_empty s e = ground (arith, e)

get_elem?-set_here :
    (ws : List Worker) (i : ℕ) (w w' : Worker)
    → get_elem? ws i ≡ some w
    → get_elem? (set ws i w') i ≡ some w'
get_elem?-set_here [] i w w' e = cc
get_elem?-set_here (x ∷ xs) zero w w' e = refl
get_elem?-set_here (x ∷ xs) (suc i) w w' e = get_elem?-set_here xs i w w' e

-- When stopping() answers true, a thread in its idle fiber can finish by its own steps alone.
pub idler_finishes :
    (p : Pool) (i : ℕ) (w : Worker)
    → get_elem? p.workers i ≡ some w
    → w.pc ≡ idling
    → stopping p.sched ≡ true
    → (q : Pool) × Reach p q
      × (get_elem? q.workers i ≡ some (record w { pc = finished; idle_term = true }))
idler_finishes p i w here pc e =
    let s = record p.sched { idle_thread_count = p.sched.idle_thread_count - 1 } in
    let w1 = record w { pc = picking; idle_term = true } in
    let p1 = with_worker p s i w1 in
    let here1 : get_elem? p1.workers i ≡ some w1 = get_elem?-set_here p.workers i w w1 here in
    (
      with_worker p1 (record s { tasks = [] }) i (record w1 { pc = finished }),
      next (next start (moves i here (idle_ends pc e)))
          (moves i here1 (quits refl (pick_empty s w.thread_id (stopping_empty p.sched e)) refl)),
      get_elem?-set_here p1.workers i w1 (record w1 { pc = finished }) here1,
    )
