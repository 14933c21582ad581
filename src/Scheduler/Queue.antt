-- ===== src/Scheduler/Queue.antt =====
-- The task queue of corlib/scheduler.cpp: first in, first out among the tasks that a thread may take.
use corlib.Base.{
  ℕ, ◌≡◌, refl, ap, ◌⊎◌, inl, inr, Bool, true, false, not, Option, none, some, List, [], ◌∷◌, ◌++◌,
  All, All-append, Bool-cases, is_empty,
}
use corlib.Base.Outcome.{done}
use corlib.Scheduler.{ScheduleTask, Scheduler, is_set, is_foreign, scan, schedule_lock}

abbrev pub AllSet : List ScheduleTask → Type 0
AllSet = All (λ t. is_set t ≡ true)

-- Every task is for other threads, and the queue stays as it is.
pub record Nothing (thread_id : ℕ) (ts : List ScheduleTask) : Type 0 where
  pub foreign : All (λ t. is_foreign thread_id t ≡ true) ts
  pub result : scan thread_id ts ≡ done (none, ts, not (is_empty ts))

-- `task` is the first that is not for another thread, and it alone leaves the queue.
pub record Taken (thread_id : ℕ) (ts before : List ScheduleTask) (task : ScheduleTask)
    (after : List ScheduleTask) : Type 0 where
  pub split : ts ≡ before ++ task ∷ after
  pub foreign : All (λ t. is_foreign thread_id t ≡ true) before
  pub own : is_foreign thread_id task ≡ false
  pub result :
      scan thread_id ts ≡ done (some task, before ++ after, not (is_empty (before ++ after)))

abbrev pub Scanned : ℕ → List ScheduleTask → Type 0
Scanned thread_id ts =
    Nothing thread_id ts
    ⊎ ((before : List ScheduleTask) × (task : ScheduleTask) × (after : List ScheduleTask) × Taken
          thread_id ts before task after)

scan-foreign :
    (thread_id : ℕ) (t : ScheduleTask) (ts : List ScheduleTask)
    (r : Option ScheduleTask × List ScheduleTask × Bool)
    → is_foreign thread_id t ≡ true
    → scan thread_id ts ≡ done r
    → scan thread_id (t ∷ ts) ≡ done (r.0, t ∷ r.1, true)
unfolding scan
scan-foreign thread_id t ts r f e = rw (f, e) refl

scan-own :
    (thread_id : ℕ) (t : ScheduleTask) (ts : List ScheduleTask)
    → is_foreign thread_id t ≡ false
    → is_set t ≡ true
    → scan thread_id (t ∷ ts) ≡ done (some t, ts, not (is_empty ts))
unfolding scan
scan-own thread_id t ts f s = rw (f, s) refl

-- In a queue of real tasks a thread takes the first task that is not bound to another thread and
-- leaves the others in their order; if every task is bound to other threads it takes none. It wakes
-- another thread exactly when a task is left in the queue.
pub scan_lem : (thread_id : ℕ) (ts : List ScheduleTask) → AllSet ts → Scanned thread_id ts
scan_lem thread_id [] a = inl (record { foreign = tt; result = unfold scan in refl })
scan_lem thread_id (t ∷ ts) a = elim (Bool-cases (is_foreign thread_id t)) [
  | inl f ↦ elim (scan_lem thread_id ts a.1) [
    | inl n ↦
        inl (record { foreign = (f, n.foreign); result = scan-foreign thread_id t ts _ f n.result })
    | inr (before, task, after, p) ↦ inr (
      t ∷ before,
      task,
      after,
      record {
        split = ap (λ xs. t ∷ xs) p.split;
        foreign = (f, p.foreign);
        own = p.own;
        result = scan-foreign thread_id t ts _ f p.result;
      },
    )
  ]
  | inr o ↦ inr (
    [],
    t,
    ts,
    record { split = refl; foreign = tt; own = o; result = scan-own thread_id t ts o a.0 },
  )
]

-- Posting a task that is set puts it behind all others; an empty task changes nothing. The flag for
-- waking a thread is set exactly when the queue was empty.
pub schedule_lock_lem :
    (s : Scheduler) (task : ScheduleTask)
    → AllSet s.tasks
    → let r = schedule_lock s task in
      AllSet r.0.tasks
      × (is_set task ≡ true → r.0.tasks ≡ s.tasks ++ task ∷ [])
      × (is_set task ≡ false → r.0 ≡ s)
      × ((r.1 ≡ true) → s.tasks ≡ [])
unfolding schedule_lock
schedule_lock_lem s task a = elim (Bool-cases (is_set task)) [
  | inl e ↦ rw e (
    All-append _ s.tasks (task ∷ []) a (e, tt),
    (λ _. refl),
    (λ p. absurd (cc)),
    none_left s.tasks,
  )
  | inr e ↦ rw e (a, (λ p. absurd (cc)), (λ _. refl), none_left s.tasks)
]
  where
    none_left : (ts : List ScheduleTask) → is_empty ts ≡ true → ts ≡ []
    none_left [] h = refl
    none_left (x ∷ xs) h = cc
