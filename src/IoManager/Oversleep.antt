-- ===== src/IoManager/Oversleep.antt =====
-- A thread that waits in IOManager::idle (corlib/ioscheduler.cpp) oversleeps no timer.
use corlib.Base.{
  ℕ, suc, ◌+◌, ◌<◌, ◌||◌, if◌then◌else◌, ◌≡◌, refl, subst, ◌∙◌, ◌⊎◌, inl, inr, Bool, true, false,
  none, some, List, [], ◌∷◌, arith,
}
use corlib.Scheduler.{Scheduler, has_idle_threads}
use corlib.Timer.{TimerManager, milliseconds, reset, refresh, cancel, add_timer, get_next_timer}
use corlib.Timer.Order
use corlib.Timer.Order.{Step-IsValid, asks, adds, cancels, refreshes, resets}
use corlib.IoManager.Idle.{wait_time_bounds}
use corlib.IoManager.{wait_time, tickle}
use corlib.IoManager.Wakeup.{
  Sleeper, CountsIdle, Step, Reach, sleeps, wakes, adds_timer, resets_timer, refreshes_timer,
  cancels_timer, asks_timer, tickles, start, next,
}
use corlib.IoManager.Guard.{
  NoneBefore, add_timer-IsGuarded, reset-IsGuarded, refresh-NoneBefore, cancel-NoneBefore,
}

-- While the thread waits, the pipe holds a byte, or somebody is about to write one, or there is no need.
pub record Inv (s : Sleeper) : Type 0 where
  pub valid : Order.IsValid s.timers
  pub guarded :
      (d : ℕ)
      → s.until ≡ some d
      → (s.byte ≡ true) ⊎ ((0 < s.notices) ⊎ ((s.timers.tickled ≡ false) × NoneBefore d s.timers))

-- How a guard outlasts an operation on the timers.
outlasts :
    (s : Sleeper) (m : TimerManager) (front : Bool) (d : ℕ)
    → Inv s
    → s.until ≡ some d
    → ((s.timers.tickled ≡ false)
        → NoneBefore d s.timers
        → (front ≡ true) ⊎ ((m.tickled ≡ false) × NoneBefore d m))
    → (s.byte ≡ true)
      ⊎ ((0 < s.notices + (if front then 1 else 0)) ⊎ ((m.tickled ≡ false) × NoneBefore d m))
outlasts s m front d v e f = elim (v.guarded d e) [
  | inl b ↦ inl b
  | inr (inl n) ↦ inr (inl (omega (arith, n)))
  | inr (inr (t, h)) ↦ elim (f t h) [
    | inl on ↦ inr (inl (rw on (omega arith)))
    | inr k ↦ inr (inr k)
  ]
]

-- The same for an operation that never asks for a wake-up.
kept :
    (s : Sleeper) (m : TimerManager) (d : ℕ)
    → Inv s
    → s.until ≡ some d
    → ((s.timers.tickled ≡ false) → NoneBefore d s.timers → (m.tickled ≡ false) × NoneBefore d m)
    → (s.byte ≡ true) ⊎ ((0 < s.notices) ⊎ ((m.tickled ≡ false) × NoneBefore d m))
kept s m d v e f = elim (v.guarded d e) [
  | inl b ↦ inl b
  | inr (inl n) ↦ inr (inl n)
  | inr (inr (t, h)) ↦ inr (inr (f t h))
]

-- tickle() on a waiting thread.
tickle-byte :
    (s : Sleeper) (scheduler : Scheduler) (d : ℕ)
    → s.until ≡ some d
    → CountsIdle s scheduler
    → (s.byte || tickle scheduler) ≡ true
unfolding tickle
tickle-byte s scheduler d p idle =
    let busy : has_idle_threads scheduler ≡ true = idle (rw p refl) in ground (arith, busy)

-- What getNextTimer promised.
sleeps-NoneBefore :
    (m : TimerManager) (now wait : ℕ)
    → Order.IsValid m
    → (wait_time m now).1 ≡ suc wait
    → NoneBefore (now + milliseconds (suc wait)) m
sleeps-NoneBefore m now wait v w = go m.timers refl
  where
    go : (ts : List ℕ) → m.timers ≡ ts → NoneBefore (now + milliseconds (suc wait)) m
    go [] e = rw e tt
    go (i ∷ ts) e = elim (wait_time_bounds m now i ts v e).1 [
      | inl z ↦ absurd (omega (arith, z, w))
      | inr h ↦ subst (λ n. NoneBefore (now + milliseconds n) m) w h
    ]

Step-Inv : {s s' : Sleeper} → Step s s' → Inv s → Inv s'
unfolding wait_time get_next_timer
Step-Inv {s} (sleeps now wait awake e) v = record {
  valid = Step-IsValid (asks s.timers now) v.valid;
  guarded = λ d q.
      let p : now + milliseconds (suc wait) ≡ d = cc in
      inr (
        inr (
          refl,
          subst (λ n. NoneBefore n s.timers) p (sleeps-NoneBefore s.timers now wait v.valid e),
        ));
}
Step-Inv {s} wakes v = record { valid = v.valid; guarded = λ d e. cc }
Step-Inv {s} (adds_timer ms cb recurring now fits) v = record {
  valid = Step-IsValid (adds s.timers ms cb recurring now fits) v.valid;
  guarded = λ d e.
      let r = add_timer s.timers ms cb recurring now in
      outlasts s r.0 r.1 d v e (add_timer-IsGuarded s.timers ms cb recurring now d v.valid);
}
Step-Inv {s} (resets_timer i ms from_now now lt fits) v = record {
  valid = Step-IsValid (resets s.timers i ms from_now now lt fits) v.valid;
  guarded = λ d e.
      let r = reset s.timers i ms from_now now in
      outlasts s r.0 r.2 d v e (reset-IsGuarded s.timers i ms from_now now d v.valid);
}
Step-Inv {s} (tickles n scheduler e idle) v = record {
  valid = v.valid;
  guarded = λ d p. inl (tickle-byte s scheduler d p idle);
}
Step-Inv {s} (refreshes_timer i now lt fits le) v = record {
  valid = Step-IsValid (refreshes s.timers i now lt fits) v.valid;
  guarded = λ d e.
      kept s (refresh s.timers i now).0 d v e
        (λ t h. let k = refresh-NoneBefore s.timers i now d v.valid le h in (k.0 ∙ t, k.1));
}
Step-Inv {s} (cancels_timer i) v = record {
  valid = Step-IsValid (cancels s.timers i) v.valid;
  guarded = λ d e.
      kept s (cancel s.timers i).0 d v e
        (λ t h. let k = cancel-NoneBefore s.timers i d h in (k.0 ∙ t, k.1));
}
Step-Inv {s} (asks_timer now) v = record {
  valid = Step-IsValid (asks s.timers now) v.valid;
  guarded = λ d e. kept s (get_next_timer s.timers now).0 d v e (λ t h. (refl, h));
}

-- However the sleep of one idle thread and the calls of other threads interleave, from a thread that is
-- awake with a valid time heap, where times are below 2 ^ 63 nanoseconds and no refresh brings a timer
-- forward: while the thread waits in epoll until the time `d`, either the pipe of tickle() holds a byte,
-- so that the wait ends, or another thread is about to write one, or no timer of the heap comes before
-- `d`. That thread's next step puts the byte into the pipe, so that a timer that is added or reset to
-- an earlier time is not overslept.
pub Reach-IsGuarded :
    {s s' : Sleeper} (d : ℕ)
    → Order.IsValid s.timers
    → s.until ≡ none
    → Reach s s'
    → s'.until ≡ some d
    → (s'.byte ≡ true)
      ⊎ (((0 < s'.notices)
            × ((scheduler : Scheduler)
                → CountsIdle s' scheduler
                → (s'.byte || tickle scheduler) ≡ true))
          ⊎ NoneBefore d s'.timers)
Reach-IsGuarded {s} {s'} d v awake r e = elim ((go r).guarded d e) [
  | inl b ↦ inl b
  | inr (inl n) ↦ inr (inl (n, λ scheduler idle. tickle-byte s' scheduler d e idle))
  | inr (inr h) ↦ inr (inr h.1)
]
  where
    go : {s' : Sleeper} → Reach s s' → Inv s'
    go start = record { valid = v; guarded = λ k q. cc }
    go (next r q) = Step-Inv q (go r)
