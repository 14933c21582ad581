-- ===== src/Timer/Order.antt =====
-- The time heap is well formed: the std::set stays strictly sorted by the times that its timers hold,
-- it holds live objects only, and every timer's time is at least its period after the clock's zero.
-- Every operation of corlib/timer.cpp keeps this.
mod Keeps
pub use Keeps.*
use mathlib.Core.Path.{fun_ext}
use corlib.Base.{
  ℕ, zero, suc, if◌then◌else◌, ◌-◌, ◌<◌, ◌≤◌, ◌≡◌, refl, subst, ◌≢◌, inl, inr, Bool, Option, none,
  some, List, [], ◌∷◌, ◌==◌, is_some, All, All-map, All-In, All-of_In, In, arith, Bool-cases,
  Option-cases, leb, ◌&&◌, ◌||◌, not, WhenSome,
}
use corlib.Callback.{Callback}
use corlib.Timer.{
  Timer, TimerManager, Fits, key, update, milliseconds, init, cancel, refresh, reset, add_timer_ptr,
  add_timer, get_next_timer, expire_one, expire_loop, list_expired_cb, expired,
}
use corlib.Timer.Set.{
  insert, find, erase, erase_found, Sorted, Sorted-ext, insert-Sorted, insert-All, erase-Sorted,
  erase-All,
}
use corlib.Timer.Set.Members.{removed-IsFree, IsFree}

-- One round of the loop of listExpiredCb.
pub head-IsFree : (k : ℕ → ℕ) (i : ℕ) (ts : List ℕ) → Sorted k (i ∷ ts) → IsFree k i ts
head-IsFree k i ts h = All-of_In _ ts (λ y m. let l : k i < k y = All-In _ ts h.0 m in omega arith)

pub expire_one-IsValid :
    (m : TimerManager) (now i : ℕ) (ts : List ℕ)
    → IsValid (record m { timers = i ∷ ts })
    → IsValid (with_heap m (expire_one now m.object i ts).0 (expire_one now m.object i ts).1)
unfolding expire_one
expire_one-IsValid m now i ts v = elim (Bool-cases (m.object i).recurring) [
  | inl e ↦ rw e (record {
    sorted =
        insert-Sorted _ i ts
          (update-Sorted m.object i _ ts (head-IsFree _ i ts v.sorted) v.sorted.1);
    live = insert-All _ (λ j. j < m.fresh) i ts v.live.0 v.live.1;
    span = λ j. ground (arith, v.span j);
  })
  | inr e ↦ rw e (record {
    sorted = update_same-Sorted m.object i _ ts refl v.sorted.1;
    live = v.live.1;
    span = λ j. ground (arith, v.span i, v.span j);
  })
]

pub expire_loop-IsValid :
    (fuel now : ℕ) (rollover : Bool) (m : TimerManager) (ts : List ℕ) (cbs : List (Option Callback))
    → IsValid (record m { timers = ts })
    → WhenSome (λ r. IsValid (with_heap m r.0 r.1)) (expire_loop fuel now rollover m.object ts cbs)
unfolding expire_loop
expire_loop-IsValid zero now ro m ts cbs v = tt
expire_loop-IsValid (suc fuel) now ro m [] cbs v = v
expire_loop-IsValid (suc fuel) now ro m (i ∷ ts) cbs v =
    elim (Bool-cases (ro || leb (key m.object i) now)) [
      | inl due ↦
          rw (due, WhenSome, expire_loop)
            (let r = expire_one now m.object i ts in
              expire_loop-IsValid fuel now ro (with_heap m r.0 r.1) r.1 _
                (expire_one-IsValid m now i ts v))
      | inr rest ↦ rw (rest, WhenSome, expire_loop) v
    ]

expired-IsValid :
    (m : TimerManager) (r : Option ((ℕ → Timer) × List ℕ × List (Option Callback)))
    → WhenSome (λ r. IsValid (with_heap m r.0 r.1)) r
    → WhenSome (λ r. IsValid r.0) (expired m r)
unfolding expired
expired-IsValid m none h = tt
expired-IsValid m (some (object, ts, out)) h = h

pub list_expired_cb-IsValid :
    (fuel : ℕ) (m : TimerManager) (now later : ℕ) (cbs : List (Option Callback))
    → IsValid m
    → WhenSome (λ r. IsValid r.0) (list_expired_cb fuel m now later cbs)
unfolding list_expired_cb
list_expired_cb-IsValid fuel m now later cbs v = expired-IsValid _ _ (
    expire_loop-IsValid fuel now _ (record m { previous_time = later }) m.timers cbs
      (record { sorted = v.sorted; live = v.live; span = v.span }))

-- From when the new period of Timer::reset counts.
abbrev pub restart : TimerManager → ℕ → Bool → ℕ → ℕ
restart m i from_now now = if from_now then now else key m.object i - milliseconds (m.object i).ms

-- What the clients of one manager do, in any order and at any times, as long as the times that timers
-- get are such as the clock can hold.
pub data Step : TimerManager → TimerManager → Type 0 where
  cancels : (m : TimerManager) (i : ℕ) → Step m (cancel m i).0
  refreshes :
      (m : TimerManager) (i now : ℕ)
      → i < m.fresh
      → Fits now (m.object i).ms
      → Step m (refresh m i now).0
  resets :
      (m : TimerManager) (i ms : ℕ) (from_now : Bool) (now : ℕ)
      → i < m.fresh
      → Fits (restart m i from_now now) ms
      → Step m (reset m i ms from_now now).0
  adds :
      (m : TimerManager) (ms : ℕ) (cb : Option Callback) (recurring : Bool) (now : ℕ)
      → Fits now ms
      → Step m (add_timer m ms cb recurring now).0
  asks : (m : TimerManager) (now : ℕ) → Step m (get_next_timer m now).0
  expires :
      (m m' : TimerManager) (fuel now later : ℕ) (cbs out : List (Option Callback))
      → All (λ i. Fits now (m.object i).ms) m.timers
      → list_expired_cb fuel m now later cbs ≡ some (m', out)
      → Step m m'

pub Step-IsValid : {m m' : TimerManager} → Step m m' → IsValid m → IsValid m'
Step-IsValid (cancels m i) v = cancel-IsValid m i v
Step-IsValid (refreshes m i now lt fits) v = refresh-IsValid m i now v lt
Step-IsValid (resets m i ms from_now now lt fits) v = reset-IsValid m i ms from_now now v lt
Step-IsValid (adds m ms cb recurring now fits) v = add_timer-IsValid m ms cb recurring now v
Step-IsValid (asks m now) v = get_next_timer-IsValid m now v
Step-IsValid (expires m m' fuel now later cbs out fits e) v =
    subst (WhenSome (λ r. IsValid r.0)) e (list_expired_cb-IsValid fuel m now later cbs v)

pub data Reach (now : ℕ) : TimerManager → Type 0 where
  start : Reach now (init now)
  next : {m m' : TimerManager} → Reach now m → Step m m' → Reach now m'

-- In every state that a time heap can reach, by any calls at any times where each time that a timer gets
-- is below 2 ^ 63 nanoseconds, its set is strictly sorted by the times that its timers hold, holds live
-- objects only, and no timer's time lies before its period.
pub Reach-IsValid : {start_time : ℕ} {m : TimerManager} → Reach start_time m → IsValid m
Reach-IsValid {start_time} start = init-IsValid start_time
Reach-IsValid (next r s) = Step-IsValid s (Reach-IsValid r)
