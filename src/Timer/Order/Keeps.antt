-- ===== src/Timer/Order/Keeps.antt =====
-- The invariant of the time heap, and that every operation of corlib/timer.cpp but listExpiredCb keeps it.
use mathlib.Core.Path.{fun_ext}
use corlib.Base.{
  ℕ, ◌<◌, ◌≤◌, ◌≡◌, refl, ◌≢◌, inl, inr, Bool, Option, none, some, List, ◌==◌, is_some, All,
  All-map, All-In, In, arith, Bool-cases, Option-cases, ◌&&◌, not,
}
use corlib.Callback.{Callback}
use corlib.Timer.{
  Timer, TimerManager, key, update, milliseconds, init, cancel, refresh, reset, add_timer_ptr,
  add_timer, get_next_timer,
}
use corlib.Timer.Set.{
  insert, find, erase, erase_found, Sorted, Sorted-ext, insert-Sorted, insert-All, erase-Sorted,
  erase-All,
}
use corlib.Timer.Set.Members.{removed-IsFree, IsFree}

pub record IsValid (m : TimerManager) : Type 0 where
  pub sorted : Sorted (key m.object) m.timers
  pub live : All (λ i. i < m.fresh) m.timers
  pub span : (i : ℕ) → milliseconds (m.object i).ms ≤ (m.object i).next

-- A timer whose time does not change leaves the keys alone.
pub key-update_same :
    (object : ℕ → Timer) (i : ℕ) (t : Timer)
    → t.next ≡ (object i).next
    → key (update object i t) ≡ key object
key-update_same object i t e = fun_ext λ j. grind arith

pub update_same-Sorted :
    (object : ℕ → Timer) (i : ℕ) (t : Timer) (ts : List ℕ)
    → t.next ≡ (object i).next
    → Sorted (key object) ts
    → Sorted (key (update object i t)) ts
update_same-Sorted object i t ts e h = rw (key-update_same object i t e) h

-- A timer outside the set may get another time.
pub update-Sorted :
    (object : ℕ → Timer) (i : ℕ) (t : Timer) (ts : List ℕ)
    → IsFree (key object) i ts
    → Sorted (key object) ts
    → Sorted (key (update object i t)) ts
update-Sorted object i t ts free h = Sorted-ext _ _ ts same h
  where
    same : (y : ℕ) → In y ts → key object y ≡ key (update object i t) y
    same y m = let ne : key object y ≢ key object i = All-In _ ts free m in grind arith

erase_found-All :
    (P : ℕ → Type 0) (p : Option ℕ) (ts : List ℕ) → All P ts → All P (erase_found p ts)
unfolding erase_found
erase_found-All P none ts h = h
erase_found-All P (some pos) ts h = erase-All P pos ts h

pub erase_found-Sorted :
    (k : ℕ → ℕ) (p : Option ℕ) (ts : List ℕ) → Sorted k ts → Sorted k (erase_found p ts)
unfolding erase_found
erase_found-Sorted k none ts h = h
erase_found-Sorted k (some pos) ts h = erase-Sorted k pos ts h

pub init-IsValid : (now : ℕ) → IsValid (init now)
unfolding init
init-IsValid now = record { sorted = tt; live = tt; span = λ i. omega arith }

pub cancel-IsValid : (m : TimerManager) (i : ℕ) → IsValid m → IsValid (cancel m i).0
unfolding cancel
cancel-IsValid m i v = elim (Option-cases (m.object i).cb) [
  | inl e ↦ rw e v
  | inr (c, e) ↦ rw e (record {
    sorted = update_same-Sorted m.object i _ _ refl (erase_found-Sorted _ _ m.timers v.sorted);
    live = erase_found-All _ _ m.timers v.live;
    span = λ j. ground (arith, v.span i, v.span j);
  })
]

abbrev pub with_heap : TimerManager → (ℕ → Timer) → List ℕ → TimerManager
with_heap m object ts = record m { object = object; timers = ts }

-- A timer goes out of the set, gets another time, and goes in again.
pub moved-IsValid :
    (m : TimerManager) (i pos : ℕ) (t : Timer)
    → IsValid m
    → i < m.fresh
    → milliseconds t.ms ≤ t.next
    → find (key m.object) i m.timers ≡ some pos
    → IsValid (
        with_heap m
          (update m.object i t)
          (insert (key (update m.object i t)) i (erase pos m.timers)))
unfolding erase_found
moved-IsValid m i pos t v lt spans e = record {
  sorted =
      insert-Sorted k' i rest
        (update-Sorted m.object i t rest free (erase-Sorted k pos m.timers v.sorted));
  live =
      insert-All k' (λ j. j < m.fresh) i rest lt (erase-All (λ j. j < m.fresh) pos m.timers v.live);
  span = λ j. ground (arith, v.span j);
}
  where
    k : ℕ → ℕ
    k = key m.object

    k' : ℕ → ℕ
    k' = key (update m.object i t)

    rest : List ℕ
    rest = erase pos m.timers

    free : IsFree k i rest
    free = rw e at (removed-IsFree k i m.timers v.sorted)

pub refresh-IsValid :
    (m : TimerManager) (i now : ℕ) → IsValid m → i < m.fresh → IsValid (refresh m i now).0
unfolding refresh
refresh-IsValid m i now v lt = elim (Bool-cases (is_some (m.object i).cb)) [
  | inl e ↦ elim (Option-cases (find (key m.object) i m.timers)) [
    | inl q ↦ rw (e, q) v
    | inr (pos, q) ↦ rw (e, q) (moved-IsValid m i pos _ v lt (omega arith) q)
  ]
  | inr e ↦ rw e v
]

-- `addTimer(ptr)` after the object has been put in place.
pub add_timer_ptr-IsValid :
    (m : TimerManager) (i : ℕ) → IsValid m → i < m.fresh → IsValid (add_timer_ptr m i).0
unfolding add_timer_ptr
add_timer_ptr-IsValid m i v lt = record {
  sorted = insert-Sorted (key m.object) i m.timers v.sorted;
  live = insert-All (key m.object) (λ j. j < m.fresh) i m.timers lt v.live;
  span = v.span;
}

retag : {m : TimerManager} {tickled : Bool} → IsValid m → IsValid (record m { tickled = tickled })
retag v = record { sorted = v.sorted; live = v.live; span = v.span }

pub reset-IsValid :
    (m : TimerManager) (i ms : ℕ) (from_now : Bool) (now : ℕ)
    → IsValid m
    → i < m.fresh
    → IsValid (reset m i ms from_now now).0
unfolding reset
reset-IsValid m i ms from_now now v lt = elim (Bool-cases (ms == (m.object i).ms && not from_now)) [
  | inl same ↦ rw same v
  | inr other ↦ elim (Bool-cases (is_some (m.object i).cb)) [
    | inl e ↦ elim (Option-cases (find (key m.object) i m.timers)) [
      | inl q ↦ rw (other, e, q) v
      | inr (pos, q) ↦ rw (other, e, q) (retag (moved-IsValid m i pos _ v lt (omega arith) q))
    ]
    | inr e ↦ rw (other, e) v
  ]
]

-- The new object is not in the set, so its time may be chosen.
fresh-Sorted :
    (m : TimerManager) (t : Timer) → IsValid m → Sorted (key (update m.object m.fresh t)) m.timers
fresh-Sorted m t v = Sorted-ext _ _ m.timers same v.sorted
  where
    same : (y : ℕ) → In y m.timers → key m.object y ≡ key (update m.object m.fresh t) y
    same y h = let lt : y < m.fresh = All-In _ m.timers v.live h in grind arith

pub add_timer-IsValid :
    (m : TimerManager) (ms : ℕ) (cb : Option Callback) (recurring : Bool) (now : ℕ)
    → IsValid m
    → IsValid (add_timer m ms cb recurring now).0
unfolding add_timer
add_timer-IsValid m ms cb recurring now v =
    add_timer_ptr-IsValid _ m.fresh
      (record {
        sorted = fresh-Sorted m _ v;
        live = All-map _ _ m.timers (λ j l. omega arith) v.live;
        span = λ j. ground (arith, v.span j);
      })
      (omega arith)

pub get_next_timer-IsValid :
    (m : TimerManager) (now : ℕ) → IsValid m → IsValid (get_next_timer m now).0
unfolding get_next_timer
get_next_timer-IsValid m now v = record { sorted = v.sorted; live = v.live; span = v.span }
