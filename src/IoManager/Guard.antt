-- ===== src/IoManager/Guard.antt =====
-- What the operations of corlib/timer.cpp on the time heap leave to a thread that waits until a time `d`: they
-- ask for a wake-up, or bring no timer before `d`.
use corlib.Base.{
  ℕ, suc, ◌+◌, ◌<◌, ◌≤◌, ◌≡◌, ◌≢◌, refl, ap, ◌⊎◌, inl, inr, Bool, true, false, ◌&&◌, not, Option,
  some, List, [], ◌∷◌, All, All-In, All-of_In, In, arith, Bool-cases, Option-cases, is_some, ◌==◌,
}
use corlib.Callback.{Callback}
use corlib.Timer.{
  Timer, TimerManager, key, update, milliseconds, cancel, refresh, reset, add_timer, add_timer_ptr,
  make_timer,
}
use corlib.Timer.Set.{erase, erase_found, find, at_begin, insert-All}
use corlib.Timer.Order
use corlib.Timer.Order.{Step-IsValid, asks, adds, cancels, refreshes, resets}
use corlib.Timer.Set.Members.{removed-IsFree, erase_found-In}

-- No timer comes before `d`.
abbrev pub NoneBefore : ℕ → TimerManager → Type 0
NoneBefore d m = All (λ j. d ≤ key m.object j) m.timers

-- The thread will look at the timers again, or need not until `d`.
abbrev pub IsGuarded : ℕ → Bool → TimerManager → Type 0
IsGuarded d byte m = (byte ≡ true) ⊎ ((m.tickled ≡ false) × NoneBefore d m)

at_begin-late :
    (k : ℕ → ℕ) (d x : ℕ) (ts : List ℕ) → at_begin k x ts ≡ false → All (λ j. d ≤ k j) ts → d ≤ k x
unfolding at_begin
at_begin-late k d x [] e h = cc
at_begin-late k d x (y ∷ ys) e h = ground (arith, e, h.0)

-- addTimer asks for a wake-up, or the timer does not come first.
ptr-IsGuarded :
    (m : TimerManager) (i d : ℕ)
    → m.tickled ≡ false
    → NoneBefore d m
    → let r = add_timer_ptr m i in (r.1 ≡ true) ⊎ ((r.0.tickled ≡ false) × NoneBefore d r.0)
unfolding add_timer_ptr
ptr-IsGuarded m i d t h = elim (Bool-cases (at_begin (key m.object) i m.timers)) [
  | inl e ↦ rw (e, t) (inl refl)
  | inr e ↦
      rw (e, t)
        (inr (
          refl,
          insert-All (key m.object) (λ j. d ≤ key m.object j) i m.timers
              (at_begin-late (key m.object) d i m.timers e h) h,
        ))
]

-- A change of an object that is not in the set.
update-NoneBefore :
    (m : TimerManager) (i d : ℕ) (t : Timer) (ts : List ℕ)
    → ((j : ℕ) → In j ts → j ≢ i)
    → ((j : ℕ) → In j ts → In j m.timers)
    → NoneBefore d m
    → All (λ j. d ≤ key (update m.object i t) j) ts
update-NoneBefore m i d t ts apart old h =
    All-of_In _ ts
      (λ j q. let ne = apart j q in let le = All-In _ m.timers h (old j q) in grind arith)

pub add_timer-IsGuarded :
    (m : TimerManager) (ms : ℕ) (cb : Option Callback) (recurring : Bool) (now d : ℕ)
    → Order.IsValid m
    → m.tickled ≡ false
    → NoneBefore d m
    → let r = add_timer m ms cb recurring now in
      (r.1 ≡ true) ⊎ ((r.0.tickled ≡ false) × NoneBefore d r.0)
unfolding add_timer
add_timer-IsGuarded m ms cb recurring now d v t h =
    ptr-IsGuarded
      (record m {
        object = update m.object m.fresh (make_timer ms cb recurring now);
        fresh = suc m.fresh;
      })
      m.fresh d t
      (update-NoneBefore m m.fresh d _ m.timers
        (λ j q e.
          absurd (let lt : j < m.fresh = All-In _ m.timers v.live q in omega (arith, lt, e)))
        (λ j q. q) h)

-- A timer that was found is out of the set.
erase-apart :
    (m : TimerManager) (i pos j : ℕ)
    → Order.IsValid m
    → find (key m.object) i m.timers ≡ some pos
    → In j (erase pos m.timers)
    → (j ≢ i) × In j m.timers
unfolding erase_found
erase-apart m i pos j v e q = (
  (λ p.
      All-In _ _ (removed-IsFree (key m.object) i m.timers v.sorted) (rw e q)
        (ap (key m.object) p)),
  erase_found-In j (some pos) m.timers q,
)

-- A timer goes out of the set and in again by addTimer.
again-IsGuarded :
    (m : TimerManager) (i pos d : ℕ) (u : Timer)
    → Order.IsValid m
    → find (key m.object) i m.timers ≡ some pos
    → m.tickled ≡ false
    → NoneBefore d m
    → let r =
        add_timer_ptr (record m { object = update m.object i u; timers = erase pos m.timers }) i in
      (r.1 ≡ true) ⊎ ((r.0.tickled ≡ false) × NoneBefore d r.0)
again-IsGuarded m i pos d u v e t h =
    ptr-IsGuarded (record m { object = update m.object i u; timers = erase pos m.timers }) i d t
      (update-NoneBefore m i d u (erase pos m.timers) (λ j q. (erase-apart m i pos j v e q).0)
        (λ j q. (erase-apart m i pos j v e q).1) h)

pub reset-IsGuarded :
    (m : TimerManager) (i ms : ℕ) (from_now : Bool) (now d : ℕ)
    → Order.IsValid m
    → m.tickled ≡ false
    → NoneBefore d m
    → let r = reset m i ms from_now now in (r.2 ≡ true) ⊎ ((r.0.tickled ≡ false) × NoneBefore d r.0)
unfolding reset
reset-IsGuarded m i ms from_now now d v t h =
    elim (Bool-cases (ms == (m.object i).ms && not from_now)) [
      | inl same ↦ rw same (inr (t, h))
      | inr other ↦ elim (Bool-cases (is_some (m.object i).cb)) [
        | inl e ↦ elim (Option-cases (find (key m.object) i m.timers)) [
          | inl q ↦ rw (other, e, q) (inr (t, h))
          | inr (pos, q) ↦ rw (other, e, q) (again-IsGuarded m i pos d _ v q t h)
        ]
        | inr e ↦ rw (other, e) (inr (t, h))
      ]
    ]

-- What is found comes no earlier than the first.
find-late :
    (k : ℕ → ℕ) (d x pos : ℕ) (ts : List ℕ)
    → find k x ts ≡ some pos
    → All (λ j. d ≤ k j) ts
    → d ≤ k x
unfolding find
find-late k d x pos [] e h = cc
find-late k d x pos (y ∷ ys) e h = ground (arith, e, h.0)

pub refresh-NoneBefore :
    (m : TimerManager) (i now d : ℕ)
    → Order.IsValid m
    → key m.object i ≤ now + milliseconds (m.object i).ms
    → NoneBefore d m
    → ((refresh m i now).0.tickled ≡ m.tickled) × NoneBefore d (refresh m i now).0
unfolding refresh
refresh-NoneBefore m i now d v le h = elim (Bool-cases (is_some (m.object i).cb)) [
  | inl e ↦ elim (Option-cases (find (key m.object) i m.timers)) [
    | inl q ↦ rw (e, q) (refl, h)
    | inr (pos, q) ↦
        rw (e, q)
          (
            refl,
            insert-All _ _ i (erase pos m.timers)
                (let found = find-late (key m.object) d i pos m.timers q h in grind arith)
                (update-NoneBefore m i d _ (erase pos m.timers)
                  (λ j w. (erase-apart m i pos j v q w).0) (λ j w. (erase-apart m i pos j v q w).1)
                  h),
          )
  ]
  | inr e ↦ rw e (refl, h)
]

pub cancel-NoneBefore :
    (m : TimerManager) (i d : ℕ)
    → NoneBefore d m
    → ((cancel m i).0.tickled ≡ m.tickled) × NoneBefore d (cancel m i).0
unfolding cancel
cancel-NoneBefore m i d h = elim (Bool-cases (is_some (m.object i).cb)) [
  | inl e ↦ rw e (
    refl,
    All-of_In _ _
        (λ j q. let le = All-In _ m.timers h (erase_found-In j _ m.timers q) in grind arith),
  )
  | inr e ↦ rw e (refl, h)
]
