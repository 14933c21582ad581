-- ===== src/Timer/Calls.antt =====
-- What the calls of corlib/timer.cpp do to the set of timers, on success and on collision.
use corlib.Base.{
  ℕ, suc, ◌+◌, ◌-◌, ◌/◌, ◌<◌, ◌≤◌, ◌≡◌, refl, sym, ap, subst, ◌∙◌, ◌≢◌, ◌⊎◌, inl, inr, Bool, true,
  false, Option, none, some, List, [], ◌∷◌, All, All-In, All-map, All-of_In, In, arith, ◌&&◌, not,
  ◌↔◌,
}
use corlib.Callback.{Callback}
use corlib.Timer.{
  Timer, TimerManager, key, update, milliseconds, cancel, add_timer, Fits, make_timer,
  get_next_timer, until_first,
}
use corlib.Timer.Set.{find, erase_found, at_begin, Sorted, Sorted-ext}
use corlib.Timer.Set.Members.{
  IsFree, removed-IsFree, removed-kept, insert-In, insert_self, insert_collision,
}
use corlib.Timer.Order.{IsValid, key-update_same}

abbrev IsWait : (ℕ → Timer) → ℕ → ℕ → List ℕ → ℕ → Type 0
IsWait object now i ts wait =
    ((wait ≡ 0) ⊎ All (λ j. now + milliseconds wait ≤ key object j) (i ∷ ts))
    × (key object i < now + milliseconds (wait + 1))

until_first-cases :
    (object : ℕ → Timer) (now i : ℕ) (ts : List ℕ)
    → let wait = until_first object (i ∷ ts) now in
      ((wait ≡ 0) × (key object i ≤ now))
      ⊎ ((wait ≡ (key object i - now) / 1000000) × (now < key object i))
unfolding until_first
until_first-cases object now i ts = ground arith

until_first_bounds :
    (object : ℕ → Timer) (now i : ℕ) (ts : List ℕ)
    → Sorted (key object) (i ∷ ts)
    → IsWait object now i ts (until_first object (i ∷ ts) now)
until_first_bounds object now i ts h = elim (until_first-cases object now i ts) [
  | inl (e, l) ↦ (inl e, omega (arith, e, l))
  | inr (e, l) ↦
      (inr (omega (arith, e, l), All-map _ _ ts (λ j q. later j q e l) h.0), omega (arith, e, l))
]
  where
    later :
        (j : ℕ)
        → key object i < key object j
        → until_first object (i ∷ ts) now ≡ (key object i - now) / 1000000
        → now < key object i
        → now + milliseconds (until_first object (i ∷ ts) now) ≤ key object j
    later j q e l = omega arith

-- The caller of getNextTimer that sleeps for the milliseconds it returns does not sleep past a
-- timer: the answer is 0, or no timer of the set comes before that sleep is over. Nor does it wake
-- long before: the first timer's time comes within one millisecond after that sleep.
pub get_next_timer_bounds :
    (m : TimerManager) (now i : ℕ) (ts : List ℕ)
    → IsValid m
    → m.timers ≡ i ∷ ts
    → let wait = (get_next_timer m now).1 in
      ((wait ≡ 0) ⊎ All (λ j. now + milliseconds wait ≤ key m.object j) m.timers)
      × (key m.object i < now + milliseconds (wait + 1))
unfolding get_next_timer
get_next_timer_bounds m now i ts v e =
    rw e (until_first_bounds m.object now i ts (subst (Sorted (key m.object)) e v.sorted))

cancelled : TimerManager → ℕ → TimerManager
cancelled m i = record m {
  object = update m.object i (record (m.object i) { cb = none });
  timers = erase_found (find (key m.object) i m.timers) m.timers;
}

cancel-cancelled :
    (m : TimerManager) (i : ℕ) (c : Callback)
    → (m.object i).cb ≡ some c
    → cancel m i ≡ (cancelled m i, true)
unfolding cancel cancelled
cancel-cancelled m i c e =
    rw (e, cancel)
      (ap
        (λ k. (
          record m {
            object = (cancelled m i).object;
            timers = erase_found (find k i m.timers) m.timers;
          },
          true,
        ))
        (key-update_same m.object i (record (m.object i) { cb = none }) refl))

cancelled-cb : (m : TimerManager) (i : ℕ) → ((cancelled m i).object i).cb ≡ none
unfolding cancelled
cancelled-cb m i = ground arith

cancel-null : (m : TimerManager) (i : ℕ) → (m.object i).cb ≡ none → cancel m i ≡ (m, false)
unfolding cancel
cancel-null m i e = rw (e, cancel)

-- Cancelling a timer that has a callback succeeds: the callback is gone, the set holds no timer with
-- its time any more, keeps every timer with another time, and a second cancel answers false and
-- changes nothing.
pub cancel_lem :
    (m : TimerManager) (i : ℕ) (c : Callback)
    → IsValid m
    → (m.object i).cb ≡ some c
    → let r = cancel m i in
      (r.1 ≡ true)
      × ((r.0.object i).cb ≡ none)
      × IsFree (key m.object) i r.0.timers
      × ((j : ℕ) → In j m.timers → key m.object j ≢ key m.object i → In j r.0.timers)
      × (cancel r.0 i ≡ (r.0, false))
cancel_lem m i c v e = rw (cancel-cancelled m i c e) (
  refl,
  cancelled-cb m i,
  unfold cancelled in removed-IsFree (key m.object) i m.timers v.sorted,
  (λ j h ne. unfold cancelled in removed-kept (key m.object) i j m.timers h ne),
  cancel-null _ i (cancelled-cb m i),
)

at_begin_iff :
    (k : ℕ → ℕ) (x : ℕ) (ts : List ℕ)
    → Sorted k ts
    → (at_begin k x ts ≡ true) ↔ All (λ j. k x ≤ k j) ts
unfolding at_begin
at_begin_iff k x [] h = (λ _. tt, λ _. refl)
at_begin_iff k x (y ∷ ys) h =
    ((λ e. (ground arith, All-map _ _ ys (λ j q. le j q e) h.0)), (λ a. ground arith))
  where
    le : (j : ℕ) → k y < k j → at_begin k x (y ∷ ys) ≡ true → k x ≤ k j
    le j q e = ground arith

-- The heap with the new timer's object in place.
placed : TimerManager → ℕ → Option Callback → Bool → ℕ → TimerManager
placed m ms cb recurring now = record m {
  object = update m.object m.fresh (make_timer ms cb recurring now);
  fresh = suc m.fresh;
}

module _ (m : TimerManager) (ms : ℕ) (cb : Option Callback) (recurring : Bool) (now : ℕ)
    (v : IsValid m) where
  new_key : key (placed m ms cb recurring now).object m.fresh ≡ now + milliseconds ms
  unfolding placed make_timer
  new_key = grind arith

  old_key : (j : ℕ) → In j m.timers → key (placed m ms cb recurring now).object j ≡ key m.object j
  unfolding placed
  old_key j h = let lt : j < m.fresh = All-In _ m.timers v.live h in grind arith

  placed-Sorted : Sorted (key (placed m ms cb recurring now).object) m.timers
  placed-Sorted = Sorted-ext _ _ m.timers (λ j h. sym (old_key j h)) v.sorted

  new-IsFree :
      All (λ j. key m.object j ≢ now + milliseconds ms) m.timers
      → IsFree (key (placed m ms cb recurring now).object) m.fresh m.timers
  new-IsFree a =
      All-of_In _ m.timers (λ j h e. All-In _ m.timers a h (sym (old_key j h) ∙ e ∙ new_key))

  front_iff :
      ((at_begin (key (placed m ms cb recurring now).object) m.fresh m.timers && not m.tickled)
        ≡ true)
      ↔ ((m.tickled ≡ false) × All (λ j. now + milliseconds ms ≤ key m.object j) m.timers)
  front_iff = (
    λ e. (
      ground arith,
      All-of_In _ m.timers (λ j h.
          omega (arith, All-In _ m.timers (begin.0 (ground arith)) h, old_key j h, new_key)),
    ),
    λ a. ground (
      arith,
      begin.1 (
          All-of_In _ m.timers
            (λ j h. omega (arith, All-In _ m.timers a.1 h, old_key j h, new_key))),
    ),
  )
    where
      k' : ℕ → ℕ
      k' = key (placed m ms cb recurring now).object

      begin : (at_begin k' m.fresh m.timers ≡ true) ↔ All (λ j. k' m.fresh ≤ k' j) m.timers
      begin = at_begin_iff k' m.fresh m.timers placed-Sorted

-- Where now + ms is below 2 ^ 63 nanoseconds: a new timer whose time no timer of the set has goes
-- into the set, which keeps all its timers, and it has the given callback and period and the time
-- now + ms. The waiting thread is woken exactly when no wake-up is outstanding and no timer of the
-- set comes before the new one.
pub add_timer_lem :
    (m : TimerManager) (ms : ℕ) (cb : Option Callback) (recurring : Bool) (now : ℕ)
    → IsValid m
    → Fits now ms
    → All (λ j. key m.object j ≢ now + milliseconds ms) m.timers
    → let r = add_timer m ms cb recurring now in
      In m.fresh r.0.timers
      × ((j : ℕ) → In j m.timers → In j r.0.timers)
      × (r.0.object m.fresh
          ≡ record { recurring = recurring; ms = ms; next = now + milliseconds ms; cb = cb })
      × ((r.1 ≡ true)
          ↔ ((m.tickled ≡ false) × All (λ j. now + milliseconds ms ≤ key m.object j) m.timers))
unfolding add_timer placed
add_timer_lem m ms cb recurring now v fits free = (
  insert_self _ m.fresh m.timers (new-IsFree m ms cb recurring now v free),
  (λ j h. insert-In _ m.fresh j m.timers h),
  grind arith,
  front_iff m ms cb recurring now v,
)

-- A new timer whose time equals that of a timer of the set is dropped: the set stays as it was and
-- does not hold the new timer, which no call reports.
pub add_timer_collision :
    (m : TimerManager) (ms : ℕ) (cb : Option Callback) (recurring : Bool) (now j : ℕ)
    → IsValid m
    → In j m.timers
    → key m.object j ≡ now + milliseconds ms
    → let r = add_timer m ms cb recurring now in (r.0.timers ≡ m.timers) × ¬ In m.fresh r.0.timers
unfolding add_timer placed
add_timer_collision m ms cb recurring now j v h e = (same, λ q. absent (subst (In m.fresh) same q))
  where
    same : (add_timer m ms cb recurring now).0.timers ≡ m.timers
    same =
        insert_collision _ m.fresh j m.timers (placed-Sorted m ms cb recurring now v) h
          (old_key m ms cb recurring now v j h ∙ e ∙ sym (new_key m ms cb recurring now v))

    absent : ¬ In m.fresh m.timers
    absent q = let lt : m.fresh < m.fresh = All-In _ m.timers v.live q in omega arith

-- Cancelling a timer that was dropped takes another timer out of the set: the one whose time it
-- shares, which keeps its callback, so that this callback is never returned.
pub cancel_drops_other :
    (m : TimerManager) (i j : ℕ) (c : Callback)
    → IsValid m
    → (m.object i).cb ≡ some c
    → i ≢ j
    → In j m.timers
    → key m.object j ≡ key m.object i
    → let r = cancel m i in (r.1 ≡ true) × (¬ In j r.0.timers) × (r.0.object j ≡ m.object j)
cancel_drops_other m i j c v e ne h same =
    let (ok, _, free, _, _) = cancel_lem m i c v e in
    (
      ok,
      (λ q. All-In _ _ free q same),
      rw (cancel-cancelled m i c e) (unfold cancelled in grind arith),
    )
