-- ===== src/Timer/Moves.antt =====
-- Timer::refresh and Timer::reset of corlib/timer.cpp: a timer that waits gets another time.
use corlib.Base.{
  ℕ, ◌+◌, ◌-◌, ◌<◌, ◌≡◌, refl, sym, ap, ◌∙◌, ◌≢◌, ◌⊎◌, inl, inr, Bool, true, false, some, List, [],
  ◌∷◌, if◌then◌else◌, All-In, All-of_In, In, arith, ◌&&◌, not, ◌==◌,
}
use corlib.Callback.{Callback}
use corlib.Timer.{Timer, TimerManager, key, update, milliseconds, refresh, reset}
use corlib.Timer.Set.{insert, find, erase_found, Sorted}
use corlib.Timer.Set.Members.{
  IsFree, removed-IsFree, removed-kept, erase_found-In, insert-In, insert_self, find-In,
}
use corlib.Timer.Order.{IsValid}

-- The object `i` of `m'` is `t`, it is in the set, and so is every other timer of `m`'s set.
abbrev pub Moved : TimerManager → ℕ → Timer → TimerManager → Type 0
Moved m i t m' =
    (m'.object i ≡ t)
    × In i m'.timers
    × ((j : ℕ) → j ≢ i → In j m.timers → In j m'.timers × (m'.object j ≡ m.object j))

update_other : (object : ℕ → Timer) (i y : ℕ) (t : Timer) → y ≢ i → update object i t y ≡ object y
update_other object i y t ne = grind arith

update_self : (object : ℕ → Timer) (i : ℕ) (t : Timer) → update object i t i ≡ t
update_self object i t = grind arith

-- Two timers of the set with one time are one timer.
In-unique :
    (k : ℕ → ℕ) (i j : ℕ) (ts : List ℕ) → Sorted k ts → In i ts → In j ts → k i ≡ k j → i ≡ j
In-unique k i j [] h p q e = elim p [ ]
In-unique k i j (x ∷ xs) h (inl p) (inl q) e = p ∙ sym q
In-unique k i j (x ∷ xs) h (inl p) (inr q) e =
    let l : k x < k j = All-In _ xs h.0 q in absurd (omega (arith, ap k p))
In-unique k i j (x ∷ xs) h (inr p) (inl q) e =
    let l : k x < k i = All-In _ xs h.0 p in absurd (omega (arith, ap k q))
In-unique k i j (x ∷ xs) h (inr p) (inr q) e = In-unique k i j xs h.1 p q e

module _ (m : TimerManager) (i : ℕ) (t : Timer) (v : IsValid m) (here : In i m.timers) where
  abbrev rest : List ℕ
  rest = erase_found (find (key m.object) i m.timers) m.timers

  rest-IsFree :
      ((j : ℕ) → In j m.timers → j ≢ i → key m.object j ≢ t.next)
      → IsFree (key (update m.object i t)) i rest
  rest-IsFree free = All-of_In _ rest ne
    where
      apart : (j : ℕ) → In j rest → j ≢ i
      apart j h e = All-In _ rest (removed-IsFree _ i m.timers v.sorted) h (ap (key m.object) e)

      ne : (j : ℕ) → In j rest → key (update m.object i t) j ≢ key (update m.object i t) i
      ne j h e = free j (erase_found-In j _ m.timers h) (apart j h) (
          ap (λ (u : Timer). u.next) (sym (update_other m.object i j t (apart j h)))
          ∙ e
          ∙ ap (λ (u : Timer). u.next) (update_self m.object i t))

  pub moved_lem :
      ((j : ℕ) → In j m.timers → j ≢ i → key m.object j ≢ t.next)
      → let object = update m.object i t in
        Moved m i t (record m { object = object; timers = insert (key object) i rest })
  moved_lem free = (
    update_self m.object i t,
    insert_self _ i rest (rest-IsFree free),
    λ j ne h. (
      insert-In _ i j rest
          (removed-kept _ i j m.timers h (λ e. ne (In-unique _ j i m.timers v.sorted h here e))),
      update_other m.object i j t ne,
    ),
  )

-- The manager with the object `i` given anew and put in again.
abbrev moved : TimerManager → ℕ → Timer → TimerManager
moved m i t =
    let object = update m.object i t in
    record m {
      object = object;
      timers = insert (key object) i (erase_found (find (key m.object) i m.timers) m.timers);
    }

abbrev refreshed : Timer → ℕ → Timer
refreshed t now = record t { next = now + milliseconds t.ms }

refresh-moved :
    (m : TimerManager) (i now pos : ℕ) (c : Callback)
    → (m.object i).cb ≡ some c
    → find (key m.object) i m.timers ≡ some pos
    → refresh m i now ≡ (moved m i (refreshed (m.object i) now), true)
unfolding refresh erase_found
refresh-moved m i now pos c e found = ground (arith, e, found)

-- Refreshing a timer that waits and has a callback succeeds: its time becomes now plus its period,
-- it stays in the set with all the others, and no other object changes, unless another timer of the
-- set has exactly the new time.
pub refresh_lem :
    (m : TimerManager) (i now : ℕ) (c : Callback)
    → IsValid m
    → In i m.timers
    → (m.object i).cb ≡ some c
    → ((j : ℕ) → In j m.timers → j ≢ i → key m.object j ≢ now + milliseconds (m.object i).ms)
    → let r = refresh m i now in (r.1 ≡ true) × Moved m i (refreshed (m.object i) now) r.0
refresh_lem m i now c v here e free =
    let (pos, found) = find-In (key m.object) i i m.timers v.sorted here refl in
    rw (refresh-moved m i now pos c e found)
      (refl, moved_lem m i (refreshed (m.object i) now) v here free)

-- The time and period that `reset` gives.
abbrev pub retimed : Timer → ℕ → Bool → ℕ → Timer
retimed t ms from_now now = record t {
  ms = ms;
  next = (if from_now then now else t.next - milliseconds t.ms) + milliseconds ms;
}

reset-moved :
    (m : TimerManager) (i ms : ℕ) (from_now : Bool) (now pos : ℕ) (c : Callback)
    → (m.object i).cb ≡ some c
    → find (key m.object) i m.timers ≡ some pos
    → (ms == (m.object i).ms && not from_now) ≡ false
    → let t = retimed (m.object i) ms from_now now in
      let r = reset m i ms from_now now in
      (r.0.object ≡ (moved m i t).object) × (r.0.timers ≡ (moved m i t).timers) × (r.1 ≡ true)
unfolding reset erase_found
reset-moved m i ms from_now now pos c e found other = ground arith

-- Resetting a timer that waits and has a callback, to another period or from now, succeeds: its
-- period is the new one and its time that period after now, or after the start of its old period; it
-- stays in the set with all the others, and no other object changes, unless another timer of the set
-- has exactly the new time.
pub reset_lem :
    (m : TimerManager) (i ms : ℕ) (from_now : Bool) (now : ℕ) (c : Callback)
    → IsValid m
    → In i m.timers
    → (m.object i).cb ≡ some c
    → (ms ≢ (m.object i).ms) ⊎ (from_now ≡ true)
    → ((j : ℕ)
        → In j m.timers
        → j ≢ i
        → key m.object j ≢ (retimed (m.object i) ms from_now now).next)
    → let r = reset m i ms from_now now in
      (r.1 ≡ true) × Moved m i (retimed (m.object i) ms from_now now) r.0
reset_lem m i ms from_now now c v here e real free =
    let (pos, found) = find-In (key m.object) i i m.timers v.sorted here refl in
    let (object, timers, ok) = reset-moved m i ms from_now now pos c e found (ground arith) in
    let w = moved_lem m i (retimed (m.object i) ms from_now now) v here free in
    (ok, rw (object, timers) w)
