-- ===== src/Timer/Expire.antt =====
-- TimerManager::listExpiredCb of corlib/timer.cpp: which callbacks it returns, and when its loop ends.
pub mod Rollover
pub mod Lost
use mathlib.Core.List.{append-nil, append_assoc}
use corlib.Base.{
  ℕ, zero, suc, ◌+◌, ◌*◌, ◌<◌, ◌≤◌, ◌≡◌, refl, sym, ap, subst, ◌∙◌, ◌≢◌, ◌⊎◌, inl, inr, Bool, true,
  false, Option, none, some, List, [], ◌∷◌, ◌++◌, map, ltb, leb, leb→le, ltb→lt, if◌then◌else◌, All,
  All-In, All-map, All-of_In, In, length, arith, Bool-cases, ◌||◌, ==_iff, ◌==◌,
}
use corlib.Callback.{Callback}
use corlib.Timer.{
  Timer, TimerManager, key, update, milliseconds, expire_one, expire_loop, list_expired_cb,
  detect_clock_rollover, expired,
}
use corlib.Timer.Set.{insert, Sorted, insert-All}
use corlib.Timer.Set.Members.{IsFree, insert-cases}
use corlib.Timer.Order.{IsValid, expire_one-IsValid, head-IsFree, with_heap}

-- The timers at the front of the set whose time has come.
abbrev pub due : (ℕ → ℕ) → ℕ → List ℕ → List ℕ
due k now [] = []
due k now (i ∷ ts) = let rest = due k now ts in if leb (k i) now then i ∷ rest else []

-- Every repeating timer has a period.
abbrev pub Periodic : (ℕ → Timer) → List ℕ → Type 0
Periodic object = All (λ i. (object i).recurring ≡ true → 0 < (object i).ms)

abbrev pub callbacks : (ℕ → Timer) → List ℕ → List (Option Callback)
callbacks object = map (λ i. (object i).cb)

due-insert :
    (k : ℕ → ℕ) (now x : ℕ) (ts : List ℕ) → now < k x → due k now (insert k x ts) ≡ due k now ts
unfolding insert
due-insert k now x [] h = ground arith
due-insert k now x (y ∷ ys) h = ground (arith, due-insert k now x ys h)

due-ext :
    (k k' : ℕ → ℕ) (now : ℕ) (ts : List ℕ)
    → ((y : ℕ) → In y ts → k y ≡ k' y)
    → due k now ts ≡ due k' now ts
due-ext k k' now [] h = refl
due-ext k k' now (y ∷ ys) h = rw (h y (inl refl), due-ext k k' now ys (λ z m. h z (inr m)))

due-In : (k : ℕ → ℕ) (now y : ℕ) (ts : List ℕ) → In y (due k now ts) → In y ts
due-In k now y [] m = m
due-In k now y (x ∷ xs) m = ground (arith, due-In k now y xs)

pub length-due : (k : ℕ → ℕ) (now : ℕ) (ts : List ℕ) → length (due k now ts) ≤ length ts
length-due k now [] = omega arith
length-due k now (x ∷ xs) = ground (arith, length-due k now xs)

pub callbacks-ext :
    (object object' : ℕ → Timer) (ts : List ℕ)
    → ((y : ℕ) → In y ts → object y ≡ object' y)
    → callbacks object ts ≡ callbacks object' ts
callbacks-ext object object' [] h = refl
callbacks-ext object object' (y ∷ ys) h =
    rw (h y (inl refl), callbacks-ext object object' ys (λ z m. h z (inr m)))

not-due :
    (k : ℕ → ℕ) (now i : ℕ) (ts : List ℕ)
    → Sorted k (i ∷ ts)
    → leb (k i) now ≡ false
    → All (λ j. now < k j) (i ∷ ts)
not-due k now i ts h e = (ground arith, All-map _ _ ts (λ j l. later j l) h.0)
  where
    later : (j : ℕ) → k i < k j → now < k j
    later j l = ground arith

update_other : (object : ℕ → Timer) (i y : ℕ) (t : Timer) → y ≢ i → update object i t y ≡ object y
update_other object i y t ne = grind arith

module _ (now : ℕ) (object : ℕ → Timer) (i : ℕ) (ts : List ℕ)
    (h : Sorted (key object) (i ∷ ts)) where
  not_first : (y : ℕ) → In y ts → y ≢ i
  not_first y m e = All-In _ ts (head-IsFree _ i ts h) m (ap (key object) e)

  -- A round leaves the other timers alone.
  pub other : (y : ℕ) → In y ts → object y ≡ (expire_one now object i ts).0 y
  unfolding expire_one
  other y m = elim (Bool-cases (object i).recurring) [
    | inl e ↦ rw (e, expire_one) (sym (update_other object i y _ (not_first y m)))
    | inr e ↦ rw (e, expire_one) (sym (update_other object i y _ (not_first y m)))
  ]

  elsewhere : (t : Timer) (y : ℕ) → In y ts → key object y ≡ key (update object i t) y
  elsewhere t y m = ap (λ (u : Timer). u.next) (sym (update_other object i y t (not_first y m)))

  due-again :
      (t : Timer)
      → now < t.next
      → due (key (update object i t)) now (insert (key (update object i t)) i ts)
        ≡ due (key object) now ts
  due-again t lt =
      due-insert (key (update object i t)) now i ts (grind arith)
      ∙ sym (due-ext _ _ now ts (elsewhere t))

  due-expire_one :
      ((object i).recurring ≡ true → 0 < (object i).ms)
      → (let r = expire_one now object i ts in due (key r.0) now r.1) ≡ due (key object) now ts
  unfolding expire_one
  due-expire_one pos = elim (Bool-cases (object i).recurring) [
    | inl e ↦ let p : 0 < (object i).ms = pos e in rw (e, expire_one) (due-again _ (omega arith))
    | inr e ↦ rw (e, expire_one) (sym (due-ext _ _ now ts (elsewhere _)))
  ]

  Periodic-update :
      (t : Timer)
      → t.recurring ≡ (object i).recurring
      → t.ms ≡ (object i).ms
      → (xs : List ℕ) → Periodic object xs
      → Periodic (update object i t) xs
  Periodic-update t p q xs v = All-map _ _ xs (λ j l. same j l) v
    where
      same :
          (j : ℕ)
          → ((object j).recurring ≡ true → 0 < (object j).ms)
          → (update object i t j).recurring ≡ true
          → 0 < (update object i t j).ms
      same j l = ground (arith)

  Periodic-expire_one :
      Periodic object (i ∷ ts) → (let r = expire_one now object i ts in Periodic r.0 r.1)
  unfolding expire_one
  Periodic-expire_one v = elim (Bool-cases (object i).recurring) [
    | inl e ↦
        let q = Periodic-update _ (sym e) refl (i ∷ ts) v in
        rw (e, expire_one) (insert-All _ _ i ts q.0 q.1)
    | inr e ↦ rw (e, expire_one) (Periodic-update _ (sym e) refl ts v.1)
  ]

  -- The callbacks of this round and of those still to come.
  callbacks-expire_one :
      (cbs : List (Option Callback))
      → ((object i).recurring ≡ true → 0 < (object i).ms)
      → (let r = expire_one now object i ts in
          (cbs ++ (object i).cb ∷ []) ++ callbacks r.0 (due (key r.0) now r.1)
          ≡ cbs ++ (object i).cb ∷ callbacks object (due (key object) now ts))
  callbacks-expire_one cbs pos =
      append_assoc cbs _ _
      ∙ ap (λ xs. cbs ++ (object i).cb ∷ xs)
          (ap (callbacks (expire_one now object i ts).0) (due-expire_one pos)
            ∙ sym (callbacks-ext object _ _ (λ y m. other y (due-In _ now y ts m))))

-- One round, and the end, of the loop.
pub expire_loop-due :
    (fuel now : ℕ) (rollover : Bool) (object : ℕ → Timer) (i : ℕ) (ts : List ℕ)
    (cbs : List (Option Callback))
    → (rollover || leb (key object i) now) ≡ true
    → expire_loop (suc fuel) now rollover object (i ∷ ts) cbs ≡ (
        let r = expire_one now object i ts in
        expire_loop fuel now rollover r.0 r.1 (cbs ++ (object i).cb ∷ []))
unfolding expire_loop
expire_loop-due fuel now rollover object i ts cbs e = rw (e, expire_loop)

due-cons :
    (k : ℕ → ℕ) (now i : ℕ) (ts : List ℕ)
    → leb (k i) now ≡ true
    → due k now (i ∷ ts) ≡ i ∷ due k now ts
due-cons k now i ts e = rw e

-- The loop without a rollover returns the callbacks of the timers whose time has come, in the order
-- of their times, and leaves only timers whose time has not.
pub expire_loop_lem :
    (fuel now : ℕ) (m : TimerManager) (ts : List ℕ) (cbs : List (Option Callback))
    → IsValid (record m { timers = ts })
    → Periodic m.object ts
    → length (due (key m.object) now ts) < fuel
    → (object : ℕ → Timer) × (ts' : List ℕ) × (expire_loop fuel now false m.object ts cbs
        ≡ some (object, ts', cbs ++ callbacks m.object (due (key m.object) now ts)))
      × All (λ i. now < key object i) ts'
unfolding expire_loop
expire_loop_lem zero now m ts cbs v p f = elim f [ ]
expire_loop_lem (suc fuel) now m [] cbs v p f = (m.object, [], rw append-nil refl, tt)
expire_loop_lem (suc fuel) now m (i ∷ ts) cbs v p f = elim (Bool-cases (leb (key m.object i) now)) [
  | inl e ↦
      let r = expire_one now m.object i ts in
      let few : length (due (key r.0) now r.1) < fuel =
        rw (due-expire_one now m.object i ts v.sorted p.0) (ground arith) in
      let (object, ts', q, after) =
        expire_loop_lem fuel now (with_heap m r.0 r.1) r.1 (cbs ++ (m.object i).cb ∷ [])
          (expire_one-IsValid m now i ts v) (Periodic-expire_one now m.object i ts v.sorted p)
          few in
      (
        object,
        ts',
        expire_loop-due fuel now false m.object i ts cbs e
            ∙ q
            ∙ ap (λ out. some (object, ts', out))
                (callbacks-expire_one now m.object i ts v.sorted cbs p.0
                  ∙ ap (λ is. cbs ++ callbacks m.object is) (sym (due-cons _ now i ts e))),
        after,
      )
  | inr e ↦
      (m.object, i ∷ ts, rw (e, expire_loop) (rw append-nil refl), not-due _ now i ts v.sorted e)
]

-- Where the clock has not fallen by more than an hour and every repeating timer has a period, fuel
-- for one round more than the set has timers is enough: listExpiredCb appends exactly the callbacks
-- of the timers whose time has come, in the order of their times, and every timer that is left in
-- the set lies in the future.
pub list_expired_cb_lem :
    (fuel : ℕ) (m : TimerManager) (now later : ℕ) (cbs : List (Option Callback))
    → IsValid m
    → Periodic m.object m.timers
    → m.previous_time ≤ later + milliseconds (60 * 60 * 1000)
    → length m.timers < fuel
    → (m' : TimerManager) × (list_expired_cb fuel m now later cbs
        ≡ some (m', cbs ++ callbacks m.object (due (key m.object) now m.timers)))
      × All (λ i. now < key m'.object i) m'.timers
unfolding list_expired_cb expired
list_expired_cb_lem fuel m now later cbs v p clock f =
    let (object, ts, e, after) =
      expire_loop_lem fuel now m m.timers cbs
        (record { sorted = v.sorted; live = v.live; span = v.span }) p
        (omega (arith, length-due (key m.object) now m.timers)) in
    (
      record m { object = object; timers = ts; previous_time = later },
      rw (steady, e, expired) refl,
      after,
    )
  where
    steady : ltb (later + milliseconds (60 * 60 * 1000)) m.previous_time ≡ false
    steady = ground arith
