-- ===== src/Timer/Expire/Rollover.antt =====
-- The loop of listExpiredCb (corlib/timer.cpp) after the clock has fallen, and where it does not end.
use mathlib.Core.List.{append-nil, append_assoc}
use corlib.Base.{
  ℕ, zero, suc, ◌+◌, ◌<◌, ◌≤◌, ◌≡◌, refl, sym, ap, ◌∙◌, ◌⊎◌, inl, inr, Bool, true, false, Option,
  none, some, List, [], ◌∷◌, ◌++◌, leb, All, All-In, All-map, All-of_In, In, length, arith,
  Bool-cases, ◌||◌, ◌==◌,
}
use corlib.Callback.{Callback}
use corlib.Timer.{Timer, key, update, milliseconds, expire_one, expire_loop}
use corlib.Timer.Set.{insert, Sorted, Sorted-ext, insert-All}
use corlib.Timer.Expire.{callbacks, other, expire_loop-due, callbacks-ext}

-- A timer that each round puts back with its time already come: it repeats, and either the loop does
-- not look at times or its period is zero.
abbrev pub Stuck : ℕ → Bool → Timer → Type 0
Stuck now rollover t = (t.recurring ≡ true) × ((rollover ≡ true) ⊎ ((t.ms ≡ 0) × (t.next ≤ now)))

Stuck-due :
    (now : ℕ) (rollover : Bool) (t : Timer)
    → Stuck now rollover t
    → (rollover || leb t.next now) ≡ true
Stuck-due now rollover t s = ground arith

Stuck-again :
    (now : ℕ) (rollover : Bool) (t : Timer)
    → Stuck now rollover t
    → Stuck now rollover (record t { next = now + milliseconds t.ms })
Stuck-again now rollover t (r, inl e) = (r, inl e)
Stuck-again now rollover t (r, inr z) = (r, inr (z.0, omega (arith, z.0)))

Stuck-update :
    (now : ℕ) (rollover : Bool) (object : ℕ → Timer) (i : ℕ) (t : Timer)
    → Stuck now rollover t
    → (j : ℕ) → Stuck now rollover (object j)
    → Stuck now rollover (update object i t j)
Stuck-update now rollover object i t s j r = elim (Bool-cases (i == j)) [
  | inl e ↦ rw e s
  | inr e ↦ rw e r
]

insert_pos : (k : ℕ → ℕ) (x : ℕ) (ts : List ℕ) → 0 < length (insert k x ts)
unfolding insert
insert_pos k x [] = omega arith
insert_pos k x (y ∷ ys) = ground arith

Stuck-expire_one :
    (now : ℕ) (rollover : Bool) (object : ℕ → Timer) (i : ℕ) (ts : List ℕ)
    → All (λ j. Stuck now rollover (object j)) (i ∷ ts)
    → let r = expire_one now object i ts in
      All (λ j. Stuck now rollover (r.0 j)) r.1 × (0 < length r.1)
unfolding expire_one
Stuck-expire_one now rollover object i ts s =
    rw (s.0.0, expire_one) (insert-All _ _ i ts all.0 all.1, insert_pos _ i ts)
  where
    again : Timer
    again = record {
      recurring = true;
      ms = (object i).ms;
      next = now + milliseconds (object i).ms;
      cb = (object i).cb;
    }

    again-Stuck : Stuck now rollover again
    again-Stuck = (refl, (Stuck-again now rollover (object i) s.0).1)

    all : All (λ j. Stuck now rollover (update object i again j)) (i ∷ ts)
    all = All-map _ _ (i ∷ ts) (λ j l. Stuck-update now rollover object i again again-Stuck j l) s

-- The loop of listExpiredCb never ends when the set holds a timer and every timer of the set repeats
-- and either the clock has fallen by more than an hour or the timer's period is zero and its time has
-- come: no amount of fuel gives a result.
pub expire_loop_diverges :
    (fuel now : ℕ) (rollover : Bool) (object : ℕ → Timer) (ts : List ℕ)
    (cbs : List (Option Callback))
    → All (λ j. Stuck now rollover (object j)) ts
    → 0 < length ts
    → expire_loop fuel now rollover object ts cbs ≡ none
unfolding expire_loop
expire_loop_diverges zero now rollover object ts cbs s p = refl
expire_loop_diverges (suc fuel) now rollover object [] cbs s p = absurd (omega arith)
expire_loop_diverges (suc fuel) now rollover object (i ∷ ts) cbs s p =
    let r = expire_one now object i ts in
    let (s', p') = Stuck-expire_one now rollover object i ts s in
    expire_loop-due fuel now rollover object i ts cbs (Stuck-due now rollover (object i) s.0)
    ∙ expire_loop_diverges fuel now rollover r.0 r.1 (cbs ++ (object i).cb ∷ []) s' p'

abbrev pub OneShot : (ℕ → Timer) → List ℕ → Type 0
OneShot object = All (λ i. (object i).recurring ≡ false)

expire_one-OneShot :
    (now : ℕ) (object : ℕ → Timer) (i : ℕ) (ts : List ℕ)
    → (object i).recurring ≡ false
    → (expire_one now object i ts).1 ≡ ts
unfolding expire_one
expire_one-OneShot now object i ts e = rw (e, expire_one)

-- After the clock has fallen by more than an hour, a set without repeating timers is emptied: the
-- loop returns the callbacks of all its timers, in the order of their times, whether or not their
-- times have come.
pub expire_loop_rollover :
    (fuel now : ℕ) (object : ℕ → Timer) (ts : List ℕ) (cbs : List (Option Callback))
    → Sorted (key object) ts
    → OneShot object ts
    → length ts < fuel
    → (object' : ℕ → Timer) × (expire_loop fuel now true object ts cbs
        ≡ some (object', [], cbs ++ callbacks object ts))
unfolding expire_loop
expire_loop_rollover zero now object ts cbs h o f = elim f [ ]
expire_loop_rollover (suc fuel) now object [] cbs h o f = (object, rw append-nil refl)
expire_loop_rollover (suc fuel) now object (i ∷ ts) cbs h o f =
    let (object', e) =
      expire_loop_rollover fuel now after ts (cbs ++ (object i).cb ∷ []) sorted ones
        (omega arith) in
    (
      object',
      expire_loop-due fuel now true object i ts cbs refl
          ∙ ap (λ xs. expire_loop fuel now true after xs (cbs ++ (object i).cb ∷ []))
              (expire_one-OneShot now object i ts o.0)
          ∙ e
          ∙ ap (λ out. some (object', [], out))
              (append_assoc cbs _ _
                ∙ ap (λ xs. cbs ++ (object i).cb ∷ xs) (sym (callbacks-ext object after ts same))),
    )
  where
    after : ℕ → Timer
    after = (expire_one now object i ts).0

    same : (y : ℕ) → In y ts → object y ≡ after y
    same = other now object i ts h

    sorted : Sorted (key after) ts
    sorted = Sorted-ext _ _ ts (λ y m. ap (λ (t : Timer). t.next) (same y m)) h.1

    ones : OneShot after ts
    ones =
        All-of_In _ ts (λ y m. ap (λ (t : Timer). t.recurring) (sym (same y m)) ∙ All-In _ ts o.1 m)
