-- ===== src/Hook/Wake.antt =====
-- A fiber that waits in do_io of corlib/hook.cpp is woken once, whether its event or its timer comes first.
use corlib.Base.{
  ℕ, ◌+◌, ◌≡◌, refl, inl, inr, Bool, true, false, ◌||◌, arith, if◌then◌else◌, Bool-cases,
}
use corlib.Hook.Io.{Result, failure, eintr, eagain, value}
use corlib.Hook.Wait.{
  Phase, Wait, at_yield, away, begin, reply, add, trigger, is_over, call_back, recheck, FiberStep,
  replies, arms, adds, yields, resumes, rechecks, TimerStep, expires, calls_back, cancels, Step,
  fiber, timers, fires, Reach, start, next,
}

-- Whether the fiber has given up the processor, or is about to.
abbrev pub waits : Phase → ℕ
waits p = elim p [ at_yield ↦ 1 | away ↦ 1 | _ ↦ 0 ]

abbrev pub bit : Bool → ℕ
bit b = if b then 1 else 0

abbrev pub Once : Wait → Type 0
Once w = bit w.event + w.posted ≡ waits w.phase

trigger-Once : (w : Wait) → Once w → Once (trigger w)
unfolding trigger
trigger-Once w h = elim (Bool-cases w.event) [
  | inl e ↦ rw e (ground arith)
  | inr e ↦ rw e (ground arith)
]

waits-reply : (r : Result) → waits (reply r) ≡ 0
waits-reply (value n) = refl
waits-reply (failure eintr) = refl
waits-reply (failure eagain) = refl
waits-reply (failure e) = refl

Fiber-Once : {limited : Bool} {w v : Wait} → FiberStep limited w v → Once w → Once v
unfolding add recheck
Fiber-Once {w} (replies r e) h =
    let a : waits w.phase ≡ 0 = rw e refl in omega (arith, h, a, waits-reply r)
Fiber-Once {w} (arms placed e) h = let a : waits w.phase ≡ 0 = rw e refl in omega (arith, h, a)
Fiber-Once {w} (adds true e) h = let a : waits w.phase ≡ 0 = rw e refl in omega (arith, h, a)
Fiber-Once {w} (adds false e) h = let a : waits w.phase ≡ 0 = rw e refl in omega (arith, h, a)
Fiber-Once {w} (yields e) h = let a : waits w.phase ≡ 1 = rw e refl in omega (arith, h, a)
Fiber-Once {w} (resumes n e p) h = let a : waits w.phase ≡ 1 = rw e refl in omega (arith, h, a, p)
Fiber-Once {w} (rechecks e) h =
    let a : waits w.phase ≡ 0 = rw e refl in
    elim (Bool-cases w.cancelled) [
      | inl c ↦ rw c (omega (arith, h, a))
      | inr c ↦ rw c (omega (arith, h, a))
    ]

Timer-Once : {w v : Wait} → TimerStep w v → Once w → Once v
unfolding call_back
Timer-Once (expires e) h = h
Timer-Once {w} (calls_back n e) h = elim (Bool-cases (is_over w.phase || w.cancelled)) [
  | inl c ↦ rw c h
  | inr c ↦ rw c h
]
Timer-Once {w} (cancels e) h = trigger-Once (record w { cancelling = false }) h

Step-Once : {limited : Bool} {w v : Wait} → Step limited w v → Once w → Once v
Step-Once (fiber s) h = Fiber-Once s h
Step-Once (timers s) h = Timer-Once s h
Step-Once {w} fires h = trigger-Once w h

-- From the start of one call of do_io to its return, however the fiber, its timers, their callbacks and the event interleave: while
-- the fiber waits either its event is registered or it stands in the queue of the scheduler, once; and
-- while it runs, and after do_io has returned, neither is the case. So each wait of the call is ended
-- by exactly one wake-up, and the call leaves no event and no wake-up behind when it returns.
pub Reach-Once : {limited : Bool} {w : Wait} → Reach limited begin w → Once w
Reach-Once start = refl
Reach-Once (next r s) = Step-Once s (Reach-Once r)
