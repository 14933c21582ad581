-- ===== src/Hook/Timeout.antt =====
-- The timeout of do_io of corlib/hook.cpp: when it ends a wait, and when it is lost.
use corlib.Base.{ℕ, ◌+◌, ◌<◌, ◌≡◌, refl, Bool, true, false, ◌||◌, arith, if◌then◌else◌}
use corlib.Hook.Io.{failure, etimedout}
use corlib.Hook.Wait.{
  Phase, Wait, at_event, at_yield, away, returned, begin, is_over, call_back, FiberStep, replies,
  arms, adds, yields, resumes, rechecks, TimerStep, expires, calls_back, cancels, Reach,
}

-- Steps of the fiber and of its timers alone: nothing is reported for the descriptor.
pub data Quiet (limited : Bool) (w : Wait) : Wait → Type 0 where
  still : Quiet limited w w
  then_fiber : {v u : Wait} → Quiet limited w v → FiberStep limited v u → Quiet limited w u
  then_timer : {v u : Wait} → Quiet limited w v → TimerStep v u → Quiet limited w u

-- The flag is set from an earlier attempt, and its callback is through with cancelEvent.
pub record IsDeaf (w : Wait) : Type 0 where
  pub phase : w.phase ≡ away
  pub event : w.event ≡ true
  pub posted : w.posted ≡ 0
  pub cancelled : w.cancelled ≡ true
  pub through : w.cancelling ≡ false

Fiber-IsDeaf : {limited : Bool} {w v : Wait} → IsDeaf w → FiberStep limited w v → IsDeaf v
Fiber-IsDeaf d (replies r e) = let p = d.phase in absurd (cc)
Fiber-IsDeaf d (arms placed e) = let p = d.phase in absurd (cc)
Fiber-IsDeaf d (adds added e) = let p = d.phase in absurd (cc)
Fiber-IsDeaf d (yields e) = let p = d.phase in absurd (cc)
Fiber-IsDeaf d (resumes n e q) = let p = d.posted in absurd (omega (arith, p, q))
Fiber-IsDeaf d (rechecks e) = let p = d.phase in absurd (cc)

Timer-IsDeaf : {w v : Wait} → IsDeaf w → TimerStep w v → IsDeaf v
unfolding call_back
Timer-IsDeaf d (expires e) = record {
  phase = d.phase;
  event = d.event;
  posted = d.posted;
  cancelled = d.cancelled;
  through = d.through;
}
Timer-IsDeaf {w} d (calls_back n e) =
    let ignored : (is_over w.phase || w.cancelled) ≡ true = rw (d.phase, d.cancelled) refl in
    rw (ignored, call_back)
      (record {
        phase = d.phase;
        event = d.event;
        posted = d.posted;
        cancelled = d.cancelled;
        through = d.through;
      })
Timer-IsDeaf d (cancels e) = let p = d.through in absurd (cc)

-- When a callback of an earlier attempt sets `tinfo->cancelled` while the fiber is not waiting, and the
-- fiber then waits again, the timeout is lost: whatever timers expire and whatever their callbacks do, as
-- long as nothing happens to the descriptor the fiber stays away and is not scheduled.
pub Quiet-IsDeaf :
    {limited : Bool} {w v : Wait}
    → Reach limited begin w
    → IsDeaf w
    → Quiet limited w v
    → (v.phase ≡ away) × (v.posted ≡ 0)
Quiet-IsDeaf r d q = let k = go d q in (k.phase, k.posted)
  where
    go : {limited : Bool} {w v : Wait} → IsDeaf w → Quiet limited w v → IsDeaf v
    go d still = d
    go d (then_fiber q s) = Fiber-IsDeaf (go d q) s
    go d (then_timer q s) = Timer-IsDeaf (go d q) s

-- Behind addConditionTimer and up to the end of the wait.
abbrev guarded : Phase → Bool
guarded p = elim p [ at_event ↦ true | at_yield ↦ true | away ↦ true | _ ↦ false ]

-- Where a call has a timeout, while it waits its timer is there or a callback is in the queue, unless the
-- flag is set or the timer was dropped.
abbrev Armed : Wait → Type 0
Armed w =
    guarded w.phase ≡ true
    → w.cancelled ≡ false
    → w.dropped ≡ false
    → 0 < (if w.timer then 1 else 0) + w.callbacks

abbrev waiting : ℕ → Bool → ℕ → Bool → Wait
waiting posted timer callbacks cancelling = record {
  phase = away;
  event = true;
  posted = posted;
  timer = timer;
  dropped = false;
  callbacks = callbacks;
  cancelled = false;
  cancelling = cancelling;
}

abbrev Ends : Wait → Type 0
Ends w = (v : Wait) × Quiet true w v × (v.phase ≡ returned (failure etimedout))
