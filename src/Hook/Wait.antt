-- ===== src/Hook/Wait.antt =====
-- One call of do_io of corlib/hook.cpp among the threads: the fiber that calls, its event, its timer and
-- the tasks that run the timer's callback, as interleaved steps. What addEvent, cancelEvent and the
-- handling of reported events do to the event and to the fiber is what IoManager/Calls says of them. The
-- steps end with the call: a callback that has not called cancelEvent yet when do_io returns cancels
-- whatever event of the descriptor the fiber registers next, and that next call is not followed here.
use corlib.Base.{ℕ, suc, ◌+◌, ◌≡◌, Bool, true, false, ◌||◌, ◌&&◌, not, if◌then◌else◌}
use corlib.Hook.Io.{Result, value, failure, eintr, eagain, etimedout, as_left}

-- Where the fiber stands: before the original call, before the timer is added, before addEvent, before
-- yield, away, behind yield, or out of do_io.
pub data Phase : Type 0 where
  at_call at_timer at_event at_yield away behind : Phase
  returned : Result → Phase

-- Where the fiber stands; whether its event is registered, for this fiber; how often the fiber is in the
-- queue of the scheduler; whether `timer` is in the time heap; whether the heap has dropped it, since it
-- holds a timer of the same time; how many callbacks of such timers are in
-- the queue; whether `tinfo->cancelled` is ETIMEDOUT; and whether a callback has set that and has
-- not called cancelEvent yet.
pub record Wait : Type 0 where
  pub phase : Phase
  pub event : Bool
  pub posted : ℕ
  pub timer : Bool
  pub dropped : Bool
  pub callbacks : ℕ
  pub cancelled : Bool
  pub cancelling : Bool

-- At `retry` for the first time.
abbrev pub begin : Wait
begin = record {
  phase = at_call;
  event = false;
  posted = 0;
  timer = false;
  dropped = false;
  callbacks = 0;
  cancelled = false;
  cancelling = false;
}

-- What follows the answer of the original call.
abbrev pub reply : Result → Phase
reply (value n) = returned (value n)
reply (failure eintr) = at_call
reply (failure eagain) = at_timer
reply (failure e) = returned (failure e)

-- addConditionTimer, where there is a timeout. The set takes the timer or, where another has its time,
-- drops it.
abbrev pub arm : Bool → Bool → Wait → Wait
arm limited placed w = record w {
  phase = at_event;
  timer = limited && placed;
  dropped = limited && not placed;
}

-- addEvent, whose answer is given, and what follows where it fails.
unfoldable pub add : Bool → Wait → Wait
add added w =
    if added
    then record w { phase = at_yield; event = true }
    else record w { phase = returned (failure as_left); timer = false }

-- triggerEvent on the event: it is registered no longer, and the fiber is scheduled.
unfoldable pub trigger : Wait → Wait
trigger w = if w.event then record w { event = false; posted = w.posted + 1 } else w

abbrev pub is_over : Phase → Bool
is_over p = elim p [ returned r ↦ true | _ ↦ false ]

-- The timer's callback up to cancelEvent: `winfo` holds nothing once do_io has returned.
unfoldable pub call_back : Wait → ℕ → Wait
call_back w n =
    if is_over w.phase || w.cancelled
    then record w { callbacks = n }
    else record w { callbacks = n; cancelled = true; cancelling = true }

-- Behind yield: the timer is cancelled, and the flag decides.
unfoldable pub recheck : Wait → Wait
recheck w = record w {
  phase = if w.cancelled then returned (failure etimedout) else at_call;
  timer = false;
}

-- The steps of the fiber.
pub data FiberStep (limited : Bool) (w : Wait) : Wait → Type 0 where
  replies : (r : Result) → w.phase ≡ at_call → FiberStep limited w (record w { phase = reply r })
  arms : (placed : Bool) → w.phase ≡ at_timer → FiberStep limited w (arm limited placed w)
  adds : (added : Bool) → w.phase ≡ at_event → FiberStep limited w (add added w)
  yields : w.phase ≡ at_yield → FiberStep limited w (record w { phase = away })
  resumes :
      (n : ℕ)
      → w.phase ≡ away
      → w.posted ≡ suc n
      → FiberStep limited w (record w { phase = behind; posted = n })
  rechecks : w.phase ≡ behind → FiberStep limited w (recheck w)

-- The steps of timers and of their callbacks.
pub data TimerStep (w : Wait) : Wait → Type 0 where
  expires : w.timer ≡ true → TimerStep w (record w { timer = false; callbacks = w.callbacks + 1 })
  calls_back : (n : ℕ) → w.callbacks ≡ suc n → TimerStep w (call_back w n)
  cancels : w.cancelling ≡ true → TimerStep w (trigger (record w { cancelling = false }))

-- All steps: also of those who report the event or cancel it.
pub data Step (limited : Bool) (w : Wait) : Wait → Type 0 where
  fiber : {v : Wait} → FiberStep limited w v → Step limited w v
  timers : {v : Wait} → TimerStep w v → Step limited w v
  fires : Step limited w (trigger w)

pub data Reach (limited : Bool) (w : Wait) : Wait → Type 0 where
  start : Reach limited w w
  next : {v u : Wait} → Reach limited w v → Step limited v u → Reach limited w u
