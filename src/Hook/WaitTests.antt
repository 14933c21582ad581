-- ===== src/Hook/WaitTests.antt =====
-- Runs of do_io of corlib/hook.cpp with a timeout: a first wait that its event ends just after its timer has
-- expired, and a second one.
use corlib.Base.{◌≡◌, refl, true, false}
use corlib.Hook.Io.{failure, eagain}
use corlib.Hook.Wait.{
  Wait, away, begin, add, trigger, call_back, recheck, replies, arms, adds, yields, resumes,
  rechecks, expires, calls_back, cancels, fiber, timers, fires, Reach, start, next,
}
use corlib.Hook.Wake.{Once, Reach-Once}
use corlib.Hook.Timeout.{still, then_timer, IsDeaf, Quiet-IsDeaf}

abbrev first : Wait
first = record begin { phase = away; event = true; timer = true }

first-Reach : Reach true begin first
unfolding add
first-Reach =
    next
      (next (next (next start (fiber (replies (failure eagain) refl))) (fiber (arms true refl)))
        (fiber (adds true refl)))
      (fiber (yields refl))

Reach-Once_example : Once first
Reach-Once_example = Reach-Once first-Reach

-- The timer has expired, the event has come, and the fiber is back; the callback is still in the queue.
abbrev retry : Wait
retry = record begin { callbacks = 1 }

retry-Reach : Reach true begin retry
unfolding trigger recheck
retry-Reach =
    next
      (next (next (next first-Reach (timers (expires refl))) fires) (fiber (resumes 0 refl refl)))
      (fiber (rechecks refl))

-- The second wait, behind that callback.
abbrev second : Wait
second = record first { cancelled = true }

second-Reach : Reach true begin second
unfolding add call_back trigger
second-Reach =
    next
      (next
        (next
          (next (next (next retry-Reach (timers (calls_back 0 refl))) (timers (cancels refl)))
            (fiber (replies (failure eagain) refl)))
          (fiber (arms true refl)))
        (fiber (adds true refl)))
      (fiber (yields refl))

second-IsDeaf : IsDeaf second
second-IsDeaf = record {
  phase = refl;
  event = refl;
  posted = refl;
  cancelled = refl;
  through = refl;
}

-- Its own timer expires, and nothing wakes the fiber.
abbrev expired : Wait
expired = record second { timer = false; callbacks = 1 }

Quiet-IsDeaf_example : (expired.phase ≡ away) × (expired.posted ≡ 0)
Quiet-IsDeaf_example = Quiet-IsDeaf second-Reach second-IsDeaf (then_timer still (expires refl))
