-- ===== src/Sync/Served.antt =====
-- Runs of class FiberSemaphore of corlib/mutex.h against its promise (Sync/Fair): any calls, by fibers of
-- any schedulers, one after the other, as the spin lock orders them.
use corlib.Base.{ℕ, suc, ◌≡◌, Bool, not, Option, none, some, List, [], ◌∷◌, if◌then◌else◌}
use corlib.Base.Outcome.{Outcome, done, ◌>>=◌}
use corlib.Scheduler.{Scheduler}
use corlib.Sync.Semaphore.{FiberSemaphore, Waiter, try_wait, wait, notify, reset}
use corlib.Sync.Fair.{Promise, Refines, has_free, request, give, withdraw, wake_next}

-- A call, with the scheduler and the fiber that make it: tryWait() and wait() assert that there is one.
pub data Call : Type 0 where
  try_waits waits : ℕ → ℕ → Call
  notifies resets : Call

-- The semaphore and the schedulers to which it posts.
pub record State : Type 0 where
  pub semaphore : FiberSemaphore
  pub schedulers : ℕ → Scheduler

-- A call with its answer: what tryWait returns, whether wait() yields, nothing for notify().
abbrev pub perform : Call → State → Outcome (State × Option Bool)
perform (try_waits this fiber) s = do
  r ← try_wait s.semaphore (some this)
  done (record s { semaphore = r.0 }, some r.1)
perform (waits this fiber) s = do
  r ← wait s.semaphore (some this) fiber
  done (record s { semaphore = r.0 }, some r.1)
perform notifies s =
    let r = notify s.semaphore s.schedulers in
    done (record { semaphore = r.0; schedulers = r.1 }, none)
perform resets s = done (record s { semaphore = reset s.semaphore }, none)

abbrev pub perform_all : List Call → State → Outcome (State × List (Option Bool))
perform_all [] s = done (s, [])
perform_all (c ∷ cs) s = do r ← perform c s; rest ← perform_all cs r.0; done (rest.0, r.1 ∷ rest.1)

abbrev waiter : ℕ → ℕ → Waiter
waiter this fiber = record { scheduler = this; fiber = fiber }

-- The same calls on the promise.
pub record Promised : Type 0 where
  pub promise : Promise
  pub schedulers : ℕ → Scheduler

abbrev pub promised : ℕ → (ℕ → Scheduler) → Promised
promised n schedulers = record {
  promise = record { permits = n; requests = [] };
  schedulers = schedulers;
}

abbrev pub answer : Call → Promise → Option Bool
answer (try_waits this fiber) p = some (has_free p)
answer (waits this fiber) p = some (not (has_free p))
answer notifies p = none
answer resets p = none

abbrev pub after : Call → Promised → Promised
after (try_waits this fiber) q = record q {
  promise = if has_free q.promise then request q.promise (waiter this fiber) else q.promise;
}
after (waits this fiber) q = record q { promise = request q.promise (waiter this fiber) }
after notifies q = record {
  promise = give q.promise;
  schedulers = wake_next q.promise q.schedulers;
}
after resets q = record q { promise = withdraw q.promise }

abbrev pub answers : List Call → Promised → List (Option Bool)
answers [] q = []
answers (c ∷ cs) q = answer c q.promise ∷ answers cs (after c q)

abbrev pub after_all : List Call → Promised → Promised
after_all [] q = q
after_all (c ∷ cs) q = after_all cs (after c q)

-- The permits that the calls give.
abbrev pub gifts : List Call → ℕ
gifts [] = 0
gifts (notifies ∷ cs) = suc (gifts cs)
gifts (resets ∷ cs) = gifts cs
gifts (try_waits this fiber ∷ cs) = gifts cs
gifts (waits this fiber ∷ cs) = gifts cs

-- The semaphore keeps its promise so far, and has posted to the schedulers what the promise says.
pub record Keeps (s : State) (q : Promised) : Type 0 where
  pub refines : Refines s.semaphore q.promise
  pub posts : s.schedulers ≡ q.schedulers
