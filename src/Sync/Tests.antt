-- ===== src/Sync/Tests.antt =====
-- Runs of corlib/mutex.h: a scoped lock that is unlocked early, two threads at a CASLock, and two fibers at
-- a FiberSemaphore.
use corlib.Base.{◌≡◌, refl, true, false, none, some, [], ◌∷◌, List, arith}
use corlib.Scheduler.{Scheduler}
use corlib.Sync.Scoped.{unlocks, lock, unlock, scopes, scopes-Alternates}
use corlib.Sync.CasLock.{CasLock, Client, Run, start, next, step, advance}
use corlib.Sync.Exclusion.{IsFresh, Run-exclusive}
use corlib.Sync.Served.{Call, waits, notifies, try_waits, answers, promised}

-- A thread that opens one scope, and unlocks it early.
abbrev guest : Client
guest = record { script = scopes ((unlocks ∷ []) ∷ []); inside = false }

abbrev spin : CasLock
spin = record { flag = false; clients = guest ∷ guest ∷ [] }

spin-IsFresh : IsFresh spin
spin-IsFresh =
    let s = scopes-Alternates ((unlocks ∷ []) ∷ []) in
    record { clear = refl; scoped = (s, (s, tt)); outside = refl }

-- The first thread takes the lock, and the second spins.
spin-Run : Run spin (step (step spin 0 guest) 1 guest)
unfolding advance lock unlock
spin-Run = next 1 guest (next 0 guest start refl) refl

Run-exclusive_example : ((step (step spin 0 guest) 1 guest).flag ≡ true) × (guest.inside ≡ false)
unfolding advance lock unlock
Run-exclusive_example =
    Run-exclusive 0 1 (advance false guest).1 guest spin-IsFresh spin-Run refl refl
      (λ e. ground arith) refl

abbrev idle_pool : Scheduler
idle_pool = record {
  tasks = [];
  threads = [];
  thread_ids = [];
  thread_count = 0;
  active_thread_count = 0;
  idle_thread_count = 0;
  use_caller = false;
  scheduler_fiber = none;
  root_thread = none;
  stopping_flag = false;
}

-- One fiber gets the permit, two wait, and the first of these is woken.
abbrev calls : List Call
calls = waits 0 7 ∷ waits 0 8 ∷ waits 1 9 ∷ try_waits 0 6 ∷ notifies ∷ []

answers_calls :
    answers calls (promised 1 (λ _. idle_pool))
    ≡ some false ∷ some true ∷ some true ∷ some false ∷ none ∷ []
answers_calls = refl
