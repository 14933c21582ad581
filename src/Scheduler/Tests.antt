-- ===== src/Scheduler/Tests.antt =====
-- Runs of corlib/scheduler.cpp on a pool of two threads.
use corlib.Base.{total, ◌+◌, ◌≡◌, refl, inl, true, false, none, some, [], ◌∷◌}
use corlib.Callback.{user}
use corlib.Base.Outcome.{done}
use corlib.Scheduler.{ScheduleTask, Scheduler, cb_task, schedule_lock, pick, scan, stopping}
use corlib.Scheduler.Queue.{AllSet}
use corlib.Scheduler.Workers.{
  Worker, Pool, picking, running, idling, moves, post, stops, idles, idle_ends, takes, completes,
  with_worker,
}
use corlib.Scheduler.Counts.{Inv, IsStarted, Reach, start, next, Reach-Inv}
use corlib.Scheduler.Ledger.{weight, all_posts, all_ends, Reach-Ledger}
use corlib.Scheduler.Tasks.{BagStep, bags, Step-BagStep}
use corlib.Scheduler.Stop.{ends_after_stop, pick_empty}

abbrev bound : ScheduleTask
bound = cb_task (some (user 1)) (some 11)

abbrev free : ScheduleTask
free = cb_task (some (user 2)) none

abbrev pub started : Scheduler
started = record {
  tasks = [];
  threads = 11 ∷ 12 ∷ [];
  thread_ids = 11 ∷ 12 ∷ [];
  thread_count = 2;
  active_thread_count = 0;
  idle_thread_count = 0;
  use_caller = false;
  scheduler_fiber = none;
  root_thread = none;
  stopping_flag = false;
}

abbrev pool : Pool
pool = record {
  sched = started;
  workers =
      record { thread_id = 11; pc = picking; idle_term = false }
      ∷ record { thread_id = 12; pc = picking; idle_term = false }
      ∷ [];
}

pool-IsStarted : IsStarted pool
pool-IsStarted = record {
  no_tasks = refl;
  no_active = refl;
  no_idle = refl;
  at_head = ((refl, refl), ((refl, refl), tt));
}

-- The pool after a task was posted.
abbrev posted : Pool
posted = record pool { sched = (schedule_lock started free).0 }

Reach-Inv_example : Inv posted
Reach-Inv_example = Reach-Inv pool-IsStarted (next start (post free))

abbrev halted : Pool
halted = record pool { sched = record started { stopping_flag = true } }

stopping_halted : stopping halted.sched ≡ true
unfolding stopping
stopping_halted = refl

-- The first thread idles in a pool that stops.
abbrev sleeper : Worker
sleeper = record { thread_id = 11; pc = idling; idle_term = false }

abbrev asleep : Pool
asleep = record {
  sched = record started { stopping_flag = true; idle_thread_count = 1 };
  workers = sleeper ∷ [];
}

stopping_asleep : stopping asleep.sched ≡ true
unfolding stopping
stopping_asleep = refl

-- The two threads of the pool after stop(), the first in its idle fiber, and then out of it.
abbrev stopped_idle : Pool
stopped_idle = record {
  sched = record started { stopping_flag = true; idle_thread_count = 1 };
  workers = sleeper ∷ record { thread_id = 12; pc = picking; idle_term = false } ∷ [];
}

abbrev stopped_ended : Pool
stopped_ended = record {
  sched = record started { stopping_flag = true };
  workers =
      record { thread_id = 11; pc = picking; idle_term = true }
      ∷ record { thread_id = 12; pc = picking; idle_term = false }
      ∷ [];
}

stopped_ended-Reach : Reach pool stopped_ended
stopped_ended-Reach =
    next
      (next (next start stops) (
        moves 0 refl
          (idles refl (pick_empty (record started { stopping_flag = true }) 11 refl) refl)))
      (moves 0 {w = sleeper} refl (idle_ends refl stopping_asleep))

ends_after_stop_example : stopped_ended.sched.stopping_flag ≡ true
ends_after_stop_example =
    ends_after_stop 0 (record { thread_id = 11; pc = picking; idle_term = true }) pool-IsStarted
      stopped_ended-Reach refl (inl refl)

-- The second thread takes the task that was posted, and its fiber comes back.
abbrev busy : Scheduler
busy = record started { active_thread_count = 1 }

pick_posted : pick posted.sched 12 ≡ done (busy, some free, false)
unfolding pick scan schedule_lock
pick_posted = refl

abbrev second : Worker
second = record { thread_id = 12; pc = picking; idle_term = false }

abbrev working : Pool
working = with_worker posted busy 1 (record second { pc = running free })

posted-AllSet : AllSet posted.sched.tasks
unfolding schedule_lock
posted-AllSet = (refl, tt)

Step-BagStep_example : BagStep (bags posted) (bags working)
Step-BagStep_example =
    Step-BagStep {p = posted} posted-AllSet (moves 1 {w = second} refl (takes refl pick_posted))

abbrev worked : Pool
worked = with_worker working started 1 second

worked-Reach : Reach pool worked
worked-Reach =
    next (next (next start (post free)) (moves 1 refl (takes refl pick_posted)))
      (moves 1 {w = record second { pc = running free }} refl (completes refl))

Reach-Ledger_example :
    total (λ _. 1) (all_posts worked-Reach)
    ≡ total (λ _. 1) (all_ends worked-Reach) + total (weight (λ _. 1)) worked.workers + 0
Reach-Ledger_example = Reach-Ledger (λ _. 1) pool-IsStarted worked-Reach
