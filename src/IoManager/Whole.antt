-- ===== src/IoManager/Whole.antt =====
-- A whole round of IOManager::idle of corlib/ioscheduler.cpp: the timers, the reported events and the tasks
-- that both make.
use corlib.Base.{
  ℕ, suc, ◌+◌, ◌*◌, ◌≤◌, ◌<◌, ◌≡◌, refl, subst, WhenSome, inl, inr, Bool, true, false, some, List,
  [], ◌∷◌, ◌++◌, All, arith, length, Bool-cases,
}
use corlib.Base.Outcome.{done}
use corlib.Timer.{TimerManager, key, milliseconds, get_next_timer, list_expired_cb}
use corlib.Timer.Order
use corlib.Timer.Order.{get_next_timer-IsValid, list_expired_cb-IsValid}
use corlib.Timer.Expire.{due, callbacks, Periodic, list_expired_cb_lem}
use corlib.IoManager.Mask.{Epoll}
use corlib.IoManager.{stopping, wait_time, schedule_all}
use corlib.IoManager.Invariant.{IsValid}
use corlib.IoManager.Idle.{tasks_of, schedule_all_lem}
use corlib.IoManager.Round.{Report, Clock, Idler, await_epoll, finish_round, round}
use corlib.IoManager.Reports.{Reported, AllHandled, handle_all_lem}

-- The manager after getNextTimer.
abbrev asked : TimerManager → TimerManager
asked m = record m { tickled = false }

asked-IsValid : (m : TimerManager) → Order.IsValid m → Order.IsValid (asked m)
unfolding get_next_timer
asked-IsValid m v = get_next_timer-IsValid m 0 v

await_epoll-asked :
    (m : TimerManager) (again : List ℕ) (now : ℕ) → (await_epoll m again now).0 ≡ asked m
unfolding await_epoll wait_time get_next_timer
await_epoll-asked m [] now = refl
await_epoll-asked m (a ∷ again) now = await_epoll-asked (asked m) again now

module _ (epoll : Epoll) where
  open epoll use {Kernel}

  -- What a round that goes on has done.
  pub record Worked (s : Idler Kernel) (clock : Clock) (reports : List Report) (s' : Idler Kernel)
      : Type 0 where
    pub events : AllHandled epoll s.io reports s'.io
    pub timers : Order.IsValid s'.timers
    pub future : All (λ i. clock.expire_now < key s'.timers.object i) s'.timers.timers
    pub tasks :
        s'.scheduler.tasks
        ≡ s.scheduler.tasks
          ++ tasks_of (
              callbacks s.timers.object
                (due (key s.timers.object) clock.expire_now s.timers.timers))

  module _ (s : Idler Kernel) (clock : Clock) (reports : List Report) (v : IsValid epoll s.io)
      (tv : Order.IsValid s.timers) (p : Periodic s.timers.object s.timers.timers)
      (steady : s.timers.previous_time ≤ clock.rollover_now + milliseconds (60 * 60 * 1000))
      (h : Reported s.io.fd_contexts reports) where
    fuel : ℕ
    fuel = suc (length s.timers.timers)

    abbrev stops : Bool
    stops = (stopping s.io s.timers s.scheduler clock.stop_now).1

    goes_on :
        (s' : Idler Kernel) × (finish_round epoll s reports
            (list_expired_cb fuel (asked s.timers) clock.expire_now clock.rollover_now [])
          ≡ some (done (s', false)))
        × Worked s clock reports s'
    unfolding finish_round fuel
    goes_on =
        let (m, e, future) =
          list_expired_cb_lem fuel (asked s.timers) clock.expire_now clock.rollover_now []
            (asked-IsValid s.timers tv) p steady (omega arith) in
        let (io, q, k) = handle_all_lem epoll s.io reports v h in
        let cbs =
          callbacks s.timers.object (due (key s.timers.object) clock.expire_now s.timers.timers) in
        (
          record { io = io; timers = m; scheduler = schedule_all s.scheduler cbs },
          rw e (rw q refl),
          record {
            events = k;
            timers = subst (WhenSome (λ r. Order.IsValid r.0)) e (
                list_expired_cb-IsValid fuel (asked s.timers) clock.expire_now clock.rollover_now []
                  (asked-IsValid s.timers tv));
            future = future;
            tasks = schedule_all_lem s.scheduler _;
          },
        )

    -- Where the manager and its timers are valid, the clock has not fallen by more than an hour, every
    -- repeating timer has a period, and epoll reports each descriptor at most once and for registered
    -- events: with fuel for one round more than there are timers a round of `idle` ends without a fault.
    -- If stopping() answers true the idle fiber ends, and neither events nor queue have changed.
    -- Otherwise it goes on: the callbacks of exactly the timers that have come are put behind the
    -- queue's tasks in the order of their times, the timers left lie in the future, each report
    -- in turn has had its whole effect on what the reports before it left: its events are triggered and
    -- what waits for them is posted, unless none is meant or epoll_ctl fails, and then contexts and posted
    -- tasks stay. Events and timers are valid again.
    pub round_lem :
        (s' : Idler Kernel) × (round epoll (suc (length s.timers.timers)) s clock reports
          ≡ some (done (s', stops)))
        × (stops ≡ true → (s'.io ≡ s.io) × (s'.scheduler ≡ s.scheduler))
        × (stops ≡ false → Worked s clock reports s')
    unfolding round fuel stopping get_next_timer
    round_lem = elim (Bool-cases stops) [
      | inl e ↦ (
        record s { timers = asked s.timers },
        rw (e, round) refl,
        (λ _. (refl, refl)),
        (λ n. absurd (cc)),
      )
      | inr e ↦
          let (s', q, k) = goes_on in
          (s', rw (e, round, await_epoll-asked) q, (λ y. absurd (cc)), (λ _. k))
    ]
