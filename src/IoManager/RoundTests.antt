-- ===== src/IoManager/RoundTests.antt =====
-- A round of IOManager::idle of corlib/ioscheduler.cpp: one timer has come, tickle() was called, and one
-- descriptor is ready in both directions.
use corlib.Base.{ℕ, ◌≡◌, refl, true, false, Option, some, List, [], ◌∷◌, arith}
use corlib.Base.Outcome.{done}
use corlib.Timer.Tests.{waiting, waiting-IsValid}
use corlib.IoManager.Mask.{Events}
use corlib.IoManager.{stopping}
use corlib.IoManager.Round.{Report, Clock, Idler, tickled, on, round}
use corlib.IoManager.Reports.{Reported}
use corlib.IoManager.Whole.{Worked, round_lem}
use corlib.IoManager.Tests.{sure, busy, busy-IsValid, both_ways}
use corlib.Scheduler.Tests.{started}

abbrev reports : List Report
reports = tickled ∷ on 5 (record { reads = true; writes = true }) false ∷ []

reports-Reported : Reported busy.fd_contexts reports
reports-Reported = ((both_ways, refl, (λ e. e, λ e. e)), tt, tt)

abbrev clock : Clock
clock = record {
  stop_now = 5000000;
  interrupted = 5500000 ∷ [];
  wait_now = 5600000;
  expire_now = 6000000;
  rollover_now = 6000000;
}

abbrev idler : Idler (ℕ → Option Events)
idler = record { io = busy; timers = waiting; scheduler = started }

round_lem_example :
    (s' : Idler (ℕ → Option Events)) × (round sure 3 idler clock reports ≡ some (done (s', false)))
    × (false ≡ true → (s'.io ≡ idler.io) × (s'.scheduler ≡ idler.scheduler))
    × (false ≡ false → Worked sure idler clock reports s')
unfolding stopping
round_lem_example =
    round_lem sure idler clock reports busy-IsValid waiting-IsValid
      ((λ e. omega arith), ((λ e. omega arith), tt)) (omega arith) reports-Reported
