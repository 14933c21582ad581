-- ===== src/Hook/Sleep.antt =====
-- sleep, usleep and nanosleep of corlib/hook.cpp: a timer that posts the calling fiber again. unsigned
-- int has 32 bits.
use corlib.Base.{
  ◌-◌, ltb, if◌then◌else◌, ℕ, ◌+◌, ◌*◌, ◌/◌, ◌%◌, ◌^◌, ◌<◌, ◌≤◌, ◌≡◌, ◌≢◌, ap, ◌∙◌, Bool, false,
  some, All, In, arith,
}
use corlib.Callback.{wake}
use corlib.Timer.{Timer, TimerManager, key, milliseconds, add_timer}
use corlib.Timer.Order.{IsValid}
use corlib.Timer.Calls.{add_timer_lem}

-- The milliseconds of sleep(seconds) and usleep(usec), an unsigned product and quotient.
abbrev pub sleep_ms : ℕ → ℕ
sleep_ms seconds = seconds * 1000 % 2 ^ 32

abbrev pub usleep_ms : ℕ → ℕ
usleep_ms usec = usec / 1000

-- sleep with the hook enabled, for the fiber `fiber`, up to its yield.
unfoldable pub sleep : TimerManager → ℕ → ℕ → ℕ → TimerManager × Bool
sleep m seconds fiber now = add_timer m (sleep_ms seconds) (some (wake fiber)) false now

unfoldable pub usleep : TimerManager → ℕ → ℕ → ℕ → TimerManager × Bool
usleep m usec fiber now = add_timer m (usleep_ms usec) (some (wake fiber)) false now

-- The milliseconds of nanosleep, narrowed to an int and widened with its sign.
abbrev pub nanosleep_ms : ℕ → ℕ → ℕ
nanosleep_ms sec nsec =
    let v = (sec * 1000 + nsec / 1000 / 1000) % 2 ^ 32 in
    if ltb v (2 ^ 31) then v else v + (2 ^ 64 - 2 ^ 32)

unfoldable pub nanosleep : TimerManager → ℕ → ℕ → ℕ → ℕ → TimerManager × Bool
nanosleep m sec nsec fiber now = add_timer m (nanosleep_ms sec nsec) (some (wake fiber)) false now

-- sleep for fewer than 4294968 seconds, while no timer of the set has exactly its time: the fiber is
-- posted again by a timer of the set that comes after that many seconds.
pub sleep_lem :
    (m : TimerManager) (seconds fiber now : ℕ)
    → IsValid m
    → now < 2 ^ 62
    → seconds < 4294968
    → All (λ j. key m.object j ≢ now + milliseconds (sleep_ms seconds)) m.timers
    → let m' = (sleep m seconds fiber now).0 in
      In m.fresh m'.timers
      × (key m'.object m.fresh ≡ now + 1000000000 * seconds)
      × ((m'.object m.fresh).cb ≡ some (wake fiber))
unfolding sleep
sleep_lem m seconds fiber now v bound small free =
    let (here, _, t, _) =
      add_timer_lem m (sleep_ms seconds) (some (wake fiber)) false now v (omega (arith, bound))
        free in
    (here, ap (λ (u : Timer). u.next) t ∙ omega (arith, small), ap (λ (u : Timer). u.cb) t)

-- For 4294968 seconds or more the product wraps: where the clock is below 2 ^ 62 nanoseconds and no timer
-- of the set has exactly the time of the new one, the new one is in the set and comes before its time.
pub sleep_wraps :
    (m : TimerManager) (seconds fiber now : ℕ)
    → IsValid m
    → now < 2 ^ 62
    → 4294968 ≤ seconds
    → All (λ j. key m.object j ≢ now + milliseconds (sleep_ms seconds)) m.timers
    → let m' = (sleep m seconds fiber now).0 in
      In m.fresh m'.timers × (key m'.object m.fresh < now + 1000000000 * seconds)
unfolding sleep
sleep_wraps m seconds fiber now v bound large free =
    let (here, _, t, _) =
      add_timer_lem m (sleep_ms seconds) (some (wake fiber)) false now v (omega (arith, bound))
        free in
    let q : key (sleep m seconds fiber now).0.object m.fresh
        ≡ now + milliseconds (sleep_ms seconds) =
      ap (λ (u : Timer). u.next) t in
    (here, omega (arith, q, large))
