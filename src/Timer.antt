-- ===== src/Timer.antt =====
-- corlib/timer.h and corlib/timer.cpp: timers and the time heap that manages them.
-- Timer objects live in a store, `object`, under the numbers below `fresh`; a shared_ptr is such a
-- number. `timers` is the std::set, in its iteration order. Times are nanoseconds of the system
-- clock; each call of system_clock::now() is an argument.
pub mod Set
pub mod Order
pub mod Expire
pub mod Calls
pub mod Moves
pub mod Tests
use corlib.Base.{
  ℕ, zero, suc, ◌<◌, ◌+◌, ◌-◌, ◌*◌, ◌/◌, ◌^◌, Bool, true, false, ◌&&◌, ◌||◌, not, Option, none,
  some, List, [], ◌∷◌, ◌++◌, ltb, leb, ◌==◌, if◌then◌else◌, is_some,
}
use corlib.Callback.{Callback, on_timer}
use Set.{insert, find, erase, erase_found, at_begin}

pub record Timer : Type 0 where
  pub recurring : Bool
  pub ms : ℕ
  pub next : ℕ
  pub cb : Option Callback

pub record TimerManager : Type 0 where
  pub object : ℕ → Timer
  pub fresh : ℕ
  pub timers : List ℕ
  pub tickled : Bool
  pub previous_time : ℕ

-- std::chrono::milliseconds(ms) in the clock's unit.
abbrev pub milliseconds : ℕ → ℕ
milliseconds ms = 1000000 * ms

-- `t + milliseconds(ms)` is a time that the clock can hold: 64-bit nanoseconds with a sign. Past that the
-- sum in C++ overflows, which the sums of this model, over ℕ, do not follow.
abbrev pub Fits : ℕ → ℕ → Type 0
Fits t ms = t + milliseconds ms < 2 ^ 63

abbrev pub update : (ℕ → Timer) → ℕ → Timer → ℕ → Timer
update object i t j = if i == j then t else object j

-- What `Comparator` compares.
abbrev pub key : (ℕ → Timer) → ℕ → ℕ
key object i = (object i).next

-- `~0ull`.
abbrev pub no_timeout : ℕ
no_timeout = 2 ^ 64 - 1

-- `TimerManager::TimerManager`.
unfoldable pub init : ℕ → TimerManager
init now = record {
  object = λ _. record { recurring = false; ms = 0; next = 0; cb = none };
  fresh = 0;
  timers = [];
  tickled = false;
  previous_time = now;
}

-- `Timer::cancel`.
unfoldable pub cancel : TimerManager → ℕ → TimerManager × Bool
unfolding erase_found
cancel m i =
    let t = m.object i in
    let object = update m.object i (record t { cb = none }) in
    if is_some t.cb
    then (
      record m { object = object; timers = erase_found (find (key object) i m.timers) m.timers },
      true,
    )
    else (m, false)

-- The part of `Timer::refresh` behind the tests: `i` was found at `pos`.
refresh_found : TimerManager → ℕ → ℕ → Option ℕ → TimerManager × Bool
refresh_found m i now none = (m, false)
refresh_found m i now (some pos) =
    let t = m.object i in
    let object = update m.object i (record t { next = now + milliseconds t.ms }) in
    (record m { object = object; timers = insert (key object) i (erase pos m.timers) }, true)

-- `Timer::refresh`.
unfoldable pub refresh : TimerManager → ℕ → ℕ → TimerManager × Bool
unfolding refresh_found
refresh m i now =
    if is_some (m.object i).cb
    then refresh_found m i now (find (key m.object) i m.timers)
    else (m, false)

-- `TimerManager::addTimer(std::shared_ptr<Timer>)`. The flag says that onTimerInsertedAtFront() is
-- called, after the lock is released.
unfoldable pub add_timer_ptr : TimerManager → ℕ → TimerManager × Bool
add_timer_ptr m i =
    let timers = insert (key m.object) i m.timers in
    let at_front = at_begin (key m.object) i m.timers && not m.tickled in
    (record m { timers = timers; tickled = at_front || m.tickled }, at_front)

-- The part of `Timer::reset` behind the tests. The result holds the answer and the flag of addTimer.
reset_found : TimerManager → ℕ → ℕ → Bool → ℕ → Option ℕ → TimerManager × Bool × Bool
unfolding add_timer_ptr
reset_found m i ms from_now now none = (m, false, false)
reset_found m i ms from_now now (some pos) =
    let t = m.object i in
    let start = if from_now then now else t.next - milliseconds t.ms in
    let object = update m.object i (record t { ms = ms; next = start + milliseconds ms }) in
    let (m', woken) = add_timer_ptr (record m { object = object; timers = erase pos m.timers }) i in
    (m', true, woken)

-- `Timer::reset`.
unfoldable pub reset : TimerManager → ℕ → ℕ → Bool → ℕ → TimerManager × Bool × Bool
unfolding reset_found
reset m i ms from_now now =
    let t = m.object i in
    if ms == t.ms && not from_now
    then (m, true, false)
    else if is_some t.cb
    then reset_found m i ms from_now now (find (key m.object) i m.timers)
    else (m, false, false)

-- `Timer::Timer`, the constructor, for a time that `Fits`.
unfoldable pub make_timer : ℕ → Option Callback → Bool → ℕ → Timer
make_timer ms cb recurring now = record {
  recurring = recurring;
  ms = ms;
  next = now + milliseconds ms;
  cb = cb;
}

-- `TimerManager::addTimer(ms, cb, recurring)`: the new timer is the object `m.fresh`.
unfoldable pub add_timer : TimerManager → ℕ → Option Callback → Bool → ℕ → TimerManager × Bool
unfolding add_timer_ptr make_timer
add_timer m ms cb recurring now =
    add_timer_ptr
      (record m {
        object = update m.object m.fresh (make_timer ms cb recurring now);
        fresh = suc m.fresh;
      })
      m.fresh

-- `TimerManager::addConditionTimer`.
unfoldable pub add_condition_timer :
    TimerManager → ℕ → Callback → ℕ → Bool → ℕ → TimerManager × Bool
unfolding add_timer
add_condition_timer m ms cb cond recurring now =
    add_timer m ms (some (on_timer cond cb)) recurring now

-- The time to wait until the first timer of the set.
until_first : (ℕ → Timer) → List ℕ → ℕ → ℕ
until_first object [] now = no_timeout
until_first object (i ∷ is) now =
    let time = key object i in if leb time now then 0 else (time - now) / 1000000

-- `TimerManager::getNextTimer`.
unfoldable pub get_next_timer : TimerManager → ℕ → TimerManager × ℕ
unfolding until_first
get_next_timer m now = (record m { tickled = false }, until_first m.object m.timers now)

-- `TimerManager::hasTimer`.
unfoldable pub has_timer : TimerManager → Bool
has_timer m = elim m.timers [ [] ↦ false | _ ↦ true ]

-- `TimerManager::detectClockRollover`: the clock fell by more than an hour.
unfoldable pub detect_clock_rollover : TimerManager → ℕ → TimerManager × Bool
detect_clock_rollover m now =
    (record m { previous_time = now }, ltb (now + milliseconds (60 * 60 * 1000)) m.previous_time)

-- The body of the loop of `listExpiredCb`, for the first timer `i` of the set and the rest `ts`.
unfoldable pub expire_one : ℕ → (ℕ → Timer) → ℕ → List ℕ → (ℕ → Timer) × List ℕ
expire_one now object i ts =
    let t = object i in
    let again = update object i (record t { next = now + milliseconds t.ms }) in
    if t.recurring
    then (again, insert (key again) i ts)
    else (update object i (record t { cb = none }), ts)

-- The loop of `listExpiredCb`; `none` means that the fuel ran out.
unfoldable pub expire_loop :
    ℕ
    → ℕ
    → Bool
    → (ℕ → Timer)
    → List ℕ
    → List (Option Callback)
    → Option ((ℕ → Timer) × List ℕ × List (Option Callback))
unfolding expire_one
expire_loop zero now rollover object ts cbs = none
expire_loop (suc fuel) now rollover object [] cbs = some (object, [], cbs)
expire_loop (suc fuel) now rollover object (i ∷ ts) cbs =
    elim (rollover || leb (key object i) now) [
      | true ↦
          let next = expire_one now object i ts in
          expire_loop fuel now rollover next.0 next.1 (cbs ++ (object i).cb ∷ [])
      | false ↦ some (object, i ∷ ts, cbs)
    ]

-- The time heap and the callbacks that the loop leaves.
unfoldable pub expired :
    TimerManager
    → Option ((ℕ → Timer) × List ℕ × List (Option Callback))
    → Option (TimerManager × List (Option Callback))
expired m none = none
expired m (some (object, ts, out)) = some (record m { object = object; timers = ts }, out)

-- `TimerManager::listExpiredCb`. `now` and `later` are its two readings of the clock.
unfoldable pub list_expired_cb :
    ℕ
    → TimerManager
    → ℕ
    → ℕ
    → List (Option Callback)
    → Option (TimerManager × List (Option Callback))
unfolding detect_clock_rollover
list_expired_cb fuel m now later cbs =
    let (m', rollover) = detect_clock_rollover m later in
    expired m' (expire_loop fuel now rollover m'.object m'.timers cbs)
