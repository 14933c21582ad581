-- ===== src/Timer/Tests.antt =====
-- Runs of corlib/timer.cpp on small time heaps.
use corlib.Base.{ℕ, ◌<◌, ◌≤◌, ◌≡◌, refl, inl, ◌↔◌, true, false, none, some, [], ◌∷◌, All, In, arith}
use corlib.Callback.{user}
use corlib.Timer.{
  Timer, TimerManager, key, update, init, cancel, add_timer, expire_loop, list_expired_cb,
}
use corlib.Timer.Order.{IsValid, Reach-IsValid, start, next, adds, cancels}
use corlib.Timer.Expire.{list_expired_cb_lem}
use corlib.Timer.Expire.Rollover.{expire_loop_diverges}
use corlib.Timer.Expire.Lost.{list_expired_cb_loses}
use corlib.Timer.Calls.{add_timer_lem, add_timer_collision}

abbrev pub once : Timer
once = record { recurring = false; ms = 5; next = 5000000; cb = some (user 7) }

abbrev pub often : Timer
often = record { recurring = true; ms = 9; next = 9000000; cb = some (user 8) }

-- Object 0 rings once, at 5 ms; object 1 every 9 ms; object 2 was dropped, it shares the time of 1.
abbrev pub objects : ℕ → Timer
objects =
    update
      (update (update (λ _. record { recurring = false; ms = 0; next = 0; cb = none }) 0 once) 1
        often)
      2 often

abbrev pub waiting : TimerManager
waiting = record {
  object = objects;
  fresh = 3;
  timers = 0 ∷ 1 ∷ [];
  tickled = false;
  previous_time = 0;
}

pub waiting-IsValid : IsValid waiting
waiting-IsValid = record {
  sorted = ((omega arith, tt), (tt, tt));
  live = (omega arith, (omega arith, tt));
  span = λ i. grind arith;
}

Reach-IsValid_example : IsValid (cancel (add_timer (init 3) 5 (some (user 7)) true 4).0 0).0
Reach-IsValid_example =
    Reach-IsValid
      (next (next start (adds (init 3) 5 (some (user 7)) true 4 (omega arith))) (cancels _ 0))

list_expired_cb_lem_example :
    (m' : TimerManager) × (list_expired_cb 3 waiting 6000000 6000000 []
      ≡ some (m', some (user 7) ∷ []))
    × All (λ i. 6000000 < key m'.object i) m'.timers
list_expired_cb_lem_example =
    list_expired_cb_lem 3 waiting 6000000 6000000 [] waiting-IsValid
      ((λ e. omega arith), ((λ e. omega arith), tt)) (omega arith) (omega arith)

expire_loop_diverges_example : expire_loop 100 1000000 true objects (1 ∷ []) [] ≡ none
expire_loop_diverges_example =
    expire_loop_diverges 100 1000000 true objects (1 ∷ []) [] ((refl, inl refl), tt) (omega arith)

add_timer_lem_example :
    let r = add_timer waiting 2 (some (user 9)) false 1000000 in
    In 3 r.0.timers
    × ((j : ℕ) → In j (0 ∷ 1 ∷ []) → In j r.0.timers)
    × (r.0.object 3 ≡ record { recurring = false; ms = 2; next = 3000000; cb = some (user 9) })
    × ((r.1 ≡ true) ↔ ((false ≡ false) × All (λ j. 3000000 ≤ key objects j) (0 ∷ 1 ∷ [])))
add_timer_lem_example =
    add_timer_lem waiting 2 (some (user 9)) false 1000000 waiting-IsValid (omega arith)
      ((λ e. omega (arith, e)), ((λ e. omega (arith, e)), tt))

add_timer_collision_example :
    let r = add_timer waiting 4 (some (user 9)) false 1000000 in
    (r.0.timers ≡ 0 ∷ 1 ∷ []) × ¬ In 3 r.0.timers
add_timer_collision_example =
    add_timer_collision waiting 4 (some (user 9)) false 1000000 0 waiting-IsValid (inl refl) refl

-- Two timers that repeat every 9 ms, one started 1 ns after the other.
abbrev pair : TimerManager
pair = record waiting {
  object = update (update objects 0 often) 1 (record often { next = 9000001 });
}

pair-IsValid : IsValid pair
pair-IsValid = record {
  sorted = ((omega arith, tt), (tt, tt));
  live = (omega arith, (omega arith, tt));
  span = λ i. grind arith;
}

list_expired_cb_loses_example :
    (m' : TimerManager) × (list_expired_cb 3 pair 9500000 9500000 []
      ≡ some (m', some (user 8) ∷ some (user 8) ∷ []))
    × ¬ In 1 m'.timers
list_expired_cb_loses_example =
    list_expired_cb_loses 3 pair 9500000 9500000 0 1 [] [] pair-IsValid
      ((λ e. omega arith), ((λ e. omega arith), tt)) (omega arith) (omega arith) refl refl refl refl
      (omega arith)
