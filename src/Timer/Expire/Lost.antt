-- ===== src/Timer/Expire/Lost.antt =====
-- Two repeating timers of one period in TimerManager::listExpiredCb (corlib/timer.cpp).
mod Rounds
pub use Rounds.*
use corlib.Base.{
  ℕ, zero, suc, ◌+◌, ◌*◌, ◌<◌, ◌≤◌, ◌≡◌, refl, sym, ap, subst, ◌∙◌, ◌≢◌, inl, inr, Bool, true,
  false, Option, none, some, List, [], ◌∷◌, ◌++◌, ltb, leb, le→leb, All, All-In, In, length, arith,
  Bool-cases, ◌||◌, WhenSome, WhenSome-map,
}
use corlib.Callback.{Callback}
use corlib.Timer.{
  Timer, TimerManager, key, update, milliseconds, expire_one, expire_loop, list_expired_cb, expired,
}
use corlib.Timer.Set.{insert, Sorted, Sorted-ext}
use corlib.Timer.Set.Members.{insert-cases, insert_collision}
use corlib.Timer.Order.{IsValid, expire_one-IsValid, with_heap}
use corlib.Timer.Expire.{expire_loop-due, due, callbacks, Periodic, list_expired_cb_lem}

module _ (now : ℕ) (m : TimerManager) (a b : ℕ) (ts : List ℕ)
    (v : IsValid (record m { timers = a ∷ b ∷ ts })) (ra : (m.object a).recurring ≡ true)
    (rb : (m.object b).recurring ≡ true) (period : (m.object a).ms ≡ (m.object b).ms)
    (pos : 0 < (m.object a).ms) (come : key m.object b ≤ now) where
  differ : a ≢ b
  differ e =
      let l : key m.object a < key m.object b = v.sorted.0.0 in omega (arith, ap (key m.object) e)

  abbrev t : Timer
  t = record (m.object a) { next = now + milliseconds (m.object a).ms }

  abbrev object' : ℕ → Timer
  object' = update m.object a t

  abbrev behind : List ℕ
  behind = insert (key object') a ts

  round : expire_one now m.object a (b ∷ ts) ≡ (object', b ∷ behind)
  round = first_round now m.object a b ts ra pos come differ

  after-Sorted : Sorted (key object') (b ∷ behind)
  after-Sorted =
      (subst (λ (r : (ℕ → Timer) × List ℕ). IsValid (with_heap m r.0 r.1)) round
        (expire_one-IsValid m now a (b ∷ ts) v)).sorted

  b_same : object' b ≡ m.object b
  b_same = update_other m.object a b t (λ e. differ (sym e))

  -- After the rounds of both timers the set is what the first round left behind the second timer.
  second : (expire_one now object' b behind).1 ≡ behind
  second =
      let (z, h, e) = insert_has (key object') a ts in
      expire_one_drops now object' b z behind after-Sorted
        (ap (λ (u : Timer). u.recurring) b_same ∙ rb) h
        (e
          ∙ ap (λ (u : Timer). u.next) (update_self m.object a t)
          ∙ ap (λ (n : ℕ). now + milliseconds n) (period ∙ ap (λ (u : Timer). u.ms) (sym b_same)))

  absent : ¬ In b behind
  absent h = let l : key object' b < key object' b = All-In _ behind after-Sorted.0 h in omega arith

  lost :
      (fuel : ℕ) (cbs : List (Option Callback))
      → WhenSome
          (λ r. ¬ In b r.1)
          (expire_loop (suc (suc fuel)) now false m.object (a ∷ b ∷ ts) cbs)
  lost fuel cbs = subst (WhenSome (λ r. ¬ In b r.1)) (sym steps) (
      WhenSome-map _ _ (expire_loop fuel now false r.0 r.1 after)
        (λ q k h. absent (subst (In b) second (k h)))
        (expire_loop-In fuel now false r.0 b r.1 after))
    where
      r : (ℕ → Timer) × List ℕ
      r = expire_one now object' b behind

      before : List (Option Callback)
      before = cbs ++ (m.object a).cb ∷ []

      after : List (Option Callback)
      after = before ++ (object' b).cb ∷ []

      a_due : leb (key m.object a) now ≡ true
      a_due = let l : key m.object a < key m.object b = v.sorted.0.0 in ground arith

      b_due : leb (key object' b) now ≡ true
      b_due = le→leb _ _ (omega (arith, ap (λ (u : Timer). u.next) b_same))

      steps :
          expire_loop (suc (suc fuel)) now false m.object (a ∷ b ∷ ts) cbs
          ≡ expire_loop fuel now false r.0 r.1 after
      steps =
          expire_loop-due (suc fuel) now false m.object a (b ∷ ts) cbs a_due
          ∙ ap (λ (q : (ℕ → Timer) × List ℕ). expire_loop (suc fuel) now false q.0 q.1 before) round
          ∙ expire_loop-due fuel now false object' b behind before b_due

expired-absent :
    (m : TimerManager) (b : ℕ) (r : Option ((ℕ → Timer) × List ℕ × List (Option Callback)))
    → WhenSome (λ r. ¬ In b r.1) r
    → WhenSome (λ r. ¬ In b r.0.timers) (expired m r)
unfolding expired
expired-absent m b none h = tt
expired-absent m b (some (object, ts, out)) h = h

list_expired_cb-absent :
    (fuel : ℕ) (m : TimerManager) (now later b : ℕ) (ts : List ℕ) (cbs : List (Option Callback))
    → m.previous_time ≤ later + milliseconds (60 * 60 * 1000)
    → m.timers ≡ ts
    → WhenSome (λ r. ¬ In b r.1) (expire_loop fuel now false m.object ts cbs)
    → WhenSome (λ r. ¬ In b r.0.timers) (list_expired_cb fuel m now later cbs)
unfolding list_expired_cb
list_expired_cb-absent fuel m now later b ts cbs clock e h = expired-absent _ b _ (
    subst (λ ro. WhenSome (λ r. ¬ In b r.1) (expire_loop fuel now ro m.object m.timers cbs))
      (sym steady)
      (subst (λ xs. WhenSome (λ r. ¬ In b r.1) (expire_loop fuel now false m.object xs cbs)) (sym e)
        h))
  where
    steady : ltb (later + milliseconds (60 * 60 * 1000)) m.previous_time ≡ false
    steady = ground arith

-- If the two first timers of the set repeat with one period and both have come, listExpiredCb ends
-- and the second of them is no longer in the set, though it still repeats: both get the time now plus
-- their period, and the set keeps one timer of a time. All callbacks that are due are returned once.
pub list_expired_cb_loses :
    (fuel : ℕ) (m : TimerManager) (now later a b : ℕ) (ts : List ℕ) (cbs : List (Option Callback))
    → IsValid m
    → Periodic m.object m.timers
    → m.previous_time ≤ later + milliseconds (60 * 60 * 1000)
    → length m.timers < fuel
    → m.timers ≡ a ∷ b ∷ ts
    → (m.object a).recurring ≡ true
    → (m.object b).recurring ≡ true
    → (m.object a).ms ≡ (m.object b).ms
    → key m.object b ≤ now
    → (m' : TimerManager) × (list_expired_cb fuel m now later cbs
        ≡ some (m', cbs ++ callbacks m.object (due (key m.object) now m.timers)))
      × ¬ In b m'.timers
list_expired_cb_loses zero m now later a b ts cbs v p clock f e ra rb period d = elim f [ ]
list_expired_cb_loses (suc zero) m now later a b ts cbs v p clock f e ra rb period d =
    absurd (omega (arith, ap length e))
list_expired_cb_loses (suc (suc fuel)) m now later a b ts cbs v p clock f e ra rb period d =
    let (m', q, _) = list_expired_cb_lem (suc (suc fuel)) m now later cbs v p clock f in
    (m', q, subst (WhenSome (λ r. ¬ In b r.0.timers)) q gone)
  where
    whole : IsValid (record m { timers = a ∷ b ∷ ts })
    whole = record {
      sorted = subst (Sorted (key m.object)) e v.sorted;
      live = subst (All (λ i. i < m.fresh)) e v.live;
      span = v.span;
    }

    gone : WhenSome (λ r. ¬ In b r.0.timers) (list_expired_cb (suc (suc fuel)) m now later cbs)
    gone =
        list_expired_cb-absent (suc (suc fuel)) m now later b (a ∷ b ∷ ts) cbs clock e
          (lost now m a b ts whole ra rb period ((subst (Periodic m.object) e p).0 ra) d fuel cbs)
