-- ===== src/Timer/Expire/Lost/Rounds.antt =====
-- Single rounds of the loop in TimerManager::listExpiredCb (corlib/timer.cpp), and the timers that it
-- keeps.
use corlib.Base.{
  ℕ, zero, suc, ◌+◌, ◌<◌, ◌≤◌, ◌≡◌, refl, sym, ap, ◌∙◌, ◌≢◌, inl, inr, Bool, true, Option, List, [],
  ◌∷◌, ◌++◌, ltb, leb, All-In, In, arith, Bool-cases, ◌||◌, WhenSome, WhenSome-map,
}
use corlib.Callback.{Callback}
use corlib.Timer.{Timer, key, update, milliseconds, expire_one, expire_loop}
use corlib.Timer.Set.{insert, Sorted, Sorted-ext}
use corlib.Timer.Set.Members.{insert-cases, insert_collision}
use corlib.Timer.Expire.{due}

expire_one-In :
    (now : ℕ) (object : ℕ → Timer) (i y : ℕ) (ts : List ℕ)
    → In y (expire_one now object i ts).1
    → In y (i ∷ ts)
unfolding expire_one
expire_one-In now object i y ts h = elim (Bool-cases (object i).recurring) [
  | inl e ↦ insert-cases _ i y ts (rw (e, expire_one) at h)
  | inr e ↦ inr (rw (e, expire_one) at h)
]

-- The loop puts no timer into the set that was not there.
pub expire_loop-In :
    (fuel now : ℕ) (rollover : Bool) (object : ℕ → Timer) (y : ℕ) (ts : List ℕ)
    (cbs : List (Option Callback))
    → WhenSome (λ r. In y r.1 → In y ts) (expire_loop fuel now rollover object ts cbs)
unfolding expire_loop
expire_loop-In zero now ro object y ts cbs = tt
expire_loop-In (suc fuel) now ro object y [] cbs = λ h. h
expire_loop-In (suc fuel) now ro object y (i ∷ ts) cbs =
    elim (Bool-cases (ro || leb (key object i) now)) [
      | inl due ↦
          let r = expire_one now object i ts in
          rw (due, WhenSome, expire_loop)
            (WhenSome-map _ _ (expire_loop fuel now ro r.0 r.1 (cbs ++ (object i).cb ∷ []))
              (λ q k h. expire_one-In now object i y ts (k h))
              (expire_loop-In fuel now ro r.0 y r.1 (cbs ++ (object i).cb ∷ [])))
      | inr rest ↦ rw (rest, WhenSome, expire_loop) (λ h. h)
    ]

-- After `insert` some element has the key.
pub insert_has : (k : ℕ → ℕ) (x : ℕ) (ts : List ℕ) → (z : ℕ) × In z (insert k x ts) × (k z ≡ k x)
unfolding insert
insert_has k x [] = (x, inl refl, refl)
insert_has k x (y ∷ ys) =
    let (z, h, e) = insert_has k x ys in
    elim (Bool-cases (ltb (k y) (k x))) [
      | inl lt ↦ (z, rw lt (inr h), e)
      | inr ge ↦ elim (Bool-cases (ltb (k x) (k y))) [
        | inl gt ↦ (x, rw (ge, gt) (inl refl), refl)
        | inr same ↦ (y, rw (ge, same) (inl refl), ground arith)
      ]
    ]

insert_behind :
    (k : ℕ → ℕ) (x y : ℕ) (ts : List ℕ) → k y < k x → insert k x (y ∷ ts) ≡ y ∷ insert k x ts
unfolding insert
insert_behind k x y ts l = ground arith

pub update_other :
    (object : ℕ → Timer) (i y : ℕ) (t : Timer) → y ≢ i → update object i t y ≡ object y
update_other object i y t ne = grind arith

pub update_self : (object : ℕ → Timer) (i : ℕ) (t : Timer) → update object i t i ≡ t
update_self object i t = grind arith

-- A repeating timer whose next time another timer has is not put back.
pub expire_one_drops :
    (now : ℕ) (object : ℕ → Timer) (b z : ℕ) (ts : List ℕ)
    → Sorted (key object) (b ∷ ts)
    → (object b).recurring ≡ true
    → In z ts
    → key object z ≡ now + milliseconds (object b).ms
    → (expire_one now object b ts).1 ≡ ts
unfolding expire_one
expire_one_drops now object b z ts h rb m e =
    rw (rb, expire_one) (insert_collision (key (update object b t)) b z ts sorted m same)
  where
    t : Timer
    t = record {
      recurring = true;
      ms = (object b).ms;
      next = now + milliseconds (object b).ms;
      cb = (object b).cb;
    }

    ne : (y : ℕ) → In y ts → y ≢ b
    ne y q p =
        let l : key object b < key object y = All-In _ ts h.0 q in omega (arith, ap (key object) p)

    sorted : Sorted (key (update object b t)) ts
    sorted =
        Sorted-ext _ _ ts
          (λ y q. ap (λ (u : Timer). u.next) (sym (update_other object b y t (ne y q)))) h.1

    same : key (update object b t) z ≡ key (update object b t) b
    same =
        ap (λ (u : Timer). u.next) (update_other object b z t (ne z m))
        ∙ e
        ∙ ap (λ (u : Timer). u.next) (sym (update_self object b t))

-- The round of the first timer, which goes behind the second.
pub first_round :
    (now : ℕ) (object : ℕ → Timer) (a b : ℕ) (ts : List ℕ)
    → (object a).recurring ≡ true
    → 0 < (object a).ms
    → key object b ≤ now
    → a ≢ b
    → let t = record (object a) { next = now + milliseconds (object a).ms } in
      expire_one now object a (b ∷ ts)
      ≡ (update object a t, b ∷ insert (key (update object a t)) a ts)
unfolding expire_one
first_round now object a b ts ra pos due ne =
    rw (ra, expire_one) (ap (λ xs. (object', xs)) (insert_behind (key object') a b ts behind))
  where
    t : Timer
    t = record {
      recurring = true;
      ms = (object a).ms;
      next = now + milliseconds (object a).ms;
      cb = (object a).cb;
    }

    object' : ℕ → Timer
    object' = update object a t

    behind : key object' b < key object' a
    behind = omega (
      arith,
      ap (λ (u : Timer). u.next) (update_other object a b t (λ e. ne (sym e))),
      ap (λ (u : Timer). u.next) (update_self object a t),
    )
