-- ===== src/Thread/Made.antt =====
-- What the maker of a thread of corlib/thread.cpp may rely on.
use corlib.Base.{
  ℕ, zero, suc, ◌+◌, ◌-◌, ◌≤◌, ◌≡◌, refl, sym, ap, subst, ◌∙◌, Bool, true, false, none, some, List,
  [], ◌∷◌, arith, take, if◌then◌else◌,
}
use corlib.Callback.{Callback}
use corlib.Thread.{
  World, Creator, Child, waiting, built, unborn, at_this, at_name, at_id, at_setname, at_swap,
  at_signal, at_call, ended, begin, await, run, Reach, awaits, runs, start, next, has_ended,
}
use corlib.Thread.Handshake.{past, rank, world, Placed, Reach-Placed}

-- What the constructor leaves.
pub record IsMade (tid : ℕ) (name : List ℕ) (w : World) : Type 0 where
  pub id : w.object.id ≡ some tid
  pub cb : w.object.cb ≡ none
  pub name_kept : w.object.name ≡ name
  pub this : w.this ≡ true
  pub this_name : w.this_name ≡ some name
  pub kernel_name : w.kernel_name ≡ some (take 15 name)

module _ (tid : ℕ) (cb : Callback) (name : List ℕ) where
  world-IsMade :
      (creator : Creator) (child : Child) (handle : Bool)
      → 7 ≤ rank child
      → IsMade tid name (world tid cb name creator child handle)
  world-IsMade c at_call handle h = record {
    id = refl;
    cb = refl;
    name_kept = refl;
    this = refl;
    this_name = refl;
    kernel_name = refl;
  }
  world-IsMade c ended handle h = record {
    id = refl;
    cb = refl;
    name_kept = refl;
    this = refl;
    this_name = refl;
    kernel_name = refl;
  }
  world-IsMade c child handle h = absurd (omega (arith, h))

  -- However the steps of the two threads interleave, when the constructor of Thread has returned, the new
  -- thread has set its id in the object, so that getId() is the thread's id; it has taken the function
  -- out of the object; and its own GetThis() and GetName() are the object and its name.
  pub built-IsMade :
      {w : World} → Reach tid (begin cb name) w → w.creator ≡ built → IsMade tid name w
  built-IsMade {w} r e = go (Reach-Placed tid cb name r)
    where
      go : Placed tid cb name w → IsMade tid name w
      go (built, child, handle, h, q) =
          subst (IsMade tid name) (sym q) (world-IsMade built child handle h.0)
      go (c, child, handle, h, q) = cc

  -- In every state that is reached, the function has been called at most once, it has been called once
  -- where the thread has ended, and the new thread never uses the Thread object after its destructor.
  pub Reach-called :
      {w : World}
      → Reach tid (begin cb name) w
      → (w.dangling ≡ false) × (w.called ≡ (if has_ended w.child then some cb ∷ [] else []))
  Reach-called {w} r =
      let (c, child, handle, h, q) = Reach-Placed tid cb name r in
      (ap (λ x. x.dangling) q, rw q (calls child))
    where
      calls :
          (child : Child)
          → (if past 8 child then some cb ∷ [] else [])
            ≡ (if has_ended child then some cb ∷ [] else [])
      calls ended = refl
      calls child = refl

  -- When join() has come back, the function was called.
  pub joined-called :
      {w : World}
      → Reach tid (begin cb name) w
      → w.creator ≡ built
      → w.object.handle ≡ false
      → w.called ≡ some cb ∷ []
  joined-called {w} r e j = go (Reach-Placed tid cb name r)
    where
      go : Placed tid cb name w → w.called ≡ some cb ∷ []
      go (built, child, false, h, q) =
          ap (λ x. x.called) (q ∙ ap (λ x. world tid cb name built x false) (h.1 refl))
      go (c, child, handle, h, q) = cc

  Reach-append : {u v w : World} → Reach tid u v → Reach tid v w → Reach tid u w
  Reach-append r start = r
  Reach-append r (next s t) = next (Reach-append r s) t

  rank_le : (c : Child) → (rank c ≤ 8)
  rank_le unborn = omega arith
  rank_le at_this = omega arith
  rank_le at_name = omega arith
  rank_le at_id = omega arith
  rank_le at_setname = omega arith
  rank_le at_swap = omega arith
  rank_le at_signal = omega arith
  rank_le at_call = omega arith
  rank_le ended = omega arith

  to_end :
      (n : ℕ) (child : Child)
      → (1 ≤ rank child) × (n + rank child ≡ 8)
      → Reach tid (world tid cb name waiting child true) (world tid cb name waiting ended true)
  unfolding run
  to_end zero ended h = start
  to_end (suc n) at_this h =
      Reach-append (next start runs) (to_end n at_name (omega arith, omega (arith, h.1)))
  to_end (suc n) at_name h =
      Reach-append (next start runs) (to_end n at_id (omega arith, omega (arith, h.1)))
  to_end (suc n) at_id h =
      Reach-append (next start runs) (to_end n at_setname (omega arith, omega (arith, h.1)))
  to_end (suc n) at_setname h =
      Reach-append (next start runs) (to_end n at_swap (omega arith, omega (arith, h.1)))
  to_end (suc n) at_swap h =
      Reach-append (next start runs) (to_end n at_signal (omega arith, omega (arith, h.1)))
  to_end (suc n) at_signal h =
      Reach-append (next start runs) (to_end n at_call (omega arith, omega (arith, h.1)))
  to_end (suc n) at_call h =
      Reach-append (next start runs) (to_end n ended (omega arith, omega (arith, h.1)))
  to_end n child h = absurd (ground (arith, h.0, h.1))

  -- The constructor is never stuck in m_semaphore.wait(): from every state in which it waits, some steps
  -- let the new thread end and the constructor return.
  pub waiting-returns :
      {w : World}
      → Reach tid (begin cb name) w
      → w.creator ≡ waiting
      → (v : World) × Reach tid w v × (v.creator ≡ built) × (v.child ≡ ended)
  unfolding await
  waiting-returns {w} r e = go (Reach-Placed tid cb name r)
    where
      go :
          Placed tid cb name w
          → (v : World) × Reach tid w v × (v.creator ≡ built) × (v.child ≡ ended)
      go (waiting, child, true, h, q) = (
        world tid cb name built ended true,
        subst (λ x. Reach tid x (world tid cb name built ended true)) (sym q)
            (next (to_end (8 - rank child) child (ground (arith, h.0, rank_le child)))
              (awaits refl)),
        refl,
        refl,
      )
      go (c, child, handle, h, q) = cc
