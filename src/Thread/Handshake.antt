-- ===== src/Thread/Handshake.antt =====
-- What corlib/thread.cpp guarantees of the making of a thread: the state is determined by where the two
-- threads stand, and they stand where the semaphore allows.
use corlib.Base.{
  ℕ, ◌≤◌, ◌≡◌, refl, subst, leb, take, Bool, true, false, none, some, List, [], ◌∷◌, arith,
  if◌then◌else◌,
}
use corlib.Callback.{Callback}
use corlib.Thread.{
  World, Creator, Child, creating, waiting, built, thrown, destroyed, unborn, at_this, at_name,
  at_id, at_setname, at_swap, at_signal, at_call, ended, begin, create, await, run, join, destroy,
  Step, Reach, creates, awaits, runs, joins, destroys, start, next, has_ended,
}

-- How far the child is.
abbrev pub rank : Child → ℕ
rank unborn = 0
rank at_this = 1
rank at_name = 2
rank at_id = 3
rank at_setname = 4
rank at_swap = 5
rank at_signal = 6
rank at_call = 7
rank ended = 8

abbrev pub past : ℕ → Child → Bool
past n c = leb n (rank c)

-- The state that belongs to two threads at these points.
abbrev pub world : ℕ → Callback → List ℕ → Creator → Child → Bool → World
world tid cb name creator child handle = record {
  object = record {
    id = if past 4 child then some tid else none;
    handle = handle;
    cb = if past 6 child then none else some cb;
    name = name;
    count = elim creator [ waiting ↦ if past 7 child then 1 else 0 | _ ↦ 0 ];
  };
  alive = elim creator [ thrown ↦ false | destroyed ↦ false | _ ↦ true ];
  creator = creator;
  child = child;
  this = past 2 child;
  this_name = if past 3 child then some name else none;
  local_cb = if past 6 child then some cb else none;
  called = if past 8 child then some cb ∷ [] else [];
  kernel_name = if past 5 child then some (take 15 name) else none;
  dangling = false;
}

-- Which points go together: the constructor returns only behind signal(), and a thread that was joined has
-- ended.
abbrev pub Turns : Creator → Child → Bool → Type 0
Turns creating c handle = (c ≡ unborn) × (handle ≡ false)
Turns waiting c handle = (1 ≤ rank c) × (handle ≡ true)
Turns built c handle = (7 ≤ rank c) × (handle ≡ false → c ≡ ended)
Turns thrown c handle = (c ≡ unborn) × (handle ≡ false)
Turns destroyed c handle = (7 ≤ rank c) × (handle ≡ false)

abbrev pub Placed : ℕ → Callback → List ℕ → World → Type 0
Placed tid cb name w =
    (creator : Creator) × (child : Child) × (handle : Bool) × Turns creator child handle
    × (w ≡ world tid cb name creator child handle)

module _ (tid : ℕ) (cb : Callback) (name : List ℕ) where
  run-Placed :
      (creator : Creator) (child : Child) (handle : Bool)
      → Turns creator child handle
      → Placed tid cb name (run tid (world tid cb name creator child handle))
  unfolding run
  run-Placed creator unborn handle h = (creator, unborn, handle, h, refl)
  run-Placed creator ended handle h = (creator, ended, handle, h, refl)
  run-Placed waiting at_this handle h = (waiting, at_name, handle, (omega arith, h.1), refl)
  run-Placed waiting at_name handle h = (waiting, at_id, handle, (omega arith, h.1), refl)
  run-Placed waiting at_id handle h = (waiting, at_setname, handle, (omega arith, h.1), refl)
  run-Placed waiting at_setname handle h = (waiting, at_swap, handle, (omega arith, h.1), refl)
  run-Placed waiting at_swap handle h = (waiting, at_signal, handle, (omega arith, h.1), refl)
  run-Placed waiting at_signal handle h = (waiting, at_call, handle, (omega arith, h.1), refl)
  run-Placed waiting at_call handle h = (waiting, ended, handle, (omega arith, h.1), refl)
  run-Placed built at_call handle h = (built, ended, handle, (omega arith, λ _. refl), refl)
  run-Placed destroyed at_call handle h = (destroyed, ended, handle, (omega arith, h.1), refl)
  run-Placed creator child handle h = absurd (ground (arith, h.0))

  await-Placed :
      (child : Child) (handle : Bool)
      → Turns waiting child handle
      → Placed tid cb name (await (world tid cb name waiting child handle))
  unfolding await
  await-Placed at_call handle h = (built, at_call, handle, (omega arith, λ e. absurd (cc)), refl)
  await-Placed ended handle h = (built, ended, handle, (omega arith, λ e. refl), refl)
  await-Placed child handle h = (waiting, child, handle, h, refl)

  create-Placed :
      (fails : Bool) → Placed tid cb name (create (world tid cb name creating unborn false) fails)
  unfolding create
  create-Placed true = (thrown, unborn, false, (refl, refl), refl)
  create-Placed false = (waiting, at_this, true, (omega arith, refl), refl)

  join-Placed :
      (fails handle : Bool) (child : Child)
      → Turns built child handle
      → (handle ≡ true → has_ended child ≡ true)
      → Placed tid cb name (join (world tid cb name built child handle) fails).0
  unfolding join
  join-Placed fails false child h e = (built, child, false, h, refl)
  join-Placed true true child h e = (built, child, true, h, refl)
  join-Placed false true child h e =
      (built, child, false, (h.0, λ _. ended_is child (e refl)), refl)
    where
      ended_is : (c : Child) → has_ended c ≡ true → c ≡ ended
      ended_is ended e = refl
      ended_is c e = cc

  destroy-Placed :
      (child : Child) (handle : Bool)
      → Turns built child handle
      → Placed tid cb name (destroy (world tid cb name built child handle))
  unfolding destroy
  destroy-Placed child true h = (destroyed, child, false, (h.0, refl), refl)
  destroy-Placed child false h = (destroyed, child, false, (h.0, refl), refl)

  Step-Placed :
      (c : Creator) (child : Child) (handle : Bool) {u : World}
      → Turns c child handle
      → Step tid (world tid cb name c child handle) u
      → Placed tid cb name u
  Step-Placed c child handle h runs = run-Placed c child handle h
  Step-Placed creating child handle h (creates fails e) = rw (h.0, h.1) (create-Placed fails)
  Step-Placed c child handle h (creates fails e) = cc
  Step-Placed waiting child handle h (awaits e) = await-Placed child handle h
  Step-Placed c child handle h (awaits e) = cc
  Step-Placed built child handle h (joins fails e w) = join-Placed fails handle child h w
  Step-Placed c child handle h (joins fails e w) = cc
  Step-Placed built child handle h (destroys e) = destroy-Placed child handle h
  Step-Placed c child handle h (destroys e) = cc

  pub Reach-Placed : {w : World} → Reach tid (begin cb name) w → Placed tid cb name w
  Reach-Placed start = (creating, unborn, false, (refl, refl), refl)
  Reach-Placed (next {v} {u} r s) =
      let (c, child, handle, h, e) = Reach-Placed r in
      Step-Placed c child handle h (subst (λ x. Step tid x u) e s)
