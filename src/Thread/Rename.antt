-- ===== src/Thread/Rename.antt =====
-- Thread::SetName of corlib/thread.cpp before and after the Thread object ends.
use corlib.Base.{ℕ, ◌≡◌, refl, true, some, List, arith}
use corlib.Thread.{World, destroy, set_name}

-- While the object lives, a thread that has set t_thread gives the object and itself the new name.
pub set_name-alive :
    (w : World) (name : List ℕ)
    → w.this ≡ true
    → w.alive ≡ true
    → let w' = set_name w name in
      (w'.object.name ≡ name) × (w'.this_name ≡ some name) × (w'.dangling ≡ w.dangling)
unfolding set_name
set_name-alive w name t a = (ground (arith, t), refl, ground (arith, t, a))

-- A thread that was not joined outlives its object; if it then calls SetName, it writes to the object that
-- has ended.
pub set_name-destroy :
    (w : World) (name : List ℕ) → w.this ≡ true → (set_name (destroy w) name).dangling ≡ true
unfolding set_name destroy
set_name-destroy w name t = ground (arith, t)
