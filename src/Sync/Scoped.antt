-- ===== src/Sync/Scoped.antt =====
-- ScopedLockImpl, ReadScopedLockImpl and WriteScopedLockImpl of corlib/mutex.h. The three differ in the
-- call of the mutex that `acquire` stands for: lock, rdlock or wrlock.
use corlib.Base.{◌≡◌, refl, subst, Bool, true, false, not, List, [], ◌∷◌, ◌++◌, if◌then◌else◌}

-- What a scoped lock calls of its mutex.
pub data MutexCall : Type 0 where
  acquire release : MutexCall

-- The object: `m_locked`, and the calls that it has made of its mutex.
pub record ScopedLock : Type 0 where
  pub locked : Bool
  pub calls : List MutexCall

-- The constructor.
abbrev pub construct : ScopedLock
construct = record { locked = true; calls = acquire ∷ [] }

-- lock().
unfoldable pub lock : ScopedLock → ScopedLock
lock s = if not s.locked then record { locked = true; calls = s.calls ++ acquire ∷ [] } else s

-- unlock().
unfoldable pub unlock : ScopedLock → ScopedLock
unlock s = if s.locked then record { locked = false; calls = s.calls ++ release ∷ [] } else s

-- The destructor.
abbrev pub destruct : ScopedLock → ScopedLock
destruct s = unlock s

-- What the owner of a scoped lock may call while it lives.
pub data Use : Type 0 where
  locks unlocks : Use

abbrev pub apply : Use → ScopedLock → ScopedLock
apply locks s = lock s
apply unlocks s = unlock s

abbrev pub apply_all : List Use → ScopedLock → ScopedLock
apply_all [] s = s
apply_all (u ∷ us) s = apply_all us (apply u s)

-- The whole life of a scoped lock.
abbrev pub scope : List Use → ScopedLock
scope us = destruct (apply_all us construct)

-- `Alternates held cs held'`: whoever holds the mutex as `held` says may make the calls `cs`, which never
-- acquire a mutex that is held nor release one that is not, and holds it then as `held'` says.
abbrev pub Alternates : Bool → List MutexCall → Bool → Type 0
Alternates held [] held' = held ≡ held'
Alternates held (acquire ∷ cs) held' = (held ≡ false) × Alternates true cs held'
Alternates held (release ∷ cs) held' = (held ≡ true) × Alternates false cs held'

Alternates-append :
    (a b c : Bool) (xs ys : List MutexCall)
    → Alternates a xs b
    → Alternates b ys c
    → Alternates a (xs ++ ys) c
Alternates-append a b c [] ys h k = rw h k
Alternates-append a b c (acquire ∷ xs) ys h k = (h.0, Alternates-append true b c xs ys h.1 k)
Alternates-append a b c (release ∷ xs) ys h k = (h.0, Alternates-append false b c xs ys h.1 k)

-- `m_locked` tells whether the calls so far leave the mutex held.
abbrev pub IsHonest : ScopedLock → Type 0
IsHonest s = Alternates false s.calls s.locked

lock-IsHonest : (s : ScopedLock) → IsHonest s → IsHonest (lock s)
unfolding lock
lock-IsHonest s h = go s.locked s.calls h
  where
    go :
        (b : Bool) (cs : List MutexCall)
        → Alternates false cs b
        → IsHonest (lock (record { locked = b; calls = cs }))
    go true cs h = h
    go false cs h = Alternates-append false false true cs _ h (refl, refl)

unlock-IsHonest : (s : ScopedLock) → IsHonest s → IsHonest (unlock s) × ((unlock s).locked ≡ false)
unfolding unlock
unlock-IsHonest s h = go s.locked s.calls h
  where
    go :
        (b : Bool) (cs : List MutexCall)
        → Alternates false cs b
        → let s' = unlock (record { locked = b; calls = cs }) in IsHonest s' × (s'.locked ≡ false)
    go true cs h = (Alternates-append false true false cs _ h (refl, refl), refl)
    go false cs h = (h, refl)

apply_all-IsHonest : (us : List Use) (s : ScopedLock) → IsHonest s → IsHonest (apply_all us s)
apply_all-IsHonest [] s h = h
apply_all-IsHonest (locks ∷ us) s h = apply_all-IsHonest us (lock s) (lock-IsHonest s h)
apply_all-IsHonest (unlocks ∷ us) s h = apply_all-IsHonest us (unlock s) (unlock-IsHonest s h).0

-- Whatever its owner calls, in whatever order, from its constructor to its destructor a scoped lock
-- acquires its mutex only when it does not hold it, releases it only when it holds it, and leaves it
-- released.
pub scope-Alternates : (us : List Use) → Alternates false (scope us).calls false
scope-Alternates us =
    let h = unlock-IsHonest _ (apply_all-IsHonest us construct (refl, refl)) in
    subst (Alternates false (scope us).calls) h.1 h.0

-- The calls of a thread that opens scoped locks one after the other.
abbrev pub scopes : List (List Use) → List MutexCall
scopes [] = []
scopes (us ∷ rest) = (scope us).calls ++ scopes rest

pub scopes-Alternates : (uses : List (List Use)) → Alternates false (scopes uses) false
scopes-Alternates [] = refl
scopes-Alternates (us ∷ rest) =
    Alternates-append false false false (scope us).calls (scopes rest) (scope-Alternates us)
      (scopes-Alternates rest)
