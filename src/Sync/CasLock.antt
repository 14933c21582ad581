-- ===== src/Sync/CasLock.antt =====
-- class CASLock of corlib/mutex.h, with the threads that take it as interleaved steps: one round of the
-- loop of lock() is one step, and so is unlock(). Each thread is a script of calls.
use corlib.Base.{
  ℕ, ◌≡◌, Bool, true, false, some, List, [], ◌∷◌, All, get_elem?, set, total, if◌then◌else◌,
}
use corlib.Sync.Scoped.{MutexCall, acquire, release, Alternates}

-- std::atomic_flag_test_and_set_explicit: the flag after the call and what it was.
abbrev pub test_and_set : Bool → Bool × Bool
test_and_set flag = (true, flag)

-- CASLock::CASLock and CASLock::unlock: the flag is clear.
abbrev pub clear : Bool
clear = false

-- One round of the loop of CASLock::lock: the flag after it, and whether the loop goes on.
abbrev pub try_lock : Bool → Bool × Bool
try_lock flag = test_and_set flag

-- A thread: the calls that it has still to make, and whether it is between lock() and unlock().
pub record Client : Type 0 where
  pub script : List MutexCall
  pub inside : Bool

-- `m_mutex` and the threads.
pub record CasLock : Type 0 where
  pub flag : Bool
  pub clients : List Client

-- What one thread does next to the flag and to itself.
unfoldable pub advance : Bool → Client → Bool × Client
advance flag c = elim c.script [
  | [] ↦ (flag, c)
  | acquire ∷ cs ↦
      let (flag', again) = try_lock flag in
      (flag', if again then c else record { script = cs; inside = true })
  | release ∷ cs ↦ (clear, record { script = cs; inside = false })
]

-- The step of thread `i`.
abbrev pub step : CasLock → ℕ → Client → CasLock
step l i c =
    let (flag, c') = advance l.flag c in record { flag = flag; clients = set l.clients i c' }

pub data Run (l : CasLock) : CasLock → Type 0 where
  start : Run l l
  next :
      {m : CasLock} (i : ℕ) (c : Client)
      → Run l m
      → get_elem? m.clients i ≡ some c
      → Run l (step m i c)

-- Every thread's calls alternate, as scoped locks make them.
abbrev pub IsScoped : Client → Type 0
IsScoped c = Alternates c.inside c.script false

abbrev pub entered : Client → ℕ
entered c = if c.inside then 1 else 0

-- The flag is set exactly when one thread is inside.
pub record Inv (l : CasLock) : Type 0 where
  pub scoped : All IsScoped l.clients
  pub held : total entered l.clients ≡ (if l.flag then 1 else 0)
