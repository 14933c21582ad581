-- ===== src/Thread.antt =====
-- corlib/thread.h and corlib/thread.cpp: the making of a thread, as interleaved steps of the thread that
-- makes it (the creator) and of the new one (the child), and what the creator does with it after.
-- pthread_create may fail; a thread that pthread_join has waited for has returned from `run`. Names are
-- lists of characters, as numbers.
pub mod Handshake
pub mod Made
pub mod Rename
pub mod Tests
use corlib.Base.{
  ℕ, suc, ◌+◌, ◌-◌, ◌≡◌, Bool, true, false, not, Option, none, some, List, [], ◌∷◌, ◌++◌, ◌==◌,
  if◌then◌else◌, take,
}
use corlib.Callback.{Callback}

-- class Thread, with `m_id` (none is -1), whether `m_thread` is not 0, `m_cb`, `m_name`, and the `count`
-- of `m_semaphore`.
pub record Thread : Type 0 where
  pub id : Option ℕ
  pub handle : Bool
  pub cb : Option Callback
  pub name : List ℕ
  pub count : ℕ

-- Where the creator stands: before pthread_create, in `m_semaphore.wait()`, after the constructor, out of
-- it by an exception, or after the destructor.
pub data Creator : Type 0 where
  creating waiting built thrown destroyed : Creator

-- Where the child stands in Thread::run: not started, or before the statement named.
pub data Child : Type 0 where
  unborn : Child
  at_this at_name at_id at_setname at_swap at_signal at_call : Child
  ended : Child

-- The object and whether it lives; the two threads; t_thread (whether it is set) and t_thread_name of the
-- child; its local `cb`; the functions that it has called; the name that the kernel has for it; and
-- whether it has read or written the object after its end.
pub record World : Type 0 where
  pub object : Thread
  pub alive : Bool
  pub creator : Creator
  pub child : Child
  pub this : Bool
  pub this_name : Option (List ℕ)
  pub local_cb : Option Callback
  pub called : List (Option Callback)
  pub kernel_name : Option (List ℕ)
  pub dangling : Bool

-- Before Thread::Thread(cb, name): the members are as their initialisers say.
abbrev pub begin : Callback → List ℕ → World
begin cb name = record {
  object = record { id = none; handle = false; cb = some cb; name = name; count = 0 };
  alive = true;
  creator = creating;
  child = unborn;
  this = false;
  this_name = none;
  local_cb = none;
  called = [];
  kernel_name = none;
  dangling = false;
}

-- pthread_create in the constructor: the child starts, or the constructor throws.
unfoldable pub create : World → Bool → World
create w fails =
    if fails
    then record w { creator = thrown; alive = false }
    else record w { object = record w.object { handle = true }; creator = waiting; child = at_this }

-- Semaphore::wait: one round of its loop, in which the thread sleeps on while `count` is 0.
abbrev pub semaphore_wait : ℕ → ℕ × Bool
semaphore_wait count = if count == 0 then (count, false) else (count - 1, true)

-- Semaphore::signal.
abbrev pub semaphore_signal : ℕ → ℕ
semaphore_signal count = count + 1

-- A round of `m_semaphore.wait()` in the constructor.
unfoldable pub await : World → World
await w =
    let r = semaphore_wait w.object.count in
    record w { object = record w.object { count = r.0 }; creator = if r.1 then built else waiting }

-- The object is used by the child.
abbrev pub touch : World → World
touch w = record w { dangling = if w.alive then w.dangling else true }

-- One statement of Thread::run. `tid` is what the kernel answers to gettid.
unfoldable pub run : ℕ → World → World
run tid w = elim w.child [
  | unborn ↦ w
  | at_this ↦ record w { child = at_name; this = true }
  | at_name ↦ record (touch w) { child = at_id; this_name = some w.object.name }
  | at_id ↦ record (touch w) { child = at_setname; object = record w.object { id = some tid } }
  | at_setname ↦ record (touch w) { child = at_swap; kernel_name = some (take 15 w.object.name) }
  | at_swap ↦ record (touch w) {
    child = at_signal;
    local_cb = w.object.cb;
    object = record w.object { cb = w.local_cb };
  }
  | at_signal ↦ record (touch w) {
    child = at_call;
    object = record w.object { count = semaphore_signal w.object.count };
  }
  | at_call ↦ record w { child = ended; called = w.called ++ w.local_cb ∷ [] }
  | ended ↦ w
]

abbrev pub has_ended : Child → Bool
has_ended c = elim c [ ended ↦ true | _ ↦ false ]

-- Thread::join. `fails` is what pthread_join says; the flag says that join() throws.
unfoldable pub join : World → Bool → World × Bool
join w fails =
    if w.object.handle
    then (if fails
        then (w, true)
        else (record w { object = record w.object { handle = false } }, false))
    else (w, false)

-- Thread::~Thread: a thread that was not joined is detached.
unfoldable pub destroy : World → World
destroy w = record w {
  object = if w.object.handle then record w.object { handle = false } else w.object;
  creator = destroyed;
  alive = false;
}

-- Thread::SetName, when the function that the child runs calls it: t_thread is written through where it is
-- set.
unfoldable pub set_name : World → List ℕ → World
set_name w name = record (if w.this then touch w else w) {
  this_name = some name;
  object = if w.this then record w.object { name = name } else w.object;
}

-- The steps of both threads. pthread_join comes back when the child has ended.
pub data Step (tid : ℕ) (w : World) : World → Type 0 where
  creates : (fails : Bool) → w.creator ≡ creating → Step tid w (create w fails)
  awaits : w.creator ≡ waiting → Step tid w (await w)
  runs : Step tid w (run tid w)
  joins :
      (fails : Bool)
      → w.creator ≡ built
      → (w.object.handle ≡ true → has_ended w.child ≡ true)
      → Step tid w (join w fails).0
  destroys : w.creator ≡ built → Step tid w (destroy w)

pub data Reach (tid : ℕ) (w : World) : World → Type 0 where
  start : Reach tid w w
  next : {v u : World} → Reach tid w v → Step tid v u → Reach tid w u
