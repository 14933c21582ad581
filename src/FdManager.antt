-- ===== src/FdManager.antt =====
-- corlib/fd_manager.h and corlib/fd_manager.cpp: what the library knows of a file descriptor, and the
-- table of all descriptors. fstat and the original fcntl are parameters (`Files`).
pub mod Grow
pub mod Table
pub mod Calls
pub mod Map
pub mod Instance
pub mod Tests
use corlib.Base.{
  ℕ, zero, suc, ◌-◌, ◌*◌, ◌/◌, ◌^◌, ◌≡◌, Bool, true, false, ◌||◌, not, Option, none, some, List,
  ◌++◌, ltb, leb, if◌then◌else◌, is_some, length, get_elem?, set, take, replicate,
}
use corlib.Base.Int.{ℤ, pos, negsuc}
use corlib.Base.Flags.{has_nonblock, or_nonblock}
use corlib.Base.Outcome.{Outcome, done, fault, out_of_range}

-- What the kernel does for descriptors. `fstat` is none where it returns -1, and otherwise
-- S_ISSOCK(st_mode); `getfl` and `setfl` are fcntl(fd, F_GETFL) and fcntl(fd, F_SETFL, flags).
pub record Files : Type 1 where
  pub Kernel : Type 0
  pub fstat : Kernel → ℕ → Option Bool
  pub getfl : Kernel → ℕ → ℕ
  pub setfl : Kernel → ℕ → ℕ → Kernel
  pub getfl-setfl :
      (k : Kernel) (fd flags : ℕ) → has_nonblock (getfl (setfl k fd flags) fd) ≡ has_nonblock flags
  pub fstat-setfl : (k : Kernel) (fd flags j : ℕ) → fstat (setfl k fd flags) j ≡ fstat k j

-- class FdCtx.
pub record FdCtx : Type 0 where
  pub is_init : Bool
  pub is_socket : Bool
  pub sys_nonblock : Bool
  pub user_nonblock : Bool
  pub is_closed : Bool
  pub fd : ℕ
  pub recv_timeout : ℕ
  pub send_timeout : ℕ

-- `(uint64_t)-1`.
abbrev pub no_timeout : ℕ
no_timeout = 2 ^ 64 - 1

-- The initialisers of FdCtx's members.
abbrev pub blank : ℕ → FdCtx
blank fd = record {
  is_init = false;
  is_socket = false;
  sys_nonblock = false;
  user_nonblock = false;
  is_closed = false;
  fd = fd;
  recv_timeout = no_timeout;
  send_timeout = no_timeout;
}

-- What fstat says.
stat_ctx : Option Bool → FdCtx → FdCtx
stat_ctx none c = record c { is_init = false; is_socket = false }
stat_ctx (some sock) c = record c { is_init = true; is_socket = sock }

module _ (files : Files) where
  open files use {Kernel, fstat, getfl, setfl}

  -- The last part of FdCtx::init: a socket is made non-blocking.
  init_socket : Kernel → FdCtx → Kernel × FdCtx
  init_socket k c =
      let flags = getfl k c.fd in
      if c.is_socket
      then (
        if has_nonblock flags then k else setfl k c.fd (or_nonblock flags),
        record c { sys_nonblock = true },
      )
      else (k, record c { sys_nonblock = false })

  -- FdCtx::init, with its answer.
  unfoldable pub init : Kernel → FdCtx → Kernel × FdCtx × Bool
  unfolding init_socket stat_ctx
  init k c =
      let (k', c') = init_socket k (stat_ctx (fstat k c.fd) c) in
      if c.is_init then (k, c, true) else (k', c', c'.is_init)

  -- FdCtx::FdCtx.
  unfoldable pub make_ctx : Kernel → ℕ → Kernel × FdCtx
  unfolding init
  make_ctx k fd = let (k', c, _) = init k (blank fd) in (k', c)

-- The `type` of setTimeout: SO_RCVTIMEO, or any other.
pub data TimeoutType : Type 0 where
  so_rcvtimeo so_sndtimeo : TimeoutType

-- FdCtx::setTimeout and FdCtx::getTimeout.
unfoldable pub set_timeout : FdCtx → TimeoutType → ℕ → FdCtx
set_timeout c so_rcvtimeo v = record c { recv_timeout = v }
set_timeout c so_sndtimeo v = record c { send_timeout = v }

unfoldable pub get_timeout : FdCtx → TimeoutType → ℕ
get_timeout c so_rcvtimeo = c.recv_timeout
get_timeout c so_sndtimeo = c.send_timeout

-- class FdManager: `m_datas`, with none for a null pointer.
pub record FdManager : Type 0 where
  pub datas : List (Option FdCtx)

-- `vector::resize(n)`.
unfoldable pub resize {ℓ} : {A : Type ℓ} → ℕ → A → List A → List A
resize n a xs = take n xs ++ replicate (n - length xs) a

-- FdManager::FdManager.
unfoldable pub empty : FdManager
empty = record { datas = replicate 64 none }

-- What FdManager::get does under the shared lock: `some` is its answer; none sends it on to `create`.
unfoldable pub lookup : FdManager → ℕ → Bool → Option (Option FdCtx)
lookup m fd auto_create =
    if leb (length m.datas) fd
    then (if not auto_create then some none else none)
    else elim (get_elem? m.datas fd) [
      | none ↦ none
      | some c ↦ if is_some c || not auto_create then some c else none
    ]

-- The vector after the resizing of FdManager::get; the size fd * 1.5 is cut to a whole number.
unfoldable pub grown : List (Option FdCtx) → ℕ → List (Option FdCtx)
grown datas fd = if leb (length datas) fd then resize (fd * 3 / 2) none datas else datas

-- `m_datas[fd] = c`.
store : List (Option FdCtx) → ℕ → FdCtx → Outcome FdManager
store datas fd c =
    if ltb fd (length datas)
    then done (record { datas = set datas fd (some c) })
    else fault out_of_range

module _ (files : Files) where
  open files use {Kernel}

  -- What FdManager::get does under the unique lock.
  unfoldable pub create : Kernel → FdManager → ℕ → Outcome (Kernel × FdManager × FdCtx)
  unfolding store
  create k m fd =
      let (k', c) = make_ctx files k fd in
      elim (store (grown m.datas fd) fd c) [ done m' ↦ done (k', m', c) | fault e ↦ fault e ]

  -- FdManager::get. A negative descriptor compares as a huge unsigned number with the size, and
  -- becomes no vector's size.
  unfoldable pub get : Kernel → FdManager → ℤ → Bool → Outcome (Kernel × FdManager × Option FdCtx)
  get k m (negsuc zero) auto_create = done (k, m, none)
  get k m (negsuc (suc n)) auto_create =
      if not auto_create then done (k, m, none) else fault out_of_range
  get k m (pos fd) auto_create = elim (lookup m fd auto_create) [
    | some c ↦ done (k, m, c)
    | none ↦ elim (create k m fd) [ done r ↦ done (r.0, r.1, some r.2) | fault e ↦ fault e ]
  ]

-- FdManager::del. A negative descriptor is out of range like a huge one.
unfoldable pub del : FdManager → ℤ → FdManager
del m (negsuc n) = m
del m (pos fd) = if leb (length m.datas) fd then m else record m { datas = set m.datas fd none }
