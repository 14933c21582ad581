-- ===== src/Hook/Control.antt =====
-- fcntl, ioctl, getsockopt and setsockopt of corlib/hook.cpp with every command, over original calls that
-- answer as they like. A call says its arguments as the command takes them. Descriptors are not negative.
use corlib.Base.{ℕ, Bool, not, none, some, if◌then◌else◌}
use corlib.Base.Int.{ℤ, pos, negsuc}
use corlib.Base.Flags.{has_nonblock, or_nonblock, and_not_nonblock}
use corlib.FdManager.{FdManager, TimeoutType}
use corlib.Hook.Files.{known, put, managed, ioctl_fionbio, setsockopt_timeout}

-- `arg & O_NONBLOCK`, `arg | O_NONBLOCK` and `arg & ~O_NONBLOCK` of an int: -(n + 1) is ~n.
abbrev pub has_flag : ℤ → Bool
has_flag (pos n) = has_nonblock n
has_flag (negsuc n) = not (has_nonblock n)

unfoldable pub or_flag : ℤ → ℤ
or_flag (pos n) = pos (or_nonblock n)
or_flag (negsuc n) = negsuc (and_not_nonblock n)

unfoldable pub and_not_flag : ℤ → ℤ
and_not_flag (pos n) = pos (and_not_nonblock n)
and_not_flag (negsuc n) = negsuc (or_nonblock n)

-- The commands of fcntl by the branch of the switch that they take.
pub data IntCmd : Type 0 where
  f_dupfd f_dupfd_cloexec f_setfd f_setown f_setsig f_setlease f_notify f_setpipe_sz : IntCmd

pub data PlainCmd : Type 0 where
  f_getfd f_getown f_getsig f_getlease f_getpipe_sz : PlainCmd

pub data LockCmd : Type 0 where
  f_setlk f_setlkw f_getlk : LockCmd

pub data OwnerCmd : Type 0 where
  f_getown_ex f_setown_ex : OwnerCmd

-- What a variadic call passes behind the command; a pointer is an address.
pub data Arg : Type 0 where
  absent : Arg
  int : ℤ → Arg
  pointer : ℕ → Arg

pub data Request : Type 0 where
  f_setfl : ℤ → Request
  f_getfl : Request
  with_int : IntCmd → ℤ → Request
  plain : PlainCmd → Request
  with_lock : LockCmd → ℕ → Request
  with_owner : OwnerCmd → ℕ → Request
  f_other : ℕ → Arg → Request

-- ioctl with FIONBIO and the int that it points to, or with another request.
pub data Ioctl : Type 0 where
  fionbio : ℤ → Ioctl
  io_other : ℕ → ℕ → Ioctl

-- setsockopt at SOL_SOCKET with a timeout, or with another level or option.
pub data SockOpt : Type 0 where
  timeout : TimeoutType → ℕ → ℕ → SockOpt
  opt_other : ℕ → ℕ → ℕ → SockOpt

pub data Control : Type 0 where
  to_fcntl : Request → Control
  to_ioctl : Ioctl → Control
  to_setsockopt : SockOpt → Control
  to_getsockopt : ℕ → ℕ → Control

-- fcntl_f, ioctl_f, setsockopt_f and getsockopt_f.
pub record Originals : Type 1 where
  pub Kernel : Type 0
  pub call : Kernel → ℕ → Control → Kernel × ℤ

module _ (originals : Originals) where
  open originals use {Kernel, call}

  -- The original call, with the table left alone.
  abbrev pub pass : Kernel → FdManager → ℕ → Control → (Kernel × FdManager) × ℤ
  pass k m fd c = let (k', r) = call k fd c in ((k', m), r)

  unfoldable pub fcntl : Kernel → FdManager → ℕ → Request → (Kernel × FdManager) × ℤ
  fcntl k m fd (f_setfl arg) = elim (managed (known m fd)) [
    | none ↦ pass k m fd (to_fcntl (f_setfl arg))
    | some c ↦
        pass k (put m fd (record c { user_nonblock = has_flag arg })) fd
          (to_fcntl (f_setfl (if c.sys_nonblock then or_flag arg else and_not_flag arg)))
  ]
  fcntl k m fd f_getfl =
      let (k', arg) = call k fd (to_fcntl f_getfl) in
      (
        (k', m),
        elim (managed (known m fd)) [
          | none ↦ arg
          | some c ↦ if c.user_nonblock then or_flag arg else and_not_flag arg
        ],
      )
  fcntl k m fd (f_other n arg) = pass k m fd (to_fcntl (f_other n absent))
  fcntl k m fd request = pass k m fd (to_fcntl request)

  unfoldable pub ioctl : Kernel → FdManager → ℕ → Ioctl → (Kernel × FdManager) × ℤ
  ioctl k m fd (fionbio v) = pass k (ioctl_fionbio m fd v) fd (to_ioctl (fionbio v))
  ioctl k m fd (io_other n p) = pass k m fd (to_ioctl (io_other n p))

  -- `enabled` is t_hook_enable.
  unfoldable pub setsockopt : Bool → Kernel → FdManager → ℕ → SockOpt → (Kernel × FdManager) × ℤ
  setsockopt enabled k m fd (timeout type sec usec) =
      pass k (if enabled then setsockopt_timeout m fd type sec usec else m) fd
        (to_setsockopt (timeout type sec usec))
  setsockopt enabled k m fd o = pass k m fd (to_setsockopt o)

  -- The hooked calls.
  abbrev pub control : Bool → Kernel → FdManager → ℕ → Control → (Kernel × FdManager) × ℤ
  control enabled k m fd (to_fcntl r) = fcntl k m fd r
  control enabled k m fd (to_ioctl r) = ioctl k m fd r
  control enabled k m fd (to_setsockopt o) = setsockopt enabled k m fd o
  control enabled k m fd (to_getsockopt level name) = pass k m fd (to_getsockopt level name)
