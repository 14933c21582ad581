-- ===== src/Hook/ModeTests.antt =====
-- Runs of the control calls of corlib/hook.cpp on a kernel that keeps the flags of each descriptor.
use corlib.Base.{
  ℕ, ◌≡◌, refl, Bool, true, false, none, some, List, [], ◌∷◌, replicate, ◌==◌, ==_iff,
  if◌then◌else◌,
}
use corlib.Base.Int.{ℤ, pos, negsuc}
use corlib.FdManager.{FdCtx, FdManager, so_rcvtimeo, set_timeout, blank, lookup}
use corlib.Hook.Files.{known, managed, nonzero, ioctl_fionbio, setsockopt_timeout}
use corlib.Base.Flags.{or_nonblock, and_not_nonblock, has-or_nonblock, has-and_not_nonblock}
use corlib.Hook.Control.{
  Control, to_fcntl, to_ioctl, to_setsockopt, f_setfl, f_getfl, fionbio, timeout, setsockopt,
  Originals, fcntl, ioctl, has_flag, or_flag, and_not_flag,
}
use corlib.Hook.UserMode.{control_all, user_mode_lem}

abbrev socket : FdCtx
socket = record (blank 1) { is_init = true; is_socket = true; sys_nonblock = true }

-- Descriptor 1 is a socket, the others are not in the table.
abbrev one_socket : FdManager
one_socket = record { datas = none ∷ some socket ∷ replicate 62 none }

abbrev Flags : Type 0
Flags = ℕ → ℤ

abbrev update_flags : Flags → ℕ → ℤ → Flags
update_flags k fd v = λ j. if fd == j then v else k j

abbrev answer : Flags → ℕ → Control → Flags × ℤ
answer k fd (to_fcntl (f_setfl arg)) = (update_flags k fd arg, pos 0)
answer k fd (to_fcntl f_getfl) = (k, k fd)
answer k fd (to_ioctl (fionbio v)) =
    (update_flags k fd (if nonzero v then or_flag (k fd) else and_not_flag (k fd)), pos 0)
answer k fd c = (k, pos 7)

abbrev flag_kernel : Originals
flag_kernel = record { Kernel = Flags; call = answer }

abbrev all_set : Flags
all_set fd = pos 0x802

-- The user sets the mode of the socket twice, and calls for another descriptor between.
abbrev some_calls : List (ℕ × Control)
some_calls =
    (1, to_fcntl (f_setfl (pos 0x800)))
    ∷ (4, to_ioctl (fionbio (pos 1)))
    ∷ (1, to_setsockopt (timeout so_rcvtimeo 2 0))
    ∷ (1, to_fcntl (f_setfl (pos 2)))
    ∷ []

user_mode_lem_example :
    let s = control_all flag_kernel true all_set one_socket some_calls in
    has_flag (fcntl flag_kernel s.0 s.1 1 f_getfl).1 ≡ false
unfolding known lookup managed fcntl setsockopt ioctl ioctl_fionbio setsockopt_timeout set_timeout
    or_flag and_not_flag or_nonblock and_not_nonblock
user_mode_lem_example =
    user_mode_lem flag_kernel true all_set one_socket some_calls 1 false 0x802 refl refl

abbrev broken : Originals
broken = record { Kernel = Unit {0}; call = λ k fd c. (k, negsuc 0) }

has-or_flag : (x : ℤ) → has_flag (or_flag x) ≡ true
unfolding or_flag
has-or_flag (pos n) = has-or_nonblock n
has-or_flag (negsuc n) = rw (has-and_not_nonblock n) refl

has-and_not_flag : (x : ℤ) → has_flag (and_not_flag x) ≡ false
unfolding and_not_flag
has-and_not_flag (pos n) = has-and_not_nonblock n
has-and_not_flag (negsuc n) = rw (has-or_nonblock n) refl

abbrev set_by : (k : Flags) (fd : ℕ) (b : Bool) → Flags
set_by k fd b = update_flags k fd (if b then or_flag (k fd) else and_not_flag (k fd))

has-set_by : (k : Flags) (fd : ℕ) (b : Bool) → has_flag (set_by k fd b fd) ≡ b
has-set_by k fd true = rw ((==_iff fd fd).1 refl) (has-or_flag (k fd))
has-set_by k fd false = rw ((==_iff fd fd).1 refl) (has-and_not_flag (k fd))
