-- ===== src/Base/Flags.antt =====
-- File status flags as fcntl reports them: a number of which the library reads and writes one bit.
use Prim.Native.Nat.{ℕ, ◌+◌, ◌-◌, ◌/◌, ◌%◌}
use mathlib.Core.Path.{◌≡◌}
use mathlib.Core.Bool.{Bool, true, false}
use native.Mathlib.Omega.{arith}
use corlib.Base.Tests.{◌==◌, if◌then◌else◌}

-- O_NONBLOCK of Linux.
abbrev pub o_nonblock : ℕ
o_nonblock = 0x800

-- `flags & O_NONBLOCK`, as a condition.
abbrev pub has_nonblock : ℕ → Bool
has_nonblock flags = flags / 0x800 % 2 == 1

-- `flags | O_NONBLOCK`.
unfoldable pub or_nonblock : ℕ → ℕ
or_nonblock flags = if has_nonblock flags then flags else flags + 0x800

-- `flags & ~O_NONBLOCK`.
unfoldable pub and_not_nonblock : ℕ → ℕ
and_not_nonblock flags = if has_nonblock flags then flags - 0x800 else flags

pub has-or_nonblock : (flags : ℕ) → has_nonblock (or_nonblock flags) ≡ true
unfolding or_nonblock
has-or_nonblock flags = ground arith

pub has-and_not_nonblock : (flags : ℕ) → has_nonblock (and_not_nonblock flags) ≡ false
unfolding and_not_nonblock
has-and_not_nonblock flags = ground arith

-- The other bits stay.
pub or-and_not_nonblock : (flags : ℕ) → or_nonblock (and_not_nonblock flags) ≡ or_nonblock flags
unfolding or_nonblock and_not_nonblock
or-and_not_nonblock flags = ground arith
