-- ===== src/FdManager/Table/Valid.antt =====
-- The well-formedness of the descriptor table of corlib/fd_manager.cpp.
use corlib.Base.{
  ℕ, ◌≤◌, ◌≡◌, inl, inr, true, false, Option, none, some, length, get_elem?, get_elem?-replicate,
  arith,
}
use corlib.FdManager.{FdCtx, FdManager, empty}

pub record CtxIsValid (fd : ℕ) (c : FdCtx) : Type 0 where
  pub same_fd : c.fd ≡ fd
  pub system : c.sys_nonblock ≡ c.is_socket
  pub known : c.is_socket ≡ true → c.is_init ≡ true
  pub not_closed : c.is_closed ≡ false

pub record IsValid (m : FdManager) : Type 0 where
  pub room : 64 ≤ length m.datas
  pub entries : (fd : ℕ) (c : FdCtx) → get_elem? m.datas fd ≡ some (some c) → CtxIsValid fd c

pub empty-IsValid : IsValid empty
unfolding empty
empty-IsValid = record {
  room = omega arith;
  entries = λ fd c e. elim (get_elem?-replicate {A = Option FdCtx} 64 none fd) [
    | inl p ↦ absurd (cc)
    | inr p ↦ absurd (cc)
  ];
}
