-- ===== src/FdManager/Table/Fresh.antt =====
-- The contexts that corlib/fd_manager.cpp makes for a descriptor.
use corlib.Base.{
  ℕ, ◌≡◌, refl, ◌∙◌, inl, inr, Bool, true, false, Option, none, some, if◌then◌else◌, Bool-cases,
}
use corlib.Base.Flags.{has_nonblock, or_nonblock, has-or_nonblock}
use corlib.FdManager.Table.Valid.{CtxIsValid}
use corlib.FdManager.{no_timeout, Files, FdCtx, make_ctx, blank, init_socket, stat_ctx}

module _ (files : Files) where
  open files use {Kernel, fstat, getfl, setfl}

  abbrev pub IsReady : Kernel → ℕ → Kernel × FdCtx → Type 0
  IsReady k fd r =
      CtxIsValid fd r.1
      × ((r.1.is_socket ≡ true) → has_nonblock (getfl r.0 fd) ≡ true)
      × ((r.1.is_socket ≡ false) → r.0 ≡ k)
      × (r.1.recv_timeout ≡ no_timeout)
      × (r.1.send_timeout ≡ no_timeout)
      × (r.1.user_nonblock ≡ false)

  init_socket-IsReady :
      (k : Kernel) (fd : ℕ) (s : Option Bool)
      → IsReady k fd (init_socket files k (stat_ctx s (blank fd)))
  unfolding init_socket stat_ctx
  init_socket-IsReady k fd none = (
    record { same_fd = refl; system = refl; known = λ e. cc; not_closed = refl },
    λ e. cc,
    λ e. refl,
    refl,
    refl,
    refl,
  )
  init_socket-IsReady k fd (some false) = (
    record { same_fd = refl; system = refl; known = λ e. cc; not_closed = refl },
    λ e. cc,
    λ e. refl,
    refl,
    refl,
    refl,
  )
  init_socket-IsReady k fd (some true) = (
    record { same_fd = refl; system = refl; known = λ e. refl; not_closed = refl },
    λ e. flags,
    λ e. absurd (cc),
    refl,
    refl,
    refl,
  )
    where
      flags :
          has_nonblock (
            getfl
              (if has_nonblock (getfl k fd) then k else setfl k fd (or_nonblock (getfl k fd)))
              fd)
          ≡ true
      flags = elim (Bool-cases (has_nonblock (getfl k fd))) [
        | inl e ↦ rw e e
        | inr e ↦ rw e (files.getfl-setfl k fd _ ∙ has-or_nonblock (getfl k fd))
      ]

  -- A new context: it is a socket exactly as fstat says, and then the descriptor is non-blocking in
  -- the kernel and recorded so; for anything else the kernel's flags are left alone. It has no
  -- timeouts, and the user has not set it non-blocking.
  pub make_ctx-IsReady : (k : Kernel) (fd : ℕ) → IsReady k fd (make_ctx files k fd)
  unfolding make_ctx
  make_ctx-IsReady k fd = init_socket-IsReady k fd (fstat k fd)
