-- ===== src/Hook/UserMode.antt =====
-- The mode that the users of a socket set and see through the hooks of corlib/hook.cpp, and the mode that
-- the socket has in the kernel.
mod Modes
pub use Modes.*
use mathlib.Core.Path.{fun_ext}
use corlib.Base.{
  ℕ, ◌+◌, ◌*◌, ◌/◌, subst, ◌≡◌, ◌≢◌, refl, sym, ap, ◌∙◌, ◌⊎◌, inl, inr, Bool, true, false, ◌||◌,
  not, Option, none, some, List, [], ◌∷◌, ◌==◌, if◌then◌else◌, length, get_elem?, set, length-set,
  get_elem?-set_self, get_elem?-set_ne, get_elem?-some, get_elem?-none, Bool-cases, Option-cases,
  ==_iff, arith, ltb, leb,
}
use corlib.Base.Int.{ℤ, pos, negsuc}
use corlib.Base.Flags.{has_nonblock, or_nonblock, has-or_nonblock, has-and_not_nonblock}
use corlib.FdManager.{FdCtx, FdManager, TimeoutType, so_rcvtimeo, so_sndtimeo, set_timeout, lookup}
use corlib.FdManager.Map.{joined, view}
use corlib.Hook.Files.{known, put, managed, known-here, ioctl_fionbio, setsockopt_timeout, nonzero}
use corlib.Hook.Control.{
  Control, to_fcntl, to_ioctl, to_setsockopt, to_getsockopt, Request, f_setfl, f_getfl, with_int,
  plain, with_lock, with_owner, f_other, Ioctl, fionbio, io_other, SockOpt, timeout, opt_other,
  Originals, fcntl, ioctl, setsockopt, control, has_flag, or_flag, and_not_flag,
}

module _ (originals : Originals) where
  open originals use {Kernel, call}

  fcntl-mode :
      (k : Kernel) (m : FdManager) (fd j : ℕ) (r : Request)
      → mode (fcntl originals k m fd r).0.1 j ≡ modes_after fd (to_fcntl r) (mode m) j
  unfolding fcntl
  fcntl-mode k m fd j (f_setfl arg) = elim (Option-cases (managed (known m fd))) [
    | inl e ↦ rw (e, fcntl) (modes-same m fd j (to_fcntl (f_setfl arg)) (rw e refl))
    | inr (c, e) ↦ rw (e, fcntl) (set_mode m fd j c (has_flag arg) (to_fcntl (f_setfl arg)) e refl)
  ]
  fcntl-mode k m fd j f_getfl = modes-idle m fd j (to_fcntl f_getfl) (λ u. refl)
  fcntl-mode k m fd j (with_int c n) = modes-idle m fd j (to_fcntl (with_int c n)) (λ u. refl)
  fcntl-mode k m fd j (plain c) = modes-idle m fd j (to_fcntl (plain c)) (λ u. refl)
  fcntl-mode k m fd j (with_lock c p) = modes-idle m fd j (to_fcntl (with_lock c p)) (λ u. refl)
  fcntl-mode k m fd j (with_owner c p) = modes-idle m fd j (to_fcntl (with_owner c p)) (λ u. refl)
  fcntl-mode k m fd j (f_other n a) = modes-idle m fd j (to_fcntl (f_other n a)) (λ u. refl)

  ioctl-mode :
      (k : Kernel) (m : FdManager) (fd j : ℕ) (r : Ioctl)
      → mode (ioctl originals k m fd r).0.1 j ≡ modes_after fd (to_ioctl r) (mode m) j
  unfolding ioctl ioctl_fionbio
  ioctl-mode k m fd j (fionbio v) = elim (Option-cases (managed (known m fd))) [
    | inl e ↦ rw (e, ioctl_fionbio) (modes-same m fd j (to_ioctl (fionbio v)) (rw e refl))
    | inr (c, e) ↦
        rw (e, ioctl_fionbio) (set_mode m fd j c (nonzero v) (to_ioctl (fionbio v)) e refl)
  ]
  ioctl-mode k m fd j (io_other n p) = modes-idle m fd j (to_ioctl (io_other n p)) (λ u. refl)

  setsockopt-mode :
      (enabled : Bool) (k : Kernel) (m : FdManager) (fd j : ℕ) (o : SockOpt)
      → mode (setsockopt originals enabled k m fd o).0.1 j
        ≡ modes_after fd (to_setsockopt o) (mode m) j
  unfolding setsockopt setsockopt_timeout
  setsockopt-mode false k m fd j (timeout t s u) =
      modes-idle m fd j (to_setsockopt (timeout t s u)) (λ u. refl)
  setsockopt-mode true k m fd j (timeout t s u) = elim (Option-cases (known m fd)) [
    | inl e ↦
        rw (e, setsockopt_timeout) (modes-idle m fd j (to_setsockopt (timeout t s u)) (λ u. refl))
    | inr (c, e) ↦
        rw (e, setsockopt_timeout)
          (modes-put m fd j c (set_timeout c t (s * 1000 + u / 1000))
            (to_setsockopt (timeout t s u)) e
            (set_timeout-mode c t (s * 1000 + u / 1000) (to_setsockopt (timeout t s u))
              (λ u. refl)))
  ]
  setsockopt-mode enabled k m fd j (opt_other l n p) =
      modes-idle m fd j (to_setsockopt (opt_other l n p)) (λ u. refl)

  control-mode :
      (enabled : Bool) (k : Kernel) (m : FdManager) (fd : ℕ) (c : Control)
      → mode (control originals enabled k m fd c).0.1 ≡ modes_after fd c (mode m)
  control-mode enabled k m fd (to_fcntl r) = fun_ext (λ j. fcntl-mode k m fd j r)
  control-mode enabled k m fd (to_ioctl r) = fun_ext (λ j. ioctl-mode k m fd j r)
  control-mode enabled k m fd (to_setsockopt o) = fun_ext (λ j. setsockopt-mode enabled k m fd j o)
  control-mode enabled k m fd (to_getsockopt l n) =
      fun_ext (λ j. modes-idle m fd j (to_getsockopt l n) (λ u. refl))

  -- Calls in sequence, each with its descriptor, and what they mean.
  abbrev pub control_all : Bool → Kernel → FdManager → List (ℕ × Control) → Kernel × FdManager
  control_all enabled k m [] = (k, m)
  control_all enabled k m ((fd, c) ∷ cs) =
      let s = (control originals enabled k m fd c).0 in control_all enabled s.0 s.1 cs

  abbrev pub modes_all : List (ℕ × Control) → (ℕ → Option Bool) → ℕ → Option Bool
  modes_all [] modes = modes
  modes_all ((fd, c) ∷ cs) modes = modes_all cs (modes_after fd c modes)

  control_all-mode :
      (enabled : Bool) (k : Kernel) (m : FdManager) (cs : List (ℕ × Control))
      → mode (control_all enabled k m cs).1 ≡ modes_all cs (mode m)
  control_all-mode enabled k m [] = refl
  control_all-mode enabled k m ((fd, c) ∷ cs) =
      let s = (control originals enabled k m fd c).0 in
      control_all-mode enabled s.0 s.1 cs ∙ ap (modes_all cs) (control-mode enabled k m fd c)

  shown-mode :
      (m : FdManager) (fd : ℕ) (k : Kernel) (u : Bool) (n : ℕ)
      → mode m fd ≡ some u
      → (call k fd (to_fcntl f_getfl)).1 ≡ pos n
      → has_flag (fcntl originals k m fd f_getfl).1 ≡ u
  unfolding fcntl or_flag and_not_flag
  shown-mode m fd k u n e p = elim (Option-cases (managed (known m fd))) [
    | inl x ↦ absurd (let y = ap mode_of x in cc)
    | inr (c, x) ↦
        let same : c.user_nonblock ≡ u = cc (e, ap mode_of x) in
        rw (x, p, fcntl) (shows c.user_nonblock n ∙ same)
  ]

  -- After any sequence of calls of fcntl, ioctl, setsockopt and getsockopt, on any descriptors, where
  -- `u` is the mode of a socket of the table that follows from the modes before when only F_SETFL and
  -- FIONBIO set one, each that of its own descriptor: F_GETFL, when the original call succeeds, shows
  -- O_NONBLOCK exactly if `u` is true, whatever mode the socket has in the kernel.
  pub user_mode_lem :
      (enabled : Bool) (k : Kernel) (m : FdManager) (cs : List (ℕ × Control)) (fd : ℕ) (u : Bool)
      (n : ℕ)
      → modes_all cs (mode m) fd ≡ some u
      → let s = control_all enabled k m cs in
        (call s.0 fd (to_fcntl f_getfl)).1 ≡ pos n
        → has_flag (fcntl originals s.0 s.1 fd f_getfl).1 ≡ u
  user_mode_lem enabled k m cs fd u n h p =
      let s = control_all enabled k m cs in
      shown-mode s.1 fd s.0 u n
        (ap (λ (f : ℕ → Option Bool). f fd) (control_all-mode enabled k m cs) ∙ h) p

  -- F_GETFL on a socket of the table that its user holds for blocking, where the original call fails
  -- with -1: the hooked call returns -2049 instead, since it clears O_NONBLOCK in the answer.
  pub fcntl_getfl_error :
      (k : Kernel) (m : FdManager) (fd : ℕ)
      → mode m fd ≡ some false
      → (call k fd (to_fcntl f_getfl)).1 ≡ negsuc 0
      → (fcntl originals k m fd f_getfl).1 ≡ negsuc 2048
  unfolding fcntl and_not_flag or_nonblock
  fcntl_getfl_error k m fd e p = elim (Option-cases (managed (known m fd))) [
    | inl x ↦ absurd (let y = ap mode_of x in cc)
    | inr (c, x) ↦
        let same : c.user_nonblock ≡ false = cc (e, ap mode_of x) in rw (x, p, same, fcntl) refl
  ]

  -- Where FIONBIO sets the mode that a socket has in the kernel, as the original ioctl does, a call with
  -- 0 on a socket that the table holds leaves it blocking in the kernel, while the table still holds it
  -- for non-blocking there.
  pub ioctl_blocks :
      (nonblocking : Kernel → ℕ → Bool) (k : Kernel) (m : FdManager) (fd : ℕ) (c : FdCtx)
      → ((k : Kernel) (fd : ℕ) (v : ℤ)
          → nonblocking (call k fd (to_ioctl (fionbio v))).0 fd ≡ nonzero v)
      → managed (known m fd) ≡ some c
      → c.sys_nonblock ≡ true
      → let s = (ioctl originals k m fd (fionbio (pos 0))).0 in
        (nonblocking s.0 fd ≡ false)
        × (d : FdCtx) × (known s.1 fd ≡ some d)
        × (d.sys_nonblock ≡ true)
  unfolding ioctl ioctl_fionbio
  ioctl_blocks nonblocking k m fd c sets e sys =
      let d = record c { user_nonblock = false } in
      let here = (managed-some (known m fd) c e).0 in
      (
        sets k fd (pos 0),
        d,
        rw (e, ioctl_fionbio) (known-put m fd fd c d here ∙ rw ((==_iff fd fd).1 refl) refl),
        sys,
      )
