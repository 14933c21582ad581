-- ===== src/Hook/UserMode/Modes.antt =====
-- The modes that the table of corlib/fd_manager.cpp holds, and what a write to one context does to them.
use corlib.Base.{
  ℕ, subst, ◌≡◌, refl, sym, ap, ◌∙◌, inl, inr, Bool, true, false, ◌||◌, not, Option, none, some,
  ◌==◌, if◌then◌else◌, get_elem?, get_elem?-set_self, get_elem?-set_ne, get_elem?-some,
  get_elem?-none, Bool-cases, Option-cases, ==_iff, arith,
}
use corlib.Base.Int.{pos}
use corlib.Base.Flags.{has-or_nonblock, has-and_not_nonblock}
use corlib.FdManager.{FdCtx, FdManager, TimeoutType, so_rcvtimeo, so_sndtimeo, set_timeout, lookup}
use corlib.FdManager.Map.{joined, view}
use corlib.Hook.Files.{known, put, managed, nonzero}
use corlib.Hook.Control.{
  Control, to_fcntl, to_ioctl, f_setfl, fionbio, has_flag, or_flag, and_not_flag,
}

pub known-view : (m : FdManager) (fd : ℕ) → known m fd ≡ view m fd
unfolding known lookup
known-view m fd = elim (Option-cases (get_elem? m.datas fd)) [
  | inl e ↦ let le = get_elem?-none m.datas fd e in ground (arith, e, le)
  | inr (none, e) ↦ let lt = get_elem?-some m.datas fd none e in ground (arith, e, lt)
  | inr (some c, e) ↦ let lt = get_elem?-some m.datas fd (some c) e in ground (arith, e, lt)
]

pub joined-some : (o : Option (Option FdCtx)) (c : FdCtx) → joined o ≡ some c → o ≡ some (some c)
joined-some none c e = cc
joined-some (some none) c e = cc
joined-some (some (some b)) c e = ap some e

pub known-put :
    (m : FdManager) (fd j : ℕ) (c d : FdCtx)
    → known m fd ≡ some c
    → known (put m fd d) j ≡ (if fd == j then some d else known m j)
known-put m fd j c d e =
    let here = joined-some _ c (sym (known-view m fd) ∙ e) in
    let lt = get_elem?-some m.datas fd (some c) here in
    rw (known-view (put m fd d) j, known-view m j)
      (elim (Bool-cases (fd == j)) [
        | inl same ↦
            let p : fd ≡ j = (==_iff fd j).0 same in
            rw (same, ← p) (ap joined (get_elem?-set_self m.datas fd (some d) lt))
        | inr other ↦ rw other (
            ap joined
              (get_elem?-set_ne m.datas fd j (some d) (λ p. let q = (==_iff fd j).1 p in cc)))
      ])

-- The mode that the user of a socket of the table has set.
abbrev pub mode_of : Option FdCtx → Option Bool
mode_of none = none
mode_of (some c) = some c.user_nonblock

abbrev pub mode : FdManager → ℕ → Option Bool
mode m fd = mode_of (managed (known m fd))

-- What a call means: F_SETFL and FIONBIO set the mode of a socket; nothing else does.
abbrev pub new_mode : Control → Bool → Bool
new_mode (to_fcntl (f_setfl arg)) u = has_flag arg
new_mode (to_ioctl (fionbio v)) u = nonzero v
new_mode c u = u

abbrev pub mode_after : Control → Option Bool → Option Bool
mode_after c none = none
mode_after c (some u) = some (new_mode c u)

-- The modes of all descriptors after a call on `fd`.
abbrev pub modes_after : ℕ → Control → (ℕ → Option Bool) → ℕ → Option Bool
modes_after fd c modes j = if fd == j then mode_after c (modes j) else modes j

-- A call that leaves the mode of its descriptor alone.
pub modes-same :
    (m : FdManager) (fd j : ℕ) (c : Control)
    → mode_after c (mode m fd) ≡ mode m fd
    → mode m j ≡ modes_after fd c (mode m) j
modes-same m fd j c h = elim (Bool-cases (fd == j)) [
  | inl same ↦
      let p : fd ≡ j = (==_iff fd j).0 same in
      rw same (sym (subst (λ i. mode_after c (mode m i) ≡ mode m i) p h))
  | inr other ↦ rw other refl
]

mode_after-idle :
    (c : Control) → ((u : Bool) → new_mode c u ≡ u) → (o : Option Bool) → mode_after c o ≡ o
mode_after-idle c h none = refl
mode_after-idle c h (some u) = ap some (h u)

pub modes-idle :
    (m : FdManager) (fd j : ℕ) (c : Control)
    → ((u : Bool) → new_mode c u ≡ u)
    → mode m j ≡ modes_after fd c (mode m) j
modes-idle m fd j c h = modes-same m fd j c (mode_after-idle c h (mode m fd))

-- A write to the context of `fd`.
pub modes-put :
    (m : FdManager) (fd j : ℕ) (c d : FdCtx) (call : Control)
    → known m fd ≡ some c
    → mode_of (managed (some d)) ≡ mode_after call (mode_of (managed (some c)))
    → mode (put m fd d) j ≡ modes_after fd call (mode m) j
modes-put m fd j c d call e h = rw (known-put m fd j c d e) (elim (Bool-cases (fd == j)) [
  | inl same ↦ let p : fd ≡ j = (==_iff fd j).0 same in rw (same, ← p, e) h
  | inr other ↦ rw other refl
])

pub managed-some :
    (o : Option FdCtx) (c : FdCtx)
    → managed o ≡ some c
    → (o ≡ some c) × (c.is_closed || not c.is_socket ≡ false)
unfolding managed
managed-some none c e = cc
managed-some (some b) c e = ground (arith, e)

pub set_mode :
    (m : FdManager) (fd j : ℕ) (c : FdCtx) (b : Bool) (call : Control)
    → managed (known m fd) ≡ some c
    → new_mode call c.user_nonblock ≡ b
    → mode (put m fd (record c { user_nonblock = b })) j ≡ modes_after fd call (mode m) j
unfolding managed
set_mode m fd j c b call e h =
    let (here, on) = managed-some (known m fd) c e in
    modes-put m fd j c (record c { user_nonblock = b }) call here (rw (on, h) refl)

pub set_timeout-mode :
    (c : FdCtx) (t : TimeoutType) (v : ℕ) (call : Control)
    → ((u : Bool) → new_mode call u ≡ u)
    → mode_of (managed (some (set_timeout c t v))) ≡ mode_after call (mode_of (managed (some c)))
unfolding managed set_timeout
set_timeout-mode c so_rcvtimeo v call h = elim (Bool-cases (c.is_closed || not c.is_socket)) [
  | inl e ↦ rw e refl
  | inr e ↦ rw e (ap some (sym (h c.user_nonblock)))
]
set_timeout-mode c so_sndtimeo v call h = elim (Bool-cases (c.is_closed || not c.is_socket)) [
  | inl e ↦ rw e refl
  | inr e ↦ rw e (ap some (sym (h c.user_nonblock)))
]

-- What F_GETFL shows of flags that the original call returns.
pub shows : (u : Bool) (n : ℕ) → has_flag (if u then or_flag (pos n) else and_not_flag (pos n)) ≡ u
unfolding or_flag and_not_flag
shows true n = has-or_nonblock n
shows false n = has-and_not_nonblock n
