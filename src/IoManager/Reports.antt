-- ===== src/IoManager/Reports.antt =====
-- The loop of IOManager::idle over what epoll_wait reports, in corlib/ioscheduler.cpp.
use corlib.Base.{
  ℕ, ◌≡◌, ◌≢◌, refl, sym, ap, subst, ◌∙◌, ◌⊎◌, inl, inr, Bool, Option, some, List, [], ◌∷◌,
  get_elem?, get_elem?-set_self, get_elem?-set_ne, get_elem?-some, Bool-cases,
}
use corlib.Base.Outcome.{done}
use corlib.IoManager.Mask.{Events, Epoll, both, is_none, minus}
use corlib.IoManager.Contexts.{FdContext}
use corlib.IoManager.Fire.{cleared}
use corlib.IoManager.{IoManager, real_events, keep_only}
use corlib.IoManager.Invariant.{IsValid}
use corlib.IoManager.Remove.{Within, Handled}
use corlib.IoManager.Calls.{handle_lem}
use corlib.IoManager.Round.{Report, tickled, on, handle_all}

-- No report is about descriptor `fd`.
abbrev pub Absent : ℕ → List Report → Type 0
Absent fd [] = Unit
Absent fd (tickled ∷ rest) = Absent fd rest
Absent fd (on j reported broken ∷ rest) = (fd ≢ j) × Absent fd rest

-- What epoll reports: each descriptor at most once, with EPOLLIN and EPOLLOUT for registered events.
abbrev pub Reported : List FdContext → List Report → Type 0
Reported cs [] = Unit
Reported cs (tickled ∷ rest) = Reported cs rest
Reported cs (on fd reported broken ∷ rest) =
    ((c : FdContext) × (get_elem? cs fd ≡ some c) × Within reported c.events)
    × Absent fd rest
    × Reported cs rest

-- The reported events of `c` were triggered, or nothing was done.
abbrev pub Fate : FdContext → Events → Bool → Option FdContext → Type 0
Fate c reported broken after =
    (after ≡ some c) ⊎ (after ≡ some (cleared c (real_events c reported broken)))

-- What became of each descriptor of the reports.
abbrev pub Fates : List FdContext → List Report → List FdContext → Type 0
Fates cs [] after = Unit
Fates cs (tickled ∷ rest) after = Fates cs rest after
Fates cs (on fd reported broken ∷ rest) after =
    ((c : FdContext) × (get_elem? cs fd ≡ some c) × Fate c reported broken (get_elem? after fd))
    × Fates cs rest after

-- The two tables agree on the descriptors of the reports.
Reported-ext :
    (cs ds : List FdContext) (rs : List Report) (fd : ℕ)
    → ((j : ℕ) → j ≢ fd → get_elem? ds j ≡ get_elem? cs j)
    → Absent fd rs
    → Reported cs rs
    → Reported ds rs
Reported-ext cs ds [] fd f a h = tt
Reported-ext cs ds (tickled ∷ rs) fd f a h = Reported-ext cs ds rs fd f a h
Reported-ext cs ds (on j reported broken ∷ rs) fd f a h =
    let ((c, here, w), b, more) = h in
    ((c, f j (λ e. a.0 (sym e)) ∙ here, w), b, Reported-ext cs ds rs fd f a.1 more)

Fates-ext :
    (cs ds after : List FdContext) (rs : List Report) (fd : ℕ)
    → ((j : ℕ) → j ≢ fd → get_elem? ds j ≡ get_elem? cs j)
    → Absent fd rs
    → Fates ds rs after
    → Fates cs rs after
Fates-ext cs ds after [] fd f a h = tt
Fates-ext cs ds after (tickled ∷ rs) fd f a h = Fates-ext cs ds after rs fd f a h
Fates-ext cs ds after (on j reported broken ∷ rs) fd f a h =
    let ((c, here, w), more) = h in
    ((c, sym (f j (λ e. a.0 (sym e))) ∙ here, w), Fates-ext cs ds after rs fd f a.1 more)

module _ (epoll : Epoll) where
  open epoll use {Kernel}

  -- The reports are handled one after the other, each with the whole effect of its events on the
  -- manager that the reports before it have left.
  abbrev pub Served : IoManager Kernel → List Report → IoManager Kernel → Type 0
  Served m [] m' = m' ≡ m
  Served m (tickled ∷ rest) m' = Served m rest m'
  Served m (on fd reported broken ∷ rest) m' =
      (c : FdContext) × (n : IoManager Kernel) × (get_elem? m.fd_contexts fd ≡ some c)
      × Handled epoll m fd c (real_events c reported broken)
          (keep_only epoll m.epoll fd (minus c.events (real_events c reported broken))).1 n
      × Served n rest m'

  pub record AllHandled (m : IoManager Kernel) (rs : List Report) (m' : IoManager Kernel)
      : Type 0 where
    pub valid : IsValid epoll m'
    pub served : Served m rs m'
    pub fates : Fates m.fd_contexts rs m'.fd_contexts
    pub others : (fd : ℕ) → Absent fd rs → get_elem? m'.fd_contexts fd ≡ get_elem? m.fd_contexts fd

  -- One report changes at most the context of its descriptor, and how.
  Handled-Fate :
      (m : IoManager Kernel) (fd : ℕ) (c : FdContext) (reported : Events) (broken ok : Bool)
      (m' : IoManager Kernel)
      → get_elem? m.fd_contexts fd ≡ some c
      → Handled epoll m fd c (real_events c reported broken) ok m'
      → Fate c reported broken (get_elem? m'.fd_contexts fd)
        × ((j : ℕ) → j ≢ fd → get_elem? m'.fd_contexts j ≡ get_elem? m.fd_contexts j)
  Handled-Fate m fd c reported broken ok m' here h =
      elim (Bool-cases (is_none (both c.events (real_events c reported broken)))) [
        | inl e ↦ kept (ap (λ x. x.fd_contexts) (h.idle e))
        | inr e ↦ elim (Bool-cases ok) [
          | inl o ↦
              let q = (h.triggered e o).0 in
              (
                inr (rw q (get_elem?-set_self m.fd_contexts fd _ (get_elem?-some _ fd c here))),
                λ j ne. rw q (get_elem?-set_ne m.fd_contexts fd j _ (λ k. ne (sym k))),
              )
          | inr f ↦ kept (h.failed f).0
        ]
      ]
    where
      kept :
          m'.fd_contexts ≡ m.fd_contexts
          → Fate c reported broken (get_elem? m'.fd_contexts fd)
            × ((j : ℕ) → j ≢ fd → get_elem? m'.fd_contexts j ≡ get_elem? m.fd_contexts j)
      kept q = (inl (rw q here), λ j ne. rw q refl)

  -- When epoll reports each descriptor at most once, and EPOLLIN and EPOLLOUT for registered events only,
  -- the loop over the reports ends without a fault and keeps the invariant. Of each reported descriptor
  -- exactly the events that are meant were triggered, or its context is as it was; the contexts of all
  -- other descriptors are as they were.
  pub handle_all_lem :
      (m : IoManager Kernel) (rs : List Report)
      → IsValid epoll m
      → Reported m.fd_contexts rs
      → (m' : IoManager Kernel) × (handle_all epoll m rs ≡ done m') × AllHandled m rs m'
  unfolding handle_all
  handle_all_lem m [] v h =
      (m, refl, record { valid = v; served = refl; fates = tt; others = λ fd a. refl })
  handle_all_lem m (tickled ∷ rs) v h =
      let (m', e, k) = handle_all_lem m rs v h in
      (m', e, record { valid = k.valid; served = k.served; fates = k.fates; others = k.others })
  handle_all_lem m (on fd reported broken ∷ rs) v h =
      let ((c, here, w), absent, more) = h in
      let (n, e, k) = handle_lem epoll m fd c reported broken v here w in
      let (fate, apart) = Handled-Fate m fd c reported broken _ n here k in
      let (m', e', k') =
        handle_all_lem n rs k.valid
          (Reported-ext m.fd_contexts n.fd_contexts rs fd apart absent more) in
      (
        m',
        rw (e, handle_all) e',
        record {
          valid = k'.valid;
          served = (c, n, here, k, k'.served);
          fates = (
            (c, here, subst (Fate c reported broken) (sym (k'.others fd absent)) fate),
            Fates-ext m.fd_contexts n.fd_contexts m'.fd_contexts rs fd apart absent k'.fates,
          );
          others = λ j a. k'.others j a.1 ∙ apart j a.0;
        },
      )
