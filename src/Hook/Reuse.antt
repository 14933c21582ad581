-- ===== src/Hook/Reuse.antt =====
-- A descriptor that is closed and given out again by the kernel, through the hooks of corlib/hook.cpp on a
-- thread whose hooks are on or off.
use corlib.Base.{
  ℕ, ◌≡◌, ◌≢◌, refl, sym, ap, ◌∙◌, subst, inl, inr, Bool, true, false, Option, none, some,
  if◌then◌else◌, get_elem?, Option-cases,
}
use corlib.Base.Int.{ℤ, pos}
use corlib.Base.Flags.{has_nonblock}
use corlib.Base.Outcome.{Outcome, done, ◌>>=◌, >>=-eq-done}
use corlib.FdManager.{Files, FdCtx, FdManager, no_timeout, make_ctx, get, del}
use corlib.FdManager.Table.{
  IsValid, make_ctx-IsReady, created, created_self, created_other, create-created, lookup-cases,
}
use corlib.FdManager.Calls.{del_lem}
use corlib.FdManager.Map.{joined, joined-ext}
use corlib.IoManager.Mask.{Epoll}
use corlib.IoManager.{IoManager, cancel_all}
use corlib.Hook.Files.{known, close, enter}
use corlib.Hook.UserMode.{known-view, joined-some}

module _ (epoll : Epoll) where
  open epoll use {Kernel}

  -- close whole, but for the original call.
  unfoldable pub hooked_close :
      Bool
      → Option (IoManager Kernel)
      → FdManager
      → ℕ
      → Outcome (Option (IoManager Kernel) × FdManager)
  hooked_close enabled iom m fd = if enabled then close epoll iom m fd else done (iom, m)

module _ (files : Files) where
  open files use {Kernel, getfl}

  -- socket whole, behind the original call, which has returned the number given.
  unfoldable pub hooked_socket : Bool → Kernel → FdManager → ℤ → Outcome (Kernel × FdManager)
  hooked_socket enabled k m fd = if enabled then enter files k m fd else done (k, m)

absent-view :
    (m : FdManager) (fd : ℕ)
    → known m fd ≡ none
    → (d : FdCtx) → get_elem? m.datas fd ≢ some (some d)
absent-view m fd e d p = let q = sym (known-view m fd) ∙ e in absurd (let r = ap joined p in cc)

module _ (epoll : Epoll) where
  -- What close leaves.
  record Closed (m : FdManager) (fd : ℕ) (m' : FdManager) : Type 0 where
    valid : IsValid m'
    absent : (d : FdCtx) → get_elem? m'.datas fd ≢ some (some d)
    others : (j : ℕ) → j ≢ fd → get_elem? m'.datas j ≡ get_elem? m.datas j

  del-Closed : (m : FdManager) (fd : ℕ) → IsValid m → Closed m fd (del m (pos fd))
  del-Closed m fd v = let r = del_lem m fd v in record { valid = r.0; absent = r.1; others = r.2 }

  -- What close does for a descriptor of the table.
  abbrev cancel_and_del :
      Option (IoManager epoll.Kernel)
      → FdManager
      → ℕ
      → Outcome (Option (IoManager epoll.Kernel) × FdManager)
  cancel_and_del iom m fd = elim iom [
    | none ↦ done (none, del m (pos fd))
    | some io ↦ do r ← cancel_all epoll io (pos fd); done (some r.0, del m (pos fd))
  ]

  close-Closed :
      (iom iom' : Option (IoManager epoll.Kernel)) (m m' : FdManager) (fd : ℕ)
      → IsValid m
      → close epoll iom m fd ≡ done (iom', m')
      → Closed m fd m'
  unfolding close
  close-Closed iom iom' m m' fd v e = elim (Option-cases (known m fd)) [
    | inl n ↦
        let same : m ≡ m' = (let x = rw (n, close) at e in cc) in
        subst (Closed m fd) same
          (record { valid = v; absent = absent-view m fd n; others = λ j ne. refl })
    | inr (c, k) ↦ subst (Closed m fd) (which iom (rw (k, close) at e)) (del-Closed m fd v)
  ]
    where
      which :
          (iom : Option (IoManager epoll.Kernel))
          → cancel_and_del iom m fd ≡ done (iom', m')
          → del m (pos fd) ≡ m'
      which none e = cc
      which (some io) e = let (r, _, p) = >>=-eq-done (cancel_all epoll io (pos fd)) _ e in cc

module _ (files : Files) where
  open files use {Kernel, getfl}

  -- The table and the kernel where descriptor `fd` is new: nothing is left of what was known of it.
  pub record IsFresh (k : Kernel) (m : FdManager) (fd : ℕ) (k' : Kernel) (m' : FdManager)
      (c : FdCtx) : Type 0 where
    pub here : known m' fd ≡ some c
    pub answer : (k', c) ≡ make_ctx files k fd
    pub mode : c.user_nonblock ≡ false
    pub no_times : (c.recv_timeout ≡ no_timeout) × (c.send_timeout ≡ no_timeout)
    pub agrees : c.sys_nonblock ≡ c.is_socket
    pub set : c.is_socket ≡ true → has_nonblock (getfl k' fd) ≡ true

  socket-IsFresh :
      (k : Kernel) (m : FdManager) (fd : ℕ)
      → IsValid m
      → ((d : FdCtx) → get_elem? m.datas fd ≢ some (some d))
      → let r = make_ctx files k fd in
        (enter files k m (pos fd) ≡ done (r.0, created files m fd r.1))
        × IsFresh k m fd r.0 (created files m fd r.1) r.1
  unfolding enter get
  socket-IsFresh k m fd v absent =
      let r = make_ctx files k fd in
      let ready = make_ctx-IsReady files k fd in
      elim (lookup-cases files m fd true) [
        | inl (c, e, _) ↦ absurd (absent c e)
        | inr (_, l) ↦ (
          rw (l, get, create-created files k m fd v) refl,
          record {
            here = known-view _ fd ∙ ap joined (created_self files m fd r.1 v);
            answer = refl;
            mode = ready.5;
            no_times = (ready.3, ready.4);
            agrees = ready.0.system;
            set = ready.1;
          },
        )
      ]

-- A descriptor that a thread with hooks has closed, and that socket or accept returns again on such a
-- thread: where close completed, socket completes too, and the descriptor is known as a new one: with no
-- timeouts, in blocking mode for its user and, if it is a socket, non-blocking in the kernel and
-- recorded so. What is known of other descriptors is as before close.
pub reuse_lem :
    (epoll : Epoll) (files : Files) (iom iom' : Option (IoManager epoll.Kernel)) (m m' : FdManager)
    (k : files.Kernel) (fd j : ℕ)
    → IsValid m
    → hooked_close epoll true iom m fd ≡ done (iom', m')
    → j ≢ fd
    → (k' : files.Kernel) × (n : FdManager) × (c : FdCtx) × (hooked_socket files true k m' (pos fd)
        ≡ done (k', n))
      × IsFresh files k m' fd k' n c
      × (known n j ≡ known m j)
unfolding hooked_close hooked_socket
reuse_lem epoll files iom iom' m m' k fd j v e ne =
    let gone = close-Closed epoll iom iom' m m' fd v e in
    let r = make_ctx files k fd in
    let (p, q) = socket-IsFresh files k m' fd gone.valid gone.absent in
    let same : known (created files m' fd r.1) j ≡ known m j =
      known-view (created files m' fd r.1) j
      ∙ joined-ext _ _ (λ d. created_other files m' fd j r.1 d ne)
      ∙ ap joined (gone.others j ne)
      ∙ sym (known-view m j) in
    (r.0, created files m' fd r.1, r.1, p, q, same)

-- Where the thread that closes a descriptor of the table has its hooks off, the table keeps the context: the
-- next socket of that number gets the old mode and timeouts, and the kernel is not asked to make it
-- non-blocking.
pub reuse_stale :
    (epoll : Epoll) (files : Files) (iom : Option (IoManager epoll.Kernel)) (m : FdManager)
    (k : files.Kernel) (fd : ℕ) (c : FdCtx)
    → known m fd ≡ some c
    → (do r ← hooked_close epoll false iom m fd; hooked_socket files true k r.1 (pos fd))
      ≡ done (k, m)
unfolding hooked_close hooked_socket enter get
reuse_stale epoll files iom m k fd c e = elim (lookup-cases files m fd true) [
  | inl (d, _, l) ↦ rw (l, get) refl
  | inr (absent, _) ↦ absurd (absent c (joined-some _ c (sym (known-view m fd) ∙ e)))
]
