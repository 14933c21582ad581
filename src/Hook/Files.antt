-- ===== src/Hook/Files.antt =====
-- The calls of corlib/hook.cpp that read or change what the library knows of a descriptor: socket,
-- accept, fcntl, ioctl, setsockopt and close.
use corlib.Base.{
  ℕ, ◌+◌, ◌*◌, ◌/◌, ◌≡◌, refl, ap, ◌∙◌, Bool, true, false, ◌||◌, not, Option, none, some, ltb,
  if◌then◌else◌, get_elem?, set, get_elem?-set_self, get_elem?-some, arith,
}
use corlib.Base.Int.{ℤ, pos, negsuc}
use corlib.Base.Flags.{
  has_nonblock, or_nonblock, and_not_nonblock, has-or_nonblock, has-and_not_nonblock,
}
use corlib.Base.Outcome.{Outcome, done, ◌>>=◌}
use corlib.FdManager.{
  Files, FdCtx, FdManager, TimeoutType, set_timeout, get_timeout, lookup, get, del,
}
use corlib.FdManager.Table.{IsValid}
use corlib.FdManager.Calls.{get_timeout-set_timeout}
use corlib.IoManager.Mask.{Epoll}
use corlib.IoManager.{IoManager, cancel_all}

-- `FdMgr::GetInstance()->get(fd)`, which creates nothing.
unfoldable pub known : FdManager → ℕ → Option FdCtx
unfolding lookup
known m fd = elim (lookup m fd false) [ none ↦ none | some c ↦ c ]

-- A change of a context through the pointer that `get` returns.
abbrev pub put : FdManager → ℕ → FdCtx → FdManager
put m fd c = record m { datas = set m.datas fd (some c) }

-- `!ctx || ctx->isClosed() || !ctx->isSocket()`, turned round: the context, where it counts.
unfoldable pub managed : Option FdCtx → Option FdCtx
managed none = none
managed (some c) = if c.is_closed || not c.is_socket then none else some c

module _ (files : Files) where
  open files use {Kernel, getfl, setfl}

  -- fcntl(fd, F_SETFL, arg).
  unfoldable pub fcntl_setfl : Kernel → FdManager → ℕ → ℕ → Kernel × FdManager
  fcntl_setfl k m fd arg = elim (managed (known m fd)) [
    | none ↦ (setfl k fd arg, m)
    | some c ↦ (
      setfl k fd (if c.sys_nonblock then or_nonblock arg else and_not_nonblock arg),
      put m fd (record c { user_nonblock = has_nonblock arg }),
    )
  ]

  -- fcntl(fd, F_GETFL).
  unfoldable pub fcntl_getfl : Kernel → FdManager → ℕ → ℕ
  fcntl_getfl k m fd =
      let arg = getfl k fd in
      elim (managed (known m fd)) [
        | none ↦ arg
        | some c ↦ if c.user_nonblock then or_nonblock arg else and_not_nonblock arg
      ]

  -- socket, and accept after do_io: the descriptor is entered where the call has returned one.
  unfoldable pub enter : Kernel → FdManager → ℤ → Outcome (Kernel × FdManager)
  unfolding get
  enter k m (negsuc n) = done (k, m)
  enter k m (pos fd) = do r ← get files k m (pos fd) true; done (r.0, r.1)

-- `!!arg` of an int.
abbrev pub nonzero : ℤ → Bool
nonzero (pos n) = ltb 0 n
nonzero (negsuc n) = true

-- ioctl(fd, FIONBIO, &arg), but for the original call that follows in any case.
unfoldable pub ioctl_fionbio : FdManager → ℕ → ℤ → FdManager
ioctl_fionbio m fd arg = elim (managed (known m fd)) [
  | none ↦ m
  | some c ↦ put m fd (record c { user_nonblock = nonzero arg })
]

-- setsockopt(fd, SOL_SOCKET, type, {sec, usec}), likewise.
unfoldable pub setsockopt_timeout : FdManager → ℕ → TimeoutType → ℕ → ℕ → FdManager
setsockopt_timeout m fd type sec usec = elim (known m fd) [
  | none ↦ m
  | some c ↦ put m fd (set_timeout c type (sec * 1000 + usec / 1000))
]

module _ (epoll : Epoll) where
  open epoll use {Kernel}

  -- close, but for the original call: `iom` is the calling thread's IOManager, if it has one.
  unfoldable pub close :
      Option (IoManager Kernel) → FdManager → ℕ → Outcome (Option (IoManager Kernel) × FdManager)
  close iom m fd = elim (known m fd) [
    | none ↦ done (iom, m)
    | some c ↦ elim iom [
      | none ↦ done (none, del m (pos fd))
      | some io ↦ do r ← cancel_all epoll io (pos fd); done (some r.0, del m (pos fd))
    ]
  ]

pub known-here :
    (m : FdManager) (fd : ℕ) (c : FdCtx)
    → get_elem? m.datas fd ≡ some (some c)
    → known m fd ≡ some c
unfolding known lookup
known-here m fd c e = let lt = get_elem?-some m.datas fd (some c) e in ground (arith, e, lt)

managed-socket : (c : FdCtx) → c.is_closed ≡ false → c.is_socket ≡ true → managed (some c) ≡ some c
unfolding managed
managed-socket c e f = rw (e, f, managed) refl

module _ (files : Files) where
  open files use {Kernel, getfl, setfl}

  -- What the user sees of O_NONBLOCK.
  shown : Bool → ℕ → ℕ
  shown user flags = if user then or_nonblock flags else and_not_nonblock flags

  has-shown : (user : Bool) (flags : ℕ) → has_nonblock (shown user flags) ≡ user
  unfolding shown
  has-shown true flags = has-or_nonblock flags
  has-shown false flags = has-and_not_nonblock flags

  fcntl_getfl-here :
      (k : Kernel) (m : FdManager) (fd : ℕ) (c : FdCtx)
      → get_elem? m.datas fd ≡ some (some c)
      → c.is_closed ≡ false
      → c.is_socket ≡ true
      → fcntl_getfl files k m fd ≡ shown c.user_nonblock (getfl k fd)
  unfolding fcntl_getfl shown
  fcntl_getfl-here k m fd c here e s =
      rw (known-here m fd c here, managed-socket c e s, fcntl_getfl) refl

  fcntl_setfl-here :
      (k : Kernel) (m : FdManager) (fd arg : ℕ) (c : FdCtx)
      → get_elem? m.datas fd ≡ some (some c)
      → c.is_closed ≡ false
      → c.is_socket ≡ true
      → c.sys_nonblock ≡ true
      → fcntl_setfl files k m fd arg
        ≡ (setfl k fd (or_nonblock arg), put m fd (record c { user_nonblock = has_nonblock arg }))
  unfolding fcntl_setfl
  fcntl_setfl-here k m fd arg c here e s y =
      rw (known-here m fd c here, managed-socket c e s, y, fcntl_setfl) refl

  -- On a socket that the table holds, what the user sets with F_SETFL is what F_GETFL shows of
  -- O_NONBLOCK, while in the kernel the socket stays non-blocking.
  pub fcntl_getfl-fcntl_setfl :
      (k : Kernel) (m : FdManager) (fd arg : ℕ) (c : FdCtx)
      → IsValid m
      → get_elem? m.datas fd ≡ some (some c)
      → c.is_socket ≡ true
      → let (k', m') = fcntl_setfl files k m fd arg in
        (has_nonblock (fcntl_getfl files k' m' fd) ≡ has_nonblock arg)
        × (has_nonblock (getfl k' fd) ≡ true)
  fcntl_getfl-fcntl_setfl k m fd arg c v here s =
      let w = v.entries fd c here in
      let c' = record c { user_nonblock = has_nonblock arg } in
      let k' = setfl k fd (or_nonblock arg) in
      let stored =
        get_elem?-set_self m.datas fd (some c') (get_elem?-some m.datas fd (some c) here) in
      rw (fcntl_setfl-here k m fd arg c here w.not_closed s (w.system ∙ s)) (
        ap has_nonblock (fcntl_getfl-here k' (put m fd c') fd c' stored w.not_closed s)
            ∙ has-shown (has_nonblock arg) (getfl k' fd),
        files.getfl-setfl k fd (or_nonblock arg) ∙ has-or_nonblock arg,
      )

-- What setsockopt gives a descriptor of the table as SO_RCVTIMEO or SO_SNDTIMEO is the time that
-- do_io then waits for, in whole milliseconds.
pub get_timeout-setsockopt :
    (m : FdManager) (fd : ℕ) (type : TimeoutType) (sec usec : ℕ) (c : FdCtx)
    → get_elem? m.datas fd ≡ some (some c)
    → (d : FdCtx) × (known (setsockopt_timeout m fd type sec usec) fd ≡ some d)
      × (get_timeout d type ≡ sec * 1000 + usec / 1000)
unfolding setsockopt_timeout
get_timeout-setsockopt m fd type sec usec c here =
    let d = set_timeout c type (sec * 1000 + usec / 1000) in
    (
      d,
      rw (known-here m fd c here, setsockopt_timeout)
          (known-here (put m fd d) fd d
            (get_elem?-set_self m.datas fd (some d) (get_elem?-some m.datas fd (some c) here))),
      (get_timeout-set_timeout c type type _).0,
    )
