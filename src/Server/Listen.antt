-- ===== src/Server/Listen.antt =====
-- The server of corlib/main.cpp answers each connection once, and goes on listening.
use corlib.Base.{
  ℕ, zero, suc, ◌≡◌, ◌≢◌, refl, sym, ap, subst, ◌∙◌, inl, inr, Bool, true, false, Option, none,
  some, List, [], ◌∷◌, ◌++◌, get_elem?, get_elem?-set_self, get_elem?-set_ne, get_elem?-lt,
  replicate,
}
use corlib.Base.Outcome.{done}
use corlib.Callback.{Callback, read}
use corlib.Hook.Io.{eagain}
use corlib.IoManager.Mask.{Epoll, Op, Events, has}
use corlib.IoManager.Contexts.{Caller, FdContext, new_context, contexts_for}
use corlib.IoManager.{IoManager}
use corlib.IoManager.Invariant.{IsValid}
use corlib.IoManager.Resize.{Kept, contexts_for-Grown}
use corlib.IoManager.Add.{IsInside, waiting, entered, add_event_lem}
use corlib.Server.{
  Received, bytes, closed, failed, Act, receives, responds, closes, sleeps, serve, watch_read,
  test_accept,
}

-- `n` rounds in which recv has nothing yet.
abbrev pub rounds : ℕ → List Act
rounds zero = []
rounds (suc n) = receives ∷ sleeps ∷ rounds n

-- What follows the first answer that is not EAGAIN.
abbrev pub last_round : Received → List Act
last_round bytes = receives ∷ responds ∷ closes ∷ []
last_round closed = receives ∷ closes ∷ []
last_round (failed e) = receives ∷ closes ∷ []

serve-last :
    (r : Received) (rest : List Received)
    → r ≢ failed eagain
    → serve (r ∷ rest) ≡ (last_round r, true)
unfolding serve
serve-last bytes rest h = refl
serve-last closed rest h = refl
serve-last (failed eagain) rest h = absurd (h refl)
serve-last (failed e) rest h = refl

-- The handler of a connection receives and sleeps as long as recv answers EAGAIN, however often; at the
-- first other answer it sends the response if bytes have come, closes the connection, and comes back.
-- So it closes it once, and sends at most one response.
pub serve_lem :
    (n : ℕ) (r : Received) (rest : List Received)
    → r ≢ failed eagain
    → serve (replicate n (failed eagain) ++ r ∷ rest) ≡ (rounds n ++ last_round r, true)
unfolding serve
serve_lem zero r rest h = serve-last r rest h
serve_lem (suc n) r rest h =
    ap (λ (w : List Act × Bool). (receives ∷ sleeps ∷ w.0, w.1)) (serve_lem n r rest h)

module _ (epoll : Epoll)
    (sure : (k : epoll.Kernel) (op : Op) (fd : ℕ) (e : Events)
      → (epoll.ctl k op fd e).1 ≡ true) where
  open epoll use {Kernel, ctl}

  -- READ of `fd` is not registered, or it is, with the function `cb`.
  abbrev pub Unwatched : IoManager Kernel → ℕ → Type 0
  Unwatched m fd = (c : FdContext) → get_elem? m.fd_contexts fd ≡ some c → has c.events read ≡ false

  abbrev pub Watched : IoManager Kernel → ℕ → Callback → Type 0
  Watched m fd cb =
      (c : FdContext) × (get_elem? m.fd_contexts fd ≡ some c)
      × (has c.events read ≡ true)
      × (c.read_context.cb ≡ some cb)

  grown-Unwatched :
      (j : ℕ) (old new : Option FdContext)
      → Kept j old new
      → ((c : FdContext) → old ≡ some c → has c.events read ≡ false)
      → (c : FdContext) → new ≡ some c
      → has c.events read ≡ false
  grown-Unwatched j old new (inl same) h c e = h c (sym same ∙ e)
  grown-Unwatched j old new (inr (_, f)) h c e =
      let p : new_context j ≡ c = cc (f, e) in subst (λ d. has d.events read ≡ false) p refl

  Kept-some :
      (j : ℕ) (old new : Option FdContext) (c : FdContext)
      → Kept j old new
      → old ≡ some c
      → new ≡ some c
  Kept-some j old new c (inl same) e = same ∙ e
  Kept-some j old new c (inr (n, _)) e = absurd (cc)

  -- What addEvent(fd, READ, cb) leaves where READ of `fd` was not registered.
  record Watch (m : IoManager Kernel) (fd : ℕ) (cb : Callback) (m' : IoManager Kernel)
      : Type 0 where
    valid : IsValid epoll m'
    silent : m'.posted ≡ m.posted
    watched : Watched m' fd cb
    others : (j : ℕ) → j ≢ fd → Kept j (get_elem? m.fd_contexts j) (get_elem? m'.fd_contexts j)

  watch_read_lem :
      (m : IoManager Kernel) (fd : ℕ) (cb : Callback) (who : Caller)
      → IsValid epoll m
      → IsInside who
      → Unwatched m fd
      → (m' : IoManager Kernel) × (watch_read epoll m fd cb who ≡ done m') × Watch m fd cb m'
  watch_read_lem m fd cb who v h u =
      let g = contexts_for-Grown m.fd_contexts fd v.room in
      let (c, here) = get_elem?-lt (contexts_for m.fd_contexts fd) fd g.here in
      let free = grown-Unwatched fd _ _ (g.kept fd) u c here in
      let (m', r, e, a) = add_event_lem epoll m fd read (some cb) who v (λ q. absurd (cc)) h in
      let zero_r = a.accepted c here free (sure _ _ _ _) in
      elim a.answer [
        | inl (_, w) ↦
            let put = (w c here).1 in
            (
              m',
              rw e refl,
              record {
                valid = a.valid;
                silent = a.silent;
                watched = (
                  entered c read (waiting who (some cb)),
                  rw put (get_elem?-set_self _ fd _ g.here),
                  refl,
                  refl,
                );
                others = λ j ne.
                    subst (λ x. Kept j (get_elem? m.fd_contexts j) x)
                      (sym (rw put (get_elem?-set_ne _ fd j _ (λ q. ne (sym q))))) (g.kept j);
              },
            )
        | inr (bad, _) ↦ absurd (cc)
      ]

  -- `Watched m' fd` for the connection that has been accepted, where one has.
  abbrev pub Answered : IoManager Kernel → Option ℕ → (ℕ → Callback) → Type 0
  Answered m none handler = Unit
  Answered m (some fd) handler = Watched m fd (handler fd)

  -- The descriptor that accept has returned is a new one.
  abbrev pub IsNew : IoManager Kernel → ℕ → Option ℕ → Type 0
  IsNew m listen none = Unit
  IsNew m listen (some fd) = (fd ≢ listen) × Unwatched m fd

  -- test_accept, called in a running fiber while the listening descriptor is not registered for READ,
  -- on an epoll instance whose calls succeed, where accept fails or returns another descriptor that is
  -- not registered for READ: it completes, the manager stays well formed, no task is posted, the
  -- listening descriptor is registered again with test_accept, and so is the connection with its
  -- handler.
  pub accept_lem :
      (m : IoManager Kernel) (listen : ℕ) (accepted : Option ℕ) (handler : ℕ → Callback)
      (again : Callback) (who : Caller)
      → IsValid epoll m
      → IsInside who
      → Unwatched m listen
      → IsNew m listen accepted
      → (m' : IoManager Kernel) × (test_accept epoll m listen accepted handler again who ≡ done m')
        × IsValid epoll m'
        × (m'.posted ≡ m.posted)
        × Watched m' listen again
        × Answered m' accepted handler
  unfolding test_accept
  accept_lem m listen none handler again who v h u n =
      let (m', e, w) = watch_read_lem m listen again who v h u in
      (m', e, w.valid, w.silent, w.watched, tt)
  accept_lem m listen (some fd) handler again who v h u n =
      let (m₁, e₁, w₁) = watch_read_lem m fd (handler fd) who v h n.1 in
      let free = grown-Unwatched listen _ _ (w₁.others listen (λ q. n.0 (sym q))) u in
      let (m₂, e₂, w₂) = watch_read_lem m₁ listen again who w₁.valid h free in
      let (c, here, on, fn) = w₁.watched in
      (
        m₂,
        rw e₁ e₂,
        w₂.valid,
        w₂.silent ∙ w₁.silent,
        w₂.watched,
        (c, Kept-some fd _ _ c (w₂.others fd n.0) here, on, fn),
      )
