-- ===== src/FdManager/Calls.antt =====
-- FdManager::del, FdCtx::init, and two threads in FdManager::get (corlib/fd_manager.cpp).
use native.Mathlib.Decide.{ℕ_discrete}
use corlib.Base.{
  ℕ, ◌<◌, ◌≤◌, ◌≡◌, refl, sym, subst, ◌∙◌, ◌≢◌, inl, inr, true, false, none, some, leb, length,
  get_elem?, set, length-set, get_elem?-set_self, get_elem?-set_ne, get_elem?-some, arith,
  Bool-cases,
}
use corlib.Base.Int.{pos, negsuc}
use corlib.Base.Outcome.{done}
use corlib.FdManager.{
  Files, FdCtx, FdManager, TimeoutType, so_rcvtimeo, so_sndtimeo, set_timeout, get_timeout, init,
  make_ctx, create, lookup, del, no_timeout,
}
use corlib.FdManager.Table.{
  CtxIsValid, IsValid, created-IsValid, lookup-cases, make_ctx-IsReady, create-created, created,
  created_self,
}

deleted : FdManager → ℕ → FdManager
deleted m fd = record { datas = set m.datas fd none }

-- Deleting a descriptor leaves no context for it, keeps those of all others, and keeps the table
-- valid; for a negative descriptor, or one beyond the table, nothing changes.
pub del_lem :
    (m : FdManager) (fd : ℕ)
    → IsValid m
    → let m' = del m (pos fd) in
      IsValid m'
      × ((c : FdCtx) → get_elem? m'.datas fd ≢ some (some c))
      × ((j : ℕ) → j ≢ fd → get_elem? m'.datas j ≡ get_elem? m.datas j)
      × (length m.datas ≤ fd → m' ≡ m)
      × (del m (negsuc fd) ≡ m)
unfolding del
del_lem m fd v = elim (Bool-cases (leb (length m.datas) fd)) [
  | inl e ↦
      let out : length m.datas ≤ fd = ground arith in
      rw e (
        v,
        (λ c p. absurd (omega (arith, get_elem?-some m.datas fd (some c) p, out))),
        (λ j ne. refl),
        (λ _. refl),
        refl,
      )
  | inr e ↦
      let inside : fd < length m.datas = ground arith in
      rw e (
        record {
          room = omega (arith, length-set m.datas fd none, v.room);
          entries = λ j c p. elim (ℕ_discrete j fd) [
            | yes same ↦ absurd (
                gone inside c
                  (subst (λ i. get_elem? (set m.datas fd none) i ≡ some (some c)) same p))
            | no ne ↦ v.entries j c (sym (get_elem?-set_ne m.datas fd j none (λ q. ne (sym q))) ∙ p)
          ];
        },
        (gone inside),
        (λ j ne. get_elem?-set_ne m.datas fd j none (λ q. ne (sym q))),
        (λ h. absurd (omega arith)),
        refl,
      )
]
  where
    gone : fd < length m.datas → (c : FdCtx) → get_elem? (set m.datas fd none) fd ≢ some (some c)
    gone inside c p = let q = get_elem?-set_self m.datas fd none inside in cc

-- setTimeout and getTimeout: what is set for one direction is got for it, and the other stays.
pub get_timeout-set_timeout :
    (c : FdCtx) (type other : TimeoutType) (v : ℕ)
    → (get_timeout (set_timeout c type v) type ≡ v)
      × (other ≢ type → get_timeout (set_timeout c type v) other ≡ get_timeout c other)
unfolding get_timeout set_timeout
get_timeout-set_timeout c so_rcvtimeo so_rcvtimeo v = (refl, λ h. absurd (h refl))
get_timeout-set_timeout c so_rcvtimeo so_sndtimeo v = (refl, λ h. refl)
get_timeout-set_timeout c so_sndtimeo so_rcvtimeo v = (refl, λ h. refl)
get_timeout-set_timeout c so_sndtimeo so_sndtimeo v = (refl, λ h. absurd (h refl))

-- What a thread does to the context that it has got: setTimeout, seen through the table.
abbrev pub with_timeout : FdManager → ℕ → FdCtx → TimeoutType → ℕ → FdManager
with_timeout m fd c type ms = record { datas = set m.datas fd (some (set_timeout c type ms)) }

set_timeout-CtxIsValid :
    (fd : ℕ) (c : FdCtx) (type : TimeoutType) (ms : ℕ)
    → CtxIsValid fd c
    → CtxIsValid fd (set_timeout c type ms)
unfolding set_timeout
set_timeout-CtxIsValid fd c so_rcvtimeo ms w = record {
  same_fd = w.same_fd;
  system = w.system;
  known = w.known;
  not_closed = w.not_closed;
}
set_timeout-CtxIsValid fd c so_sndtimeo ms w = record {
  same_fd = w.same_fd;
  system = w.system;
  known = w.known;
  not_closed = w.not_closed;
}

with_timeout-IsValid :
    (m : FdManager) (fd : ℕ) (c : FdCtx) (type : TimeoutType) (ms : ℕ)
    → IsValid m
    → get_elem? m.datas fd ≡ some (some c)
    → IsValid (with_timeout m fd c type ms)
with_timeout-IsValid m fd c type ms v here = record {
  room = omega (arith, length-set m.datas fd (some (set_timeout c type ms)), v.room);
  entries = λ j d e. elim (ℕ_discrete j fd) [
    | yes same ↦
        let q : some (some (set_timeout c type ms)) ≡ some (some d) =
          sym (get_elem?-set_self m.datas fd _ (get_elem?-some m.datas fd (some c) here))
          ∙ subst (λ i. get_elem? (with_timeout m fd c type ms).datas i ≡ some (some d)) same e in
        let p : set_timeout c type ms ≡ d = cc q in
        subst (λ i. CtxIsValid i d) (sym same)
          (subst (CtxIsValid fd) p (set_timeout-CtxIsValid fd c type ms (v.entries fd c here)))
    | no ne ↦ v.entries j d (sym (get_elem?-set_ne m.datas fd j _ (λ q. ne (sym q))) ∙ e)
  ];
}

module _ (files : Files) where
  open files use {Kernel, fstat, getfl}

  -- A second init of a context that is initialised does nothing and answers true.
  init_again : (k : Kernel) (c : FdCtx) → c.is_init ≡ true → init files k c ≡ (k, c, true)
  unfolding init
  init_again k c e = rw (e, init) refl

  -- What a thread leaves that finds no context under the shared lock: one that the table holds.
  created-found :
      (k : Kernel) (m : FdManager) (fd : ℕ)
      → IsValid m
      → let r = make_ctx files k fd in lookup (created files m fd r.1) fd true ≡ some (some r.1)
  created-found k m fd v =
      let r = make_ctx files k fd in
      let here = created_self files m fd r.1 v in
      elim (lookup-cases files (created files m fd r.1) fd true) [
        | inl (d, e, l) ↦ let p : d ≡ r.1 = cc (e, here) in rw p at l
        | inr (absent, _) ↦ absurd (absent r.1 here)
      ]

  -- Two threads that ask for the context of a descriptor which the table does not hold, so that both go on
  -- from lookup to create: the first creates a context `c`, which a lookup then answers, and sets a
  -- timeout in it; the second, whenever it comes, creates another one in its place. From then on a
  -- lookup answers the second context, with no timeout and not set non-blocking: what the first thread
  -- has set is lost.
  pub create_overwrites :
      (k later : Kernel) (m : FdManager) (fd : ℕ) (type : TimeoutType) (ms : ℕ)
      → IsValid m
      → lookup m fd true ≡ none
      → (k₁ : Kernel) × (m₁ : FdManager) × (c : FdCtx) × (create files k m fd ≡ done (k₁, m₁, c))
        × (lookup m₁ fd true ≡ some (some c))
        × (k₂ : Kernel) × (m₂ : FdManager) × (d : FdCtx) × (create files later
              (with_timeout m₁ fd c type ms)
              fd
            ≡ done (k₂, m₂, d))
        × (lookup m₂ fd true ≡ some (some d))
        × (d.recv_timeout ≡ no_timeout)
        × (d.send_timeout ≡ no_timeout)
        × (d.user_nonblock ≡ false)
  create_overwrites k later m fd type ms v missed =
      let r = make_ctx files k fd in
      let s = make_ctx files later fd in
      let m₁ = created files m fd r.1 in
      let v₁ = created-IsValid files m fd r.1 v (make_ctx-IsReady files k fd).0 in
      let m' = with_timeout m₁ fd r.1 type ms in
      let v' = with_timeout-IsValid m₁ fd r.1 type ms v₁ (created_self files m fd r.1 v) in
      let (_, _, _, recv, send, user) = make_ctx-IsReady files later fd in
      (
        r.0,
        m₁,
        r.1,
        create-created files k m fd v,
        created-found k m fd v,
        s.0,
        created files m' fd s.1,
        s.1,
        create-created files later m' fd v',
        created-found later m' fd v',
        recv,
        send,
        user,
      )
