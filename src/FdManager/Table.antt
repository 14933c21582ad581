-- ===== src/FdManager/Table.antt =====
-- The table of descriptors of corlib/fd_manager.cpp: no access is out of range, and the table is a map
-- from descriptors to contexts.
mod Fresh
mod Valid
pub use Valid.*
pub use Fresh.*
use corlib.Base.{
  ℕ, ◌≤◌, ◌≡◌, refl, sym, subst, ◌∙◌, ◌≢◌, ◌↔◌, ◌⊎◌, inl, inr, Bool, true, false, Option, none,
  some, lt→ltb, if◌then◌else◌, length, get_elem?, set, length-set, get_elem?-set_self,
  get_elem?-set_ne, get_elem?-replicate, get_elem?-none, get_elem?-some, arith, Bool-cases,
  Option-cases,
}
use native.Mathlib.Decide.{ℕ_discrete}
use corlib.Base.Int.{pos}
use corlib.Base.Outcome.{done}
use corlib.Base.Flags.{has_nonblock, or_nonblock, has-or_nonblock}
use corlib.FdManager.Grow.{length-grown, get_elem?-grown}
use corlib.FdManager.{
  no_timeout, grown, Files, FdCtx, FdManager, make_ctx, empty, lookup, store, create, get, blank,
  init_socket, stat_ctx,
}

module _ (files : Files) where
  open files use {Kernel, fstat, getfl, setfl}

  -- What `create` does where the vector has its 64 places.
  pub created : FdManager → ℕ → FdCtx → FdManager
  created m fd c = record { datas = set (grown m.datas fd) fd (some c) }

  pub create-created :
      (k : Kernel) (m : FdManager) (fd : ℕ)
      → IsValid m
      → let r = make_ctx files k fd in create files k m fd ≡ done (r.0, created m fd r.1, r.1)
  unfolding create created
  create-created k m fd v = rw (lt→ltb _ _ (length-grown m.datas fd v.room).0, create, store) refl

  pub created_other :
      (m : FdManager) (fd j : ℕ) (c d : FdCtx)
      → j ≢ fd
      → (get_elem? (created m fd c).datas j ≡ some (some d)) ↔ (get_elem? m.datas j ≡ some (some d))
  unfolding created
  created_other m fd j c d ne =
      rw (get_elem?-set_ne (grown m.datas fd) fd j (some c) (λ e. ne (sym e)))
        (get_elem?-grown m.datas fd j d)

  pub created_self :
      (m : FdManager) (fd : ℕ) (c : FdCtx)
      → IsValid m
      → get_elem? (created m fd c).datas fd ≡ some (some c)
  unfolding created
  created_self m fd c v =
      get_elem?-set_self (grown m.datas fd) fd (some c) (length-grown m.datas fd v.room).0

  pub created-IsValid :
      (m : FdManager) (fd : ℕ) (c : FdCtx) → IsValid m → CtxIsValid fd c → IsValid (created m fd c)
  created-IsValid m fd c v w = record {
    room =
        unfold created in
        omega (
          arith,
          length-set (grown m.datas fd) fd (some c),
          length-grown m.datas fd v.room,
          v.room,
        );
    entries = λ j d e. elim (ℕ_discrete j fd) [
      | yes same ↦
          let q : some (some c) ≡ some (some d) =
            sym (created_self m fd c v)
            ∙ subst (λ i. get_elem? (created m fd c).datas i ≡ some (some d)) same e in
          let p : c ≡ d = cc q in subst (λ i. CtxIsValid i d) (sym same) (subst (CtxIsValid fd) p w)
      | no ne ↦ v.entries j d ((created_other m fd j c d ne).0 e)
    ];
  }

  pub lookup-cases :
      (m : FdManager) (fd : ℕ) (auto_create : Bool)
      → ((c : FdCtx) × (get_elem? m.datas fd ≡ some (some c))
          × (lookup m fd auto_create ≡ some (some c)))
        ⊎ (((d : FdCtx) → get_elem? m.datas fd ≢ some (some d))
            × (lookup m fd auto_create ≡ (if auto_create then none else some none)))
  unfolding lookup
  lookup-cases m fd auto_create = elim (Option-cases (get_elem? m.datas fd)) [
    | inl e ↦ inr (ground arith, ground (arith, get_elem?-none m.datas fd e))
    | inr (none, e) ↦ inr (ground arith, ground (arith, get_elem?-some m.datas fd none e))
    | inr (some c, e) ↦ inl (c, e, ground (arith, get_elem?-some m.datas fd (some c) e))
  ]

  -- What a call of `get` leaves: the new kernel state and table, and the answer.
  pub record Got (k : Kernel) (m : FdManager) (fd : ℕ) (auto_create : Bool) (k' : Kernel)
      (m' : FdManager) (r : Option FdCtx) : Type 0 where
    pub valid : IsValid m'
    pub answer : (c : FdCtx) → (r ≡ some c) ↔ (get_elem? m'.datas fd ≡ some (some c))
    pub made : auto_create ≡ true → r ≢ none
    pub unmade : auto_create ≡ false → m' ≡ m
    pub others :
        (j : ℕ) (c : FdCtx)
        → j ≢ fd
        → (get_elem? m'.datas j ≡ some (some c)) ↔ (get_elem? m.datas j ≡ some (some c))
    pub kept : (c : FdCtx) → get_elem? m.datas fd ≡ some (some c) → m' ≡ m

  found-Got :
      (k : Kernel) (m : FdManager) (fd : ℕ) (auto_create : Bool) (c : FdCtx)
      → IsValid m
      → get_elem? m.datas fd ≡ some (some c)
      → Got k m fd auto_create k m (some c)
  found-Got k m fd auto_create c v e = record {
    valid = v;
    answer = λ d. ((λ p. cc), (λ p. cc));
    made = λ _ p. cc;
    unmade = λ _. refl;
    others = λ j d ne. ((λ p. p), (λ p. p));
    kept = λ d p. refl;
  }

  absent-Got :
      (k : Kernel) (m : FdManager) (fd : ℕ)
      → IsValid m
      → ((d : FdCtx) → get_elem? m.datas fd ≢ some (some d))
      → Got k m fd false k m none
  absent-Got k m fd v absent = record {
    valid = v;
    answer = λ d. ((λ p. cc), (λ p. absurd (absent d p)));
    made = λ p. cc;
    unmade = λ _. refl;
    others = λ j d ne. ((λ p. p), (λ p. p));
    kept = λ d p. refl;
  }

  created-Got :
      (k k' : Kernel) (m : FdManager) (fd : ℕ) (c : FdCtx)
      → IsValid m
      → CtxIsValid fd c
      → ((d : FdCtx) → get_elem? m.datas fd ≢ some (some d))
      → Got k m fd true k' (created m fd c) (some c)
  created-Got k k' m fd c v w absent =
      let here = created_self m fd c v in
      record {
        valid = created-IsValid m fd c v w;
        answer = λ d. ((λ p. cc), (λ p. cc));
        made = λ _ p. cc;
        unmade = λ p. cc;
        others = λ j d ne. created_other m fd j c d ne;
        kept = λ d p. absurd (absent d p);
      }

  -- For a descriptor that is not negative `get` never indexes out of range. With auto_create it returns
  -- the context that the table then holds for the descriptor: the one that was there, in an unchanged
  -- table, or a new one. Without, it returns what the table holds and leaves the table alone. The
  -- contexts of all other descriptors stay as they were, and the table stays valid.
  pub get_lem :
      (k : Kernel) (m : FdManager) (fd : ℕ) (auto_create : Bool)
      → IsValid m
      → (k' : Kernel) × (m' : FdManager) × (r : Option FdCtx) × (get files k m (pos fd) auto_create
          ≡ done (k', m', r))
        × Got k m fd auto_create k' m' r
  unfolding get
  get_lem k m fd auto_create v = by_lookup auto_create (lookup-cases m fd auto_create)
    where
      by_lookup :
          (auto : Bool)
          → ((c : FdCtx) × (get_elem? m.datas fd ≡ some (some c))
              × (lookup m fd auto ≡ some (some c)))
            ⊎ (((d : FdCtx) → get_elem? m.datas fd ≢ some (some d))
                × (lookup m fd auto ≡ (if auto then none else some none)))
          → (k' : Kernel) × (m' : FdManager) × (r : Option FdCtx) × (get files k m (pos fd) auto
              ≡ done (k', m', r))
            × Got k m fd auto k' m' r
      by_lookup auto (inl (c, e, l)) = (k, m, some c, rw (l, get) refl, found-Got k m fd auto c v e)
      by_lookup false (inr (absent, l)) = (k, m, none, rw (l, get) refl, absent-Got k m fd v absent)
      by_lookup true (inr (absent, l)) =
          let r = make_ctx files k fd in
          (
            r.0,
            created m fd r.1,
            some r.1,
            rw (l, get, create-created k m fd v) refl,
            created-Got k r.0 m fd r.1 v (make_ctx-IsReady files k fd).0 absent,
          )
