-- ===== src/FdManager/Map.antt =====
-- The vector of corlib/fd_manager.cpp, which grows and has holes, and a map from descriptors to contexts:
-- no sequence of calls tells them apart.
use native.Mathlib.Decide.{ℕ_discrete}
use mathlib.Core.Path.{fun_ext, ap₂}
use corlib.Base.{
  ℕ, ◌≡◌, ◌≢◌, ◌↔◌, refl, sym, ap, subst, inl, inr, Bool, true, false, Option, none, some, List, [],
  ◌∷◌, ◌==◌, if◌then◌else◌, get_elem?, get_elem?-replicate, arith,
}
use corlib.Base.Int.{pos}
use corlib.Base.Outcome.{Outcome, done, ◌>>=◌}
use corlib.FdManager.{Files, FdCtx, FdManager, make_ctx, empty, lookup, get, del}
use corlib.FdManager.Table.{
  IsValid, empty-IsValid, get_lem, created, create-created, created_self, created_other,
  lookup-cases,
}
use corlib.FdManager.Calls.{del_lem}

-- The context in a place of the vector.
abbrev pub joined : Option (Option FdCtx) → Option FdCtx
joined none = none
joined (some c) = c

abbrev pub view : FdManager → ℕ → Option FdCtx
view m fd = joined (get_elem? m.datas fd)

abbrev pub assign : (ℕ → Option FdCtx) → ℕ → Option FdCtx → ℕ → Option FdCtx
assign map fd c = λ j. if j == fd then c else map j

-- A call of FdManager::get or of FdManager::del.
pub data Call : Type 0 where
  gets : ℕ → Bool → Call
  dels : ℕ → Call

module _ (files : Files) where
  open files use {Kernel}

  -- The calls on the vector, with their answers.
  abbrev pub perform : Call → Kernel × FdManager → Outcome ((Kernel × FdManager) × Option FdCtx)
  perform (gets fd auto_create) (k, m) = do
    r ← get files k m (pos fd) auto_create
    done ((r.0, r.1), r.2)
  perform (dels fd) (k, m) = done ((k, del m (pos fd)), none)

  abbrev pub perform_all :
      List Call → Kernel × FdManager → Outcome ((Kernel × FdManager) × List (Option FdCtx))
  perform_all [] s = done (s, [])
  perform_all (c ∷ cs) s = do
    r ← perform c s
    rest ← perform_all cs r.0
    done (rest.0, r.1 ∷ rest.1)

  -- The same calls on a map.
  abbrev pub find_or_make :
      Kernel
      → (ℕ → Option FdCtx)
      → ℕ
      → Bool
      → Option FdCtx
      → (Kernel × (ℕ → Option FdCtx)) × Option FdCtx
  find_or_make k map fd auto_create (some c) = ((k, map), some c)
  find_or_make k map fd false none = ((k, map), none)
  find_or_make k map fd true none =
      let (k', c) = make_ctx files k fd in ((k', assign map fd (some c)), some c)

  abbrev pub on_map :
      Call → Kernel × (ℕ → Option FdCtx) → (Kernel × (ℕ → Option FdCtx)) × Option FdCtx
  on_map (gets fd auto_create) (k, map) = find_or_make k map fd auto_create (map fd)
  on_map (dels fd) (k, map) = ((k, assign map fd none), none)

  abbrev pub all_on_map :
      List Call → Kernel × (ℕ → Option FdCtx) → (Kernel × (ℕ → Option FdCtx)) × List (Option FdCtx)
  all_on_map [] s = (s, [])
  all_on_map (c ∷ cs) s =
      let r = on_map c s in let rest = all_on_map cs r.0 in (rest.0, r.1 ∷ rest.1)

pub joined-ext :
    (a b : Option (Option FdCtx))
    → ((c : FdCtx) → (a ≡ some (some c)) ↔ (b ≡ some (some c)))
    → joined a ≡ joined b
joined-ext none none h = refl
joined-ext none (some none) h = refl
joined-ext none (some (some c)) h = absurd (let e = (h c).1 refl in cc)
joined-ext (some none) none h = refl
joined-ext (some none) (some none) h = refl
joined-ext (some none) (some (some c)) h = absurd (let e = (h c).1 refl in cc)
joined-ext (some (some c)) b h = ap joined (sym ((h c).0 refl))

assign-ext :
    (map map' : ℕ → Option FdCtx) (fd : ℕ) (c : Option FdCtx)
    → map' fd ≡ c
    → ((j : ℕ) → j ≢ fd → map' j ≡ map j)
    → map' ≡ assign map fd c
assign-ext map map' fd c self other = fun_ext (λ j. elim (ℕ_discrete j fd) [
  | yes same ↦ ground (arith, self, same)
  | no ne ↦ ground (arith, other j ne, ne)
])

joined-none : (a : Option (Option FdCtx)) → ((c : FdCtx) → a ≢ some (some c)) → joined a ≡ none
joined-none none h = refl
joined-none (some none) h = refl
joined-none (some (some c)) h = absurd (h c refl)

view-empty : view empty ≡ (λ fd. none)
unfolding empty
view-empty = fun_ext (λ fd. elim (get_elem?-replicate {A = Option FdCtx} 64 none fd) [
  | inl e ↦ ap joined e
  | inr e ↦ ap joined e
])

view-del : (m : FdManager) (fd : ℕ) → IsValid m → view (del m (pos fd)) ≡ assign (view m) fd none
view-del m fd v =
    let k = del_lem m fd v in
    assign-ext (view m) _ fd none (joined-none _ k.1) (λ j ne. ap joined (k.2 j ne))

module _ (files : Files) where
  open files use {Kernel}

  view-created :
      (m : FdManager) (fd : ℕ) (c : FdCtx)
      → IsValid m
      → view (created files m fd c) ≡ assign (view m) fd (some c)
  view-created m fd c v =
      assign-ext (view m) _ fd (some c) (ap joined (created_self files m fd c v))
        (λ j ne. joined-ext _ _ (λ d. created_other files m fd j c d ne))

  -- The table stands for the map, and the kernel's state is the same.
  pub record Stands (s : Kernel × FdManager) (t : Kernel × (ℕ → Option FdCtx)) : Type 0 where
    pub valid : IsValid s.1
    pub kernel : s.0 ≡ t.0
    pub shows : view s.1 ≡ t.1

  get-Stands :
      (k : Kernel) (m : FdManager) (fd : ℕ) (auto_create : Bool)
      → IsValid m
      → let r = find_or_make files k (view m) fd auto_create (view m fd) in
        (s : Kernel × FdManager) × (get files k m (pos fd) auto_create ≡ done (s.0, s.1, r.1))
        × Stands s r.0
  unfolding get
  get-Stands k m fd auto_create v = elim (lookup-cases files m fd auto_create) [
    | inl (c, e, l) ↦
        let here : view m fd ≡ some c = ap joined e in
        rw (here, l, get) ((k, m), refl, record { valid = v; kernel = refl; shows = refl })
    | inr (absent, l) ↦
        let here : view m fd ≡ none = joined-none _ absent in made auto_create l here
  ]
    where
      made :
          (auto : Bool)
          → lookup m fd auto ≡ (if auto then none else some none)
          → view m fd ≡ none
          → let r = find_or_make files k (view m) fd auto (view m fd) in
            (s : Kernel × FdManager) × (get files k m (pos fd) auto ≡ done (s.0, s.1, r.1))
            × Stands s r.0
      made false l here =
          rw (here, l, get) ((k, m), refl, record { valid = v; kernel = refl; shows = refl })
      made true l here =
          let (k', m', r, e, got) = get_lem files k m fd true v in
          let c = make_ctx files k fd in
          let q : get files k m (pos fd) true ≡ done (c.0, created files m fd c.1, some c.1) =
            rw (l, get) (rw (create-created files k m fd v) refl) in
          let same : m' ≡ created files m fd c.1 = cc (e, q) in
          rw here (
            (c.0, created files m fd c.1),
            q,
            record {
              valid = subst IsValid same got.valid;
              kernel = refl;
              shows = view-created m fd c.1 v;
            },
          )

  perform-Stands :
      (c : Call) (s : Kernel × FdManager)
      → IsValid s.1
      → let r = on_map files c (s.0, view s.1) in
        (s' : Kernel × FdManager) × (perform files c s ≡ done (s', r.1)) × Stands s' r.0
  perform-Stands (gets fd auto_create) s v =
      let (s', e, h) = get-Stands s.0 s.1 fd auto_create v in (s', rw e refl, h)
  perform-Stands (dels fd) s v =
      (_, refl, record { valid = (del_lem s.1 fd v).0; kernel = refl; shows = view-del s.1 fd v })

  -- The calls on the table and on the map have the same answers, and end alike.
  abbrev pub Agree : List Call → Kernel × FdManager → Kernel × (ℕ → Option FdCtx) → Type 0
  Agree cs s t =
      (s' : Kernel × FdManager) × (perform_all files cs s ≡ done (s', (all_on_map files cs t).1))
      × Stands s' (all_on_map files cs t).0

  perform_all-Stands :
      (cs : List Call) (s : Kernel × FdManager) → IsValid s.1 → Agree cs s (s.0, view s.1)
  perform_all-Stands [] s v = (s, refl, record { valid = v; kernel = refl; shows = refl })
  perform_all-Stands (c ∷ cs) s v =
      let (m, e, h) = perform-Stands c s v in
      let same : (m.0, view m.1) ≡ (on_map files c (s.0, view s.1)).0 =
        ap₂ (λ a b. (a, b)) h.kernel h.shows in
      let (s', e', h') = subst (Agree cs m) same (perform_all-Stands cs m h.valid) in
      (s', rw e (rw e' refl), h')

  -- On the table that FdManager::FdManager makes, any sequence of calls of get and del for descriptors that
  -- are not negative ends without a fault, and gives the answers that a map from descriptors to contexts
  -- gives, which starts empty and in which get enters a new context where it has none and may make one;
  -- in the end the table holds what the map holds.
  pub perform_all_map : (cs : List Call) (k : Kernel) → Agree cs (k, empty) (k, λ fd. none)
  perform_all_map cs k =
      subst (λ map. Agree cs (k, empty) (k, map)) view-empty
        (perform_all-Stands cs (k, empty) empty-IsValid)
