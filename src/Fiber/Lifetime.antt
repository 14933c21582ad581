-- ===== src/Fiber/Lifetime.antt =====
-- The identifiers of fibers and the number of fibers that live, in corlib/fiber.cpp: s_fiber_id and
-- s_fiber_count.
use corlib.Base.{
  map, ℕ, suc, ◌%◌, ◌^◌, ◌<◌, ◌≤◌, ◌≡◌, ◌≢◌, refl, sym, subst, inl, inr, All-map, ap, ◌∙◌, Bool,
  false, Option, some, List, [], ◌∷◌, ◌++◌, length, length-append, ◌==◌, if◌then◌else◌, Bool-cases,
  ==_iff, arith, ◌&&◌, ◌||◌, All, Distinct,
}
use corlib.Base.Outcome.{done, assert, or_fault, >>=-eq-done}
use corlib.Callback.{Callback}
use corlib.Fiber.{
  ready, running, term, increment, Fiber, FiberThread, put, make_main, make_fiber, destroy, reset,
  home, resume, yield, is_ready, is_running, is_term,
}

-- A thread with the fibers that live.
pub record Life : Type 0 where
  pub thread : FiberThread
  pub live : List ℕ

-- Before any fiber is made.
pub record IsNew (l : Life) : Type 0 where
  pub no_object : l.thread.fresh ≡ 0
  pub no_id : l.thread.fiber_id ≡ 0
  pub no_count : l.thread.fiber_count ≡ 0
  pub nothing : l.live ≡ []

-- Fibers are made and destroyed, and those that live are reset, resumed and yield.
pub data Step (l : Life) : Life → Type 0 where
  makes_main :
      (garbage : Bool)
      → Step l (record { thread = (make_main l.thread garbage).0; live = l.thread.fresh ∷ l.live })
  makes :
      (cb : Option Callback) (stacksize : ℕ) (in_scheduler : Bool)
      → Step l (record {
        thread = (make_fiber l.thread cb stacksize in_scheduler).0;
        live = l.thread.fresh ∷ l.live;
      })
  destroys :
      (f : ℕ) (xs ys : List ℕ)
      → l.live ≡ xs ++ f ∷ ys
      → Step l (record { thread = destroy l.thread f; live = xs ++ ys })
  resets :
      (f : ℕ) (cb : Option Callback) (t : FiberThread)
      → reset l.thread f cb ≡ done t
      → Step l (record l { thread = t })
  resumes :
      (f : ℕ) (t : FiberThread) → resume l.thread f ≡ done t → Step l (record l { thread = t })
  yields : (f : ℕ) (t : FiberThread) → yield l.thread f ≡ done t → Step l (record l { thread = t })

pub data Reach (l : Life) : Life → Type 0 where
  start : Reach l l
  next : {m n : Life} → Reach l m → Step m n → Reach l n

pub record IsCounted (l : Life) : Type 0 where
  pub counted : l.thread.fiber_count ≡ length l.live % 2 ^ 64
  pub numbered : l.thread.fiber_id ≡ l.thread.fresh % 2 ^ 64
  pub made : All (λ f. f < l.thread.fresh) l.live
  pub distinct : Distinct l.live
  pub ids : (f : ℕ) → f < l.thread.fresh → (l.thread.object f).id ≡ f % 2 ^ 64

-- Nothing is born or dies.
record SameBirths (t t' : FiberThread) : Type 0 where
  same_fresh : t'.fresh ≡ t.fresh
  same_id : t'.fiber_id ≡ t.fiber_id
  same_count : t'.fiber_count ≡ t.fiber_count
  same_ids : (j : ℕ) → (t'.object j).id ≡ (t.object j).id

put-id :
    (t : FiberThread) (f j : ℕ) (b : Fiber)
    → b.id ≡ (t.object f).id
    → ((put t f b).object j).id ≡ (t.object j).id
put-id t f j b e = elim (Bool-cases (f == j)) [
  | inl same ↦ let p : f ≡ j = (==_iff f j).0 same in rw (same, ← p) e
  | inr other ↦ rw other refl
]

same-IsCounted :
    (l : Life) (t : FiberThread)
    → SameBirths l.thread t
    → IsCounted l
    → IsCounted (record l { thread = t })
same-IsCounted l t s v = record {
  counted = s.same_count ∙ v.counted;
  numbered = s.same_id ∙ v.numbered ∙ ap (λ (n : ℕ). n % 2 ^ 64) (sym s.same_fresh);
  made = subst (λ n. All (λ f. f < n) l.live) (sym s.same_fresh) v.made;
  distinct = v.distinct;
  ids = λ f lt. s.same_ids f ∙ v.ids f (omega (arith, s.same_fresh));
}

-- `put` of a fiber with the same identifier, with other fields of the thread that do not count.
put-SameBirths :
    (t : FiberThread) (f : ℕ) (b : Fiber) (h : Option ℕ) (x : ℕ)
    → b.id ≡ (t.object f).id
    → SameBirths t (record (put t f b) { current = h; executing = x })
put-SameBirths t f b h x e = record {
  same_fresh = refl;
  same_id = refl;
  same_count = refl;
  same_ids = λ j. put-id t f j b e;
}

resume-SameBirths : (t t' : FiberThread) (f : ℕ) → resume t f ≡ done t' → SameBirths t t'
unfolding resume
resume-SameBirths t t' f e =
    let (_, _, p) = >>=-eq-done (assert (is_ready (t.object f).state)) _ e in
    let (h, _, q) = >>=-eq-done (or_fault (home t f) _) _ p in
    let r : record (put t f (record (t.object f) { state = running })) {
      current = some f;
      executing = f;
    }
        ≡ t' =
      cc q in
    subst (SameBirths t) r
      (put-SameBirths t f (record (t.object f) { state = running }) (some f) f refl)

yield-SameBirths : (t t' : FiberThread) (f : ℕ) → yield t f ≡ done t' → SameBirths t t'
unfolding yield
yield-SameBirths t t' f e =
    let b = record (t.object f) { state = if is_term (t.object f).state then term else ready } in
    let (_, _, p) =
      >>=-eq-done (assert (is_running (t.object f).state || is_term (t.object f).state)) _ e in
    let (h, _, q) = >>=-eq-done (or_fault (home t f) _) _ p in
    let r : record (put t f b) { current = some h; executing = h } ≡ t' = cc q in
    subst (SameBirths t) r (put-SameBirths t f b (some h) h refl)

reset-SameBirths :
    (t t' : FiberThread) (f : ℕ) (cb : Option Callback) → reset t f cb ≡ done t' → SameBirths t t'
unfolding reset
reset-SameBirths t t' f cb e =
    let b = record (t.object f) { state = ready; cb = cb } in
    let (_, _, q) =
      >>=-eq-done (assert ((t.object f).has_stack && is_term (t.object f).state)) _ e in
    let r : put t f b ≡ t' = cc q in
    subst (SameBirths t) r (put-SameBirths t f b t.current t.executing refl)

-- A new fiber, whatever its members but `m_id`.
born-IsCounted :
    (l : Life) (t : FiberThread) (b : Fiber)
    → t.object ≡ (put l.thread l.thread.fresh b).object
    → t.fresh ≡ suc l.thread.fresh
    → t.fiber_id ≡ increment l.thread.fiber_id
    → t.fiber_count ≡ increment l.thread.fiber_count
    → b.id ≡ l.thread.fiber_id
    → IsCounted l
    → IsCounted (record { thread = t; live = l.thread.fresh ∷ l.live })
born-IsCounted l t b o f i c e v = record {
  counted = omega (arith, c, v.counted);
  numbered = omega (arith, i, f, v.numbered);
  made = (
    omega (arith, f),
    All-map (λ g. g < l.thread.fresh) (λ g. g < t.fresh) l.live (λ g lt. omega (arith, lt, f))
        v.made,
  );
  distinct = (
    All-map (λ g. g < l.thread.fresh) (λ g. g ≢ l.thread.fresh) l.live
        (λ g lt p. absurd (omega (arith, lt, p))) v.made,
    v.distinct,
  );
  ids = λ g lt. rw o (elim (Bool-cases (l.thread.fresh == g)) [
    | inl same ↦
        let p : l.thread.fresh ≡ g = (==_iff _ g).0 same in
        rw same (e ∙ v.numbered ∙ ap (λ (n : ℕ). n % 2 ^ 64) p)
    | inr other ↦
        let old : g < l.thread.fresh = ground (arith, other, (==_iff l.thread.fresh g).1, lt, f) in
        rw other (v.ids g old)
  ]);
}

All-remove : (P : ℕ → Type 0) (xs ys : List ℕ) (f : ℕ) → All P (xs ++ f ∷ ys) → All P (xs ++ ys)
All-remove P [] ys f h = h.1
All-remove P (x ∷ xs) ys f h = (h.0, All-remove P xs ys f h.1)

Distinct-remove : (xs ys : List ℕ) (f : ℕ) → Distinct (xs ++ f ∷ ys) → Distinct (xs ++ ys)
Distinct-remove [] ys f h = h.1
Distinct-remove (x ∷ xs) ys f h = (All-remove (λ y. y ≢ x) xs ys f h.0, Distinct-remove xs ys f h.1)

destroy-IsCounted :
    (l : Life) (f : ℕ) (xs ys : List ℕ)
    → l.live ≡ xs ++ f ∷ ys
    → IsCounted l
    → IsCounted (record { thread = destroy l.thread f; live = xs ++ ys })
unfolding destroy
destroy-IsCounted l f xs ys e v = record {
  counted = omega (arith, v.counted, ap length e, length-append xs (f ∷ ys), length-append xs ys);
  numbered = v.numbered;
  made = All-remove _ xs ys f (subst (All (λ g. g < l.thread.fresh)) e v.made);
  distinct = Distinct-remove xs ys f (subst Distinct e v.distinct);
  ids = λ g lt.
      put-id l.thread f g (record (l.thread.object f) { has_stack = false }) refl ∙ v.ids g lt;
}

Step-IsCounted : {l m : Life} → Step l m → IsCounted l → IsCounted m
unfolding make_main make_fiber
Step-IsCounted {l} (makes_main garbage) v = born-IsCounted l _ _ refl refl refl refl refl v
Step-IsCounted {l} (makes cb stacksize in_scheduler) v =
    born-IsCounted l _ _ refl refl refl refl refl v
Step-IsCounted {l} (destroys f xs ys e) v = destroy-IsCounted l f xs ys e v
Step-IsCounted {l} (resets f cb t e) v = same-IsCounted l t (reset-SameBirths l.thread t f cb e) v
Step-IsCounted {l} (resumes f t e) v = same-IsCounted l t (resume-SameBirths l.thread t f e) v
Step-IsCounted {l} (yields f t e) v = same-IsCounted l t (yield-SameBirths l.thread t f e) v

new-IsCounted : (l : Life) → IsNew l → IsCounted l
new-IsCounted l n = record {
  counted = rw n.nothing (omega (arith, n.no_count));
  numbered = omega (arith, n.no_id, n.no_object);
  made = rw n.nothing tt;
  distinct = rw n.nothing tt;
  ids = λ f lt. absurd (omega (arith, lt, n.no_object));
}

reached-IsCounted : {l m : Life} → IsNew l → Reach l m → IsCounted m
reached-IsCounted {l} n start = new-IsCounted l n
reached-IsCounted n (next r q) = Step-IsCounted q (reached-IsCounted n r)

-- Different numbers that `k` tells apart.
Distinct-map :
    (k : ℕ → ℕ) (P : ℕ → Type 0) (xs : List ℕ)
    → ((f g : ℕ) → P f → P g → f ≢ g → k f ≢ k g)
    → All P xs
    → Distinct xs
    → Distinct (map k xs)
Distinct-map k P [] h a d = tt
Distinct-map k P (x ∷ xs) h a d = (apart xs a.1 d.0, Distinct-map k P xs h a.1 d.1)
  where
    apart : (ys : List ℕ) → All P ys → All (λ y. y ≢ x) ys → All (λ y. y ≢ k x) (map k ys)
    apart [] b e = tt
    apart (y ∷ ys) b e = (h y x b.0 a.0 e.0, apart ys b.1 e.1)

-- Whatever fibers are made, reset, resumed, yield and are destroyed, as long as not more than 2 ^ 64 have
-- been made: s_fiber_count is the number of the fibers that live, on 64 bits, and no two of those have
-- the same identifier.
pub Reach-counted :
    {l m : Life}
    → IsNew l
    → Reach l m
    → m.thread.fresh ≤ 2 ^ 64
    → (m.thread.fiber_count ≡ length m.live % 2 ^ 64)
      × Distinct m.live
      × Distinct (map (λ f. (m.thread.object f).id) m.live)
Reach-counted {l} {m} n r few =
    let v = reached-IsCounted n r in
    (
      v.counted,
      v.distinct,
      Distinct-map _ (λ f. f < m.thread.fresh) m.live
          (λ f g lf lg ne e. ne (omega (arith, v.ids f lf, v.ids g lg, e, lf, lg, few))) v.made
          v.distinct,
    )
