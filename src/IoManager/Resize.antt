-- ===== src/IoManager/Resize.antt =====
-- IOManager::contextResize of corlib/ioscheduler.cpp as addEvent uses it: the table grows by new
-- contexts and keeps the old ones.
use corlib.Base.{
  ℕ, zero, suc, ◌+◌, ◌-◌, ◌*◌, ◌/◌, ◌%◌, ◌^◌, ◌≤◌, ◌<◌, ◌≡◌, ◌≢◌, refl, sym, ap, subst, ◌∙◌, ◌⊎◌,
  inl, inr, Option, none, some, List, [], ◌∷◌, ◌++◌, ltb, ltb→lt, length, length-append, get_elem?,
  take_all, total, total-append, arith, Bool-cases,
}
use corlib.IoManager.Mask.{ctl_add, reads_only, Epoll}
use corlib.IoManager.Contexts.{FdContext, new_context, new_contexts, context_resize, contexts_for}
use corlib.Base.Outcome.{done}
use corlib.IoManager.{IoManager, initial, make_io}
use corlib.IoManager.Fire.{CtxIsValid}
use corlib.IoManager.Invariant.{IsValid, count, watch_at}

-- An entry of the longer table is the old one, or new where there was none.
abbrev pub Kept : ℕ → Option FdContext → Option FdContext → Type 0
Kept fd old new = (new ≡ old) ⊎ ((old ≡ none) × (new ≡ some (new_context fd)))

new_contexts-Kept : (a n i : ℕ) → Kept (a + i) none (get_elem? (new_contexts a n) i)
new_contexts-Kept a zero i = inl refl
new_contexts-Kept a (suc n) zero = inr (refl, ap (λ j. some (new_context j)) (omega arith))
new_contexts-Kept a (suc n) (suc i) =
    subst (λ j. Kept j none (get_elem? (new_contexts (suc a) n) i)) (omega arith)
      (new_contexts-Kept (suc a) n i)

append-Kept :
    (xs : List FdContext) (a b n i : ℕ)
    → b ≡ a + length xs
    → Kept (a + i) (get_elem? xs i) (get_elem? (xs ++ new_contexts b n) i)
append-Kept [] a b n i e =
    let p : b + i ≡ a + i = omega (arith, e) in
    subst (λ j. Kept j none (get_elem? (new_contexts b n) i)) p (new_contexts-Kept b n i)
append-Kept (x ∷ xs) a b n zero e = inl refl
append-Kept (x ∷ xs) a b n (suc i) e =
    let p : suc a + i ≡ a + suc i = omega arith in
    subst (λ j. Kept j (get_elem? xs i) (get_elem? (xs ++ new_contexts b n) i)) p
      (append-Kept xs (suc a) b n i (omega (arith, e)))

total-new : (a n : ℕ) → total count (new_contexts a n) ≡ 0
total-new a zero = refl
total-new a (suc n) = omega (arith, total-new (suc a) n)

length-new : (a n : ℕ) → length (new_contexts a n) ≡ n
length-new a zero = refl
length-new a (suc n) = ap suc (length-new (suc a) n)

-- What growing does to the table, where it has at least its 32 first places.
pub record Grown (cs : List FdContext) (fd : ℕ) (cs' : List FdContext) : Type 0 where
  pub here : fd < length cs'
  pub longer : length cs ≤ length cs'
  pub kept : (i : ℕ) → Kept i (get_elem? cs i) (get_elem? cs' i)
  pub same_total : total count cs' ≡ total count cs

pub contexts_for-Grown :
    (cs : List FdContext) (fd : ℕ) → 32 ≤ length cs → Grown cs fd (contexts_for cs fd)
unfolding contexts_for context_resize
contexts_for-Grown cs fd room = elim (Bool-cases (ltb fd (length cs))) [
  | inl e ↦
      rw (e, contexts_for)
        (record {
          here = ltb→lt _ _ e;
          longer = omega arith;
          kept = λ i. inl refl;
          same_total = refl;
        })
  | inr e ↦
      let far : length cs ≤ fd = ground (arith, e) in
      let more : length cs ≤ fd * 3 / 2 = omega (arith, far) in
      let size : length (cs ++ new_contexts (length cs) (fd * 3 / 2 - length cs)) ≡ fd * 3 / 2 =
        omega (
          arith,
          more,
          length-append cs (new_contexts (length cs) (fd * 3 / 2 - length cs)),
          length-new (length cs) (fd * 3 / 2 - length cs),
        ) in
      rw (e, contexts_for, take_all (fd * 3 / 2) cs more)
        (record {
          here = omega (arith, size, far, room);
          longer = omega (arith, size, more);
          kept = λ i.
              subst
                (λ j.
                  Kept j (get_elem? cs i)
                    (get_elem? (cs ++ new_contexts (length cs) (fd * 3 / 2 - length cs)) i))
                (omega arith)
                (append-Kept cs 0 (length cs) (fd * 3 / 2 - length cs) i (omega arith));
          same_total = omega (
            arith,
            total-append count cs (new_contexts (length cs) (fd * 3 / 2 - length cs)),
            total-new (length cs) (fd * 3 / 2 - length cs),
          );
        })
]

module _ (epoll : Epoll) where
  open epoll use {Kernel, ctl, interest}

  Kept-IsValid :
      (fd : ℕ) (old new : Option FdContext)
      → Kept fd old new
      → ((c : FdContext) → old ≡ some c → CtxIsValid fd c)
      → (c : FdContext) → new ≡ some c
      → CtxIsValid fd c
  Kept-IsValid fd old new (inl same) h c e = h c (sym same ∙ e)
  Kept-IsValid fd old new (inr (_, f)) h c e =
      let p : new_context fd ≡ c = cc (f, e) in
      subst (CtxIsValid fd) p (record { same_fd = refl; read_slot = refl; write_slot = refl })

  Kept-watch : (fd : ℕ) (old new : Option FdContext) → Kept fd old new → watch_at old ≡ watch_at new
  Kept-watch fd old new (inl e) = ap watch_at (sym e)
  Kept-watch fd old new (inr (e, f)) = rw (e, f) refl

  -- The table grown for a descriptor.
  abbrev pub grown_for : IoManager Kernel → ℕ → IoManager Kernel
  grown_for m fd = record m { fd_contexts = contexts_for m.fd_contexts fd }

  pub grown_for-IsValid :
      (m : IoManager Kernel) (fd : ℕ) → IsValid epoll m → IsValid epoll (grown_for m fd)
  grown_for-IsValid m fd v =
      let g = contexts_for-Grown m.fd_contexts fd v.room in
      record {
        contexts = λ i c e. Kept-IsValid i _ _ (g.kept i) (v.contexts i) c e;
        pending = v.pending ∙ ap (λ t. t % 2 ^ 64) (sym g.same_total);
        watched = λ i apart. v.watched i apart ∙ Kept-watch i _ _ (g.kept i);
        room = omega (arith, g.longer, v.room);
      }

  -- A new manager.
  pub initial-IsValid :
      (k : Kernel) (pipe : ℕ)
      → ((fd : ℕ) → fd ≢ pipe → interest k fd ≡ none)
      → IsValid epoll (initial k pipe)
  unfolding initial context_resize
  initial-IsValid k pipe clean = record {
    contexts = λ i c e. Kept-IsValid i none _ (fresh i) (λ d q. absurd (cc)) c e;
    pending = refl;
    watched = λ i apart. clean i apart ∙ Kept-watch i none _ (fresh i);
    room = omega arith;
  }
    where
      fresh : (i : ℕ) → Kept i none (get_elem? (new_contexts 0 32) i)
      fresh i =
          subst (λ j. Kept j none (get_elem? (new_contexts 0 32) i)) (omega arith)
            (new_contexts-Kept 0 32 i)

  pub make_io-IsValid :
      (k : Kernel) (pipe : ℕ) (m : IoManager Kernel)
      → ((fd : ℕ) → interest k fd ≡ none)
      → make_io epoll k pipe ≡ done m
      → IsValid epoll m
  unfolding make_io
  make_io-IsValid k pipe m clean e = elim (Bool-cases (ctl k ctl_add pipe reads_only).1) [
    | inl ok ↦
        let p : initial (ctl k ctl_add pipe reads_only).0 pipe ≡ m =
          (let q = rw (ok, make_io) at e in cc) in
        subst (IsValid epoll) p (
          initial-IsValid _ pipe
            (λ fd ne. epoll.ctl-other k ctl_add pipe fd reads_only ne ∙ clean fd))
    | inr bad ↦ absurd (let q = rw (bad, make_io) at e in cc)
  ]
