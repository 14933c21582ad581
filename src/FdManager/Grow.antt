-- ===== src/FdManager/Grow.antt =====
-- How FdManager::get of corlib/fd_manager.cpp grows the vector of contexts.
use corlib.Base.{
  ℕ, zero, suc, ◌-◌, ◌*◌, ◌/◌, ◌<◌, ◌≤◌, ◌≡◌, refl, ◌↔◌, ◌⊎◌, inl, inr, Option, none, some, List,
  [], ◌∷◌, ◌++◌, leb, length, get_elem?, replicate, length-append, length-replicate, take_all,
  get_elem?-replicate, arith, Bool-cases,
}
use corlib.FdManager.{grown, FdCtx, resize}

resize-grow :
    {A : Type 0} (n : ℕ) (a : A) (xs : List A)
    → length xs ≤ n
    → resize n a xs ≡ xs ++ replicate (n - length xs) a
unfolding resize
resize-grow n a xs h = rw (take_all n xs h)

padding : List (Option FdCtx) → ℕ → List (Option FdCtx)
padding datas fd = replicate (fd * 3 / 2 - length datas) none

grown-cases :
    (datas : List (Option FdCtx)) (fd : ℕ)
    → ((grown datas fd ≡ datas) × (fd < length datas))
      ⊎ ((grown datas fd ≡ datas ++ padding datas fd) × (length datas ≤ fd))
unfolding grown padding
grown-cases datas fd = elim (Bool-cases (leb (length datas) fd)) [
  | inl e ↦ inr (rw e (resize-grow (fd * 3 / 2) none datas (ground arith)), ground arith)
  | inr e ↦ inl (rw e refl, ground arith)
]

pub length-grown :
    (datas : List (Option FdCtx)) (fd : ℕ)
    → 64 ≤ length datas
    → (fd < length (grown datas fd)) × (length datas ≤ length (grown datas fd))
unfolding padding
length-grown datas fd h = elim (grown-cases datas fd) [
  | inl (e, l) ↦ rw e (l, omega arith)
  | inr (e, l) ↦
      rw
        (
          e,
          length-append datas (padding datas fd),
          length-replicate {A = Option FdCtx} (fd * 3 / 2 - length datas) none,
        )
        (omega arith)
]

pad-some :
    (xs : List (Option FdCtx)) (n j : ℕ) (c : FdCtx)
    → (get_elem? (xs ++ replicate n none) j ≡ some (some c)) ↔ (get_elem? xs j ≡ some (some c))
pad-some [] n j c = (
  λ h. elim (get_elem?-replicate {A = Option FdCtx} n none j) [ inl e ↦ cc | inr e ↦ cc ],
  λ h. cc,
)
pad-some (x ∷ xs) n zero c = (λ h. h, λ h. h)
pad-some (x ∷ xs) n (suc j) c = pad-some xs n j c

-- Growing adds no context and keeps every context in its place.
pub get_elem?-grown :
    (datas : List (Option FdCtx)) (fd j : ℕ) (c : FdCtx)
    → (get_elem? (grown datas fd) j ≡ some (some c)) ↔ (get_elem? datas j ≡ some (some c))
unfolding padding
get_elem?-grown datas fd j c = elim (grown-cases datas fd) [
  | inl (e, l) ↦ rw e (λ h. h, λ h. h)
  | inr (e, l) ↦ rw e (pad-some datas _ j c)
]
