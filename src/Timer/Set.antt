-- ===== src/Timer/Set.antt =====
-- What corlib/timer.cpp uses of std::set<std::shared_ptr<Timer>, Comparator>: elements in the order
-- of a key that is read through the pointer; two elements with one key are the same to the set.
pub mod Members
use corlib.Base.{
  ℕ, zero, suc, ◌<◌, ◌≡◌, refl, inl, inr, Bool, true, false, Option, none, some, List, [], ◌∷◌, ltb,
  ltb→lt, if◌then◌else◌, All, All-In, All-of_In, In, arith, Bool-cases,
}
use mathlib.Core.Option

-- `insert(x)`. An element with the key of `x` keeps its place, and `x` is not inserted.
unfoldable pub insert : (ℕ → ℕ) → ℕ → List ℕ → List ℕ
insert key x [] = x ∷ []
insert key x (y ∷ ys) =
    let rest = insert key x ys in
    if ltb (key y) (key x) then y ∷ rest else if ltb (key x) (key y) then x ∷ y ∷ ys else y ∷ ys

-- `insert(x).first == begin()`, the test of addTimer: no element comes before `x`.
unfoldable pub at_begin : (ℕ → ℕ) → ℕ → List ℕ → Bool
at_begin key x [] = true
at_begin key x (y ∷ ys) = if ltb (key y) (key x) then false else true

-- `find(x)`, as a position; `none` is end().
unfoldable pub find : (ℕ → ℕ) → ℕ → List ℕ → Option ℕ
find key x [] = none
find key x (y ∷ ys) =
    let rest = find key x ys in
    if ltb (key y) (key x)
    then Option.map suc rest
    else if ltb (key x) (key y)
    then none
    else some 0

-- `erase(it)`.
unfoldable pub erase : ℕ → List ℕ → List ℕ
erase pos [] = []
erase zero (y ∷ ys) = ys
erase (suc pos) (y ∷ ys) = y ∷ erase pos ys

-- `m_timers.erase(it)` under the test `it != m_timers.end()`.
unfoldable pub erase_found : Option ℕ → List ℕ → List ℕ
erase_found none ts = ts
erase_found (some pos) ts = erase pos ts

-- The order that the set keeps: keys grow strictly, so no two elements share one.
abbrev pub Sorted : (ℕ → ℕ) → List ℕ → Type 0
Sorted key [] = Unit
Sorted key (x ∷ xs) = All (λ y. key x < key y) xs × Sorted key xs

pub erase-All : (P : ℕ → Type 0) (pos : ℕ) (xs : List ℕ) → All P xs → All P (erase pos xs)
unfolding erase
erase-All P pos [] h = tt
erase-All P zero (x ∷ xs) h = h.1
erase-All P (suc pos) (x ∷ xs) h = (h.0, erase-All P pos xs h.1)

module _ (key : ℕ → ℕ) where
  pub insert-All : (P : ℕ → Type 0) (x : ℕ) (xs : List ℕ) → P x → All P xs → All P (insert key x xs)
  unfolding insert
  insert-All P x [] p h = (p, tt)
  insert-All P x (y ∷ ys) p h = ground (arith, insert-All P x ys p h.1)

  All-trans :
      (a b : ℕ) (xs : List ℕ)
      → key a < key b
      → All (λ y. key b < key y) xs
      → All (λ y. key a < key y) xs
  All-trans a b [] l h = tt
  All-trans a b (x ∷ xs) l h = (omega arith, All-trans a b xs l h.1)

  pub insert-Sorted : (x : ℕ) (xs : List ℕ) → Sorted key xs → Sorted key (insert key x xs)
  unfolding insert
  insert-Sorted x [] h = (tt, tt)
  insert-Sorted x (y ∷ ys) h = elim (Bool-cases (ltb (key y) (key x))) [
    | inl lt ↦
        rw lt (insert-All (λ z. key y < key z) x ys (ltb→lt _ _ lt) h.0, insert-Sorted x ys h.1)
    | inr ge ↦ elim (Bool-cases (ltb (key x) (key y))) [
      | inl gt ↦ rw (ge, gt) (((ltb→lt _ _ gt), All-trans x y ys (ltb→lt _ _ gt) h.0), h)
      | inr same ↦ rw (ge, same) h
    ]
  ]

  pub erase-Sorted : (pos : ℕ) (xs : List ℕ) → Sorted key xs → Sorted key (erase pos xs)
  unfolding erase
  erase-Sorted pos [] h = tt
  erase-Sorted zero (x ∷ xs) h = h.1
  erase-Sorted (suc pos) (x ∷ xs) h =
      (erase-All (λ y. key x < key y) pos xs h.0, erase-Sorted pos xs h.1)

-- Keys that agree on the elements give the same order.
pub Sorted-ext :
    (k k' : ℕ → ℕ) (xs : List ℕ) → ((y : ℕ) → In y xs → k y ≡ k' y) → Sorted k xs → Sorted k' xs
Sorted-ext k k' [] e h = tt
Sorted-ext k k' (x ∷ xs) e h = (
  All-of_In (λ y. k' x < k' y) xs
      (λ y m.
        let l : k x < k y = All-In (λ y. k x < k y) xs h.0 m in
        let p : k x ≡ k' x = e x (inl refl) in let q : k y ≡ k' y = e y (inr m) in omega arith),
  Sorted-ext k k' xs (λ y m. e y (inr m)) h.1,
)
