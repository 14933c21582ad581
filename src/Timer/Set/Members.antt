-- ===== src/Timer/Set/Members.antt =====
-- Which elements the operations of the set leave in it.
use mathlib.Core.Option
use corlib.Base.{
  ℕ, zero, suc, ◌<◌, ◌≡◌, refl, ap, ◌∙◌, ◌≢◌, ◌⊎◌, inl, inr, false, Option, none, some, List, [],
  ◌∷◌, ltb, ltb→lt, All, All-In, All-of_In, In, arith, Bool-cases,
}
use corlib.Timer.Set.{insert, find, erase, erase_found, Sorted}

erase_found-map :
    (p : Option ℕ) (y : ℕ) (ys : List ℕ)
    → erase_found (Option.map suc p) (y ∷ ys) ≡ y ∷ erase_found p ys
unfolding erase_found erase
erase_found-map none y ys = refl
erase_found-map (some pos) y ys = refl

erase-In : (y pos : ℕ) (xs : List ℕ) → In y (erase pos xs) → In y xs
unfolding erase
erase-In y pos [] m = m
erase-In y zero (x ∷ xs) m = inr m
erase-In y (suc pos) (x ∷ xs) (inl e) = inl e
erase-In y (suc pos) (x ∷ xs) (inr m) = inr (erase-In y pos xs m)

pub erase_found-In : (y : ℕ) (p : Option ℕ) (xs : List ℕ) → In y (erase_found p xs) → In y xs
unfolding erase_found
erase_found-In y none xs m = m
erase_found-In y (some pos) xs m = erase-In y pos xs m

module _ (key : ℕ → ℕ) where
  -- A set that holds no element with the key of `x`.
  abbrev pub IsFree : ℕ → List ℕ → Type 0
  IsFree x = All (λ y. key y ≢ key x)

  above-IsFree : (x y : ℕ) (ys : List ℕ) → (key x < key y) → Sorted key (y ∷ ys) → IsFree x (y ∷ ys)
  above-IsFree x y ys lt h = (omega arith, All-of_In _ ys (λ z m. later z (All-In _ ys h.0 m)))
    where
      later : (z : ℕ) → key y < key z → key z ≢ key x
      later z l = omega arith

  same_key : (a b : ℕ) → ltb (key a) (key b) ≡ false → ltb (key b) (key a) ≡ false → key a ≡ key b
  same_key a b p q = ground arith

  -- What `find` followed by `erase` does: every element with the key of `x` goes, no other.
  pub removed-IsFree :
      (x : ℕ) (xs : List ℕ) → Sorted key xs → IsFree x (erase_found (find key x xs) xs)
  unfolding find erase_found erase
  removed-IsFree x [] h = tt
  removed-IsFree x (y ∷ ys) h = elim (Bool-cases (ltb (key y) (key x))) [
    | inl lt ↦
        rw (lt, erase_found-map (find key x ys) y ys)
          (ground (arith, ltb→lt _ _ lt), removed-IsFree x ys h.1)
    | inr ge ↦ elim (Bool-cases (ltb (key x) (key y))) [
      | inl gt ↦ rw (ge, gt) (above-IsFree x y ys (ltb→lt _ _ gt) h)
      | inr same ↦ rw (ge, same) (All-of_In _ ys (λ z m. later z (All-In _ ys h.0 m) ge same))
    ]
  ]
    where
      later :
          (z : ℕ)
          → key y < key z
          → ltb (key y) (key x) ≡ false
          → ltb (key x) (key y) ≡ false
          → key z ≢ key x
      later z l ge same = ground arith

  pub removed-kept :
      (x y : ℕ) (xs : List ℕ) → In y xs → key y ≢ key x → In y (erase_found (find key x xs) xs)
  unfolding find erase_found erase
  removed-kept x y [] m ne = elim m [ ]
  removed-kept x y (z ∷ zs) (inl e) ne = elim (Bool-cases (ltb (key z) (key x))) [
    | inl lt ↦ rw (lt, erase_found-map (find key x zs) z zs) (inl e)
    | inr ge ↦ elim (Bool-cases (ltb (key x) (key z))) [
      | inl gt ↦ rw (ge, gt) (inl e)
      | inr same ↦ absurd (ne (ap key e ∙ same_key z x ge same))
    ]
  ]
  removed-kept x y (z ∷ zs) (inr m) ne = elim (Bool-cases (ltb (key z) (key x))) [
    | inl lt ↦ rw (lt, erase_found-map (find key x zs) z zs) (inr (removed-kept x y zs m ne))
    | inr ge ↦ elim (Bool-cases (ltb (key x) (key z))) [
      | inl gt ↦ rw (ge, gt) (inr m)
      | inr same ↦ rw (ge, same) m
    ]
  ]

  -- `find` succeeds where an element has the key.
  pub find-In :
      (x y : ℕ) (xs : List ℕ)
      → Sorted key xs
      → In y xs
      → key y ≡ key x
      → (pos : ℕ) × (find key x xs ≡ some pos)
  unfolding find
  find-In x y [] h m e = elim m [ ]
  find-In x y (z ∷ zs) h (inl p) e = (0, ground (arith, ap key p))
  find-In x y (z ∷ zs) h (inr m) e =
      let (pos, found) = find-In x y zs h.1 m e in
      let l : key z < key y = All-In _ zs h.0 m in (suc pos, ground arith)

  -- It fails where none has it.
  pub find-IsFree : (x : ℕ) (xs : List ℕ) → IsFree x xs → find key x xs ≡ none
  unfolding find
  find-IsFree x [] h = refl
  find-IsFree x (z ∷ zs) h = ground (arith, find-IsFree x zs h.1)

  pub find-none : (x : ℕ) (xs : List ℕ) → Sorted key xs → find key x xs ≡ none → IsFree x xs
  unfolding find erase_found erase
  find-none x xs h e = rw (← kept) (removed-IsFree x xs h)
    where
      kept : erase_found (find key x xs) xs ≡ xs
      kept = rw e refl

  pub insert-In : (x y : ℕ) (xs : List ℕ) → In y xs → In y (insert key x xs)
  unfolding insert
  insert-In x y [] m = elim m [ ]
  insert-In x y (z ∷ zs) m = ground (arith, insert-In x y zs)

  pub insert-cases : (x y : ℕ) (xs : List ℕ) → In y (insert key x xs) → (y ≡ x) ⊎ In y xs
  unfolding insert
  insert-cases x y [] m = m
  insert-cases x y (z ∷ zs) m = ground (arith, insert-cases x y zs)

  -- A new key goes in.
  pub insert_self : (x : ℕ) (xs : List ℕ) → IsFree x xs → In x (insert key x xs)
  unfolding insert
  insert_self x [] h = inl refl
  insert_self x (z ∷ zs) h = ground (arith, insert_self x zs h.1)

  -- A key that is there already: the set stays as it is.
  pub insert_collision :
      (x y : ℕ) (xs : List ℕ) → Sorted key xs → In y xs → key y ≡ key x → insert key x xs ≡ xs
  unfolding insert
  insert_collision x y [] h m e = elim m [ ]
  insert_collision x y (z ∷ zs) h (inl p) e = ground (arith, ap key p)
  insert_collision x y (z ∷ zs) h (inr m) e =
      let l : key z < key y = All-In _ zs h.0 m in ground (arith, insert_collision x y zs h.1 m e)
