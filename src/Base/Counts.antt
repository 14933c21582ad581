-- ===== src/Base/Counts.antt =====
-- Sums over lists, and what is left of a list behind its first elements.
use Prim.Native.Nat.{ℕ, zero, suc, ◌+◌, ◌≤◌, ◌<◌}
use mathlib.Core.Path.{◌≡◌, refl, ap, subst}
use mathlib.Core.Logic.{◌≢◌, ◌⊎◌, inl, inr}
use mathlib.Core.List.{List, [], ◌∷◌, ◌++◌}
use mathlib.Core.Option.{none, some}
use native.Mathlib.Omega.{arith}
use corlib.Base.Lists.{length, get_elem?, set, take, All}

-- The sum of what `f` counts in the elements of a list.
abbrev pub total {ℓ} : {A : Type ℓ} → (A → ℕ) → List A → ℕ
total f [] = 0
total f (x ∷ xs) = f x + total f xs

pub total-set {ℓ} :
    {A : Type ℓ} (f : A → ℕ) (xs : List A) (i : ℕ) (a b : A)
    → get_elem? xs i ≡ some a
    → total f (set xs i b) + f a ≡ total f xs + f b
total-set f [] i a b e = cc
total-set f (x ∷ xs) zero a b e = let p : x ≡ a = cc in rw p (omega arith)
total-set f (x ∷ xs) (suc i) a b e = omega (arith, total-set f xs i a b e)

pub total-append {ℓ} :
    {A : Type ℓ} (f : A → ℕ) (xs ys : List A) → total f (xs ++ ys) ≡ total f xs + total f ys
total-append f [] ys = omega arith
total-append f (x ∷ xs) ys = omega (arith, total-append f xs ys)

module _ {A : Type 0} (P : A → Type 0) where
  pub All-get_elem? : (xs : List A) (i : ℕ) {a : A} → All P xs → get_elem? xs i ≡ some a → P a
  All-get_elem? [] i h e = cc
  All-get_elem? (x ∷ xs) zero {a} h e = let p : x ≡ a = cc in subst P p h.0
  All-get_elem? (x ∷ xs) (suc i) h e = All-get_elem? xs i h.1 e

  pub All-set : (xs : List A) (i : ℕ) {a : A} → All P xs → P a → All P (set xs i a)
  All-set [] i h p = tt
  All-set (x ∷ xs) zero h p = (p, h.1)
  All-set (x ∷ xs) (suc i) h p = (h.0, All-set xs i h.1 p)

module _ {A : Type 0} (f : A → ℕ) where
  pub le-total : (xs : List A) (i : ℕ) {a : A} → get_elem? xs i ≡ some a → f a ≤ total f xs
  le-total [] i e = cc
  le-total (x ∷ xs) zero {a} e = let p : x ≡ a = cc in rw⁻¹ p (omega arith)
  le-total (x ∷ xs) (suc i) e = omega (arith, le-total xs i e)

  -- Two elements at different places count both.
  pub le-total_two :
      (xs : List A) (i j : ℕ) {a b : A}
      → get_elem? xs i ≡ some a
      → get_elem? xs j ≡ some b
      → i ≢ j
      → f a + f b ≤ total f xs
  le-total_two [] i j e k d = cc
  le-total_two (x ∷ xs) zero zero e k d = absurd (d refl)
  le-total_two (x ∷ xs) zero (suc j) {a} e k d =
      let p : x ≡ a = cc in rw⁻¹ p (omega (arith, le-total xs j k))
  le-total_two (x ∷ xs) (suc i) zero {a} {b} e k d =
      let p : x ≡ b = cc in rw⁻¹ p (omega (arith, le-total xs i e))
  le-total_two (x ∷ xs) (suc i) (suc j) e k d =
      omega (arith, le-total_two xs i j e k (λ q. d (ap suc q)))

  -- What counts something has an element that does.
  pub total-pos :
      (xs : List A) → 0 < total f xs → (i : ℕ) × (a : A) × (get_elem? xs i ≡ some a) × (0 < f a)
  total-pos [] h = absurd (omega arith)
  total-pos (x ∷ xs) h = elim (zero_or_pos (f x)) [
    | inl e ↦ let (i, a, k, p) = total-pos xs (omega arith) in (suc i, a, k, p)
    | inr p ↦ (zero, x, refl, p)
  ]
    where
      zero_or_pos : (n : ℕ) → (n ≡ 0) ⊎ (0 < n)
      zero_or_pos zero = inl refl
      zero_or_pos (suc n) = inr (omega arith)

module _ {ℓ} {A : Type ℓ} where
  abbrev pub drop : ℕ → List A → List A
  drop zero xs = xs
  drop (suc n) [] = []
  drop (suc n) (x ∷ xs) = drop n xs

  -- Nothing is left after `n` elements, or `x` is the next.
  pub drop-cases :
      (n : ℕ) (xs : List A)
      → ((length xs ≤ n) × (drop n xs ≡ []) × (get_elem? xs n ≡ none))
        ⊎ ((x : A) × (n < length xs)
            × (drop n xs ≡ x ∷ drop (suc n) xs)
            × (get_elem? xs n ≡ some x))
  drop-cases zero [] = inl (omega arith, refl, refl)
  drop-cases zero (x ∷ xs) = inr (x, omega arith, refl, refl)
  drop-cases (suc n) [] = inl (omega arith, refl, refl)
  drop-cases (suc n) (x ∷ xs) = elim (drop-cases n xs) [
    | inl (le, e, k) ↦ inl (omega arith, e, k)
    | inr (y, lt, e, k) ↦ inr (y, omega arith, e, k)
  ]

  pub drop-append_last :
      (n : ℕ) (xs : List A) (x : A) → n ≤ length xs → drop n (xs ++ x ∷ []) ≡ drop n xs ++ x ∷ []
  drop-append_last zero xs x h = refl
  drop-append_last (suc n) [] x h = absurd (omega arith)
  drop-append_last (suc n) (y ∷ xs) x h = drop-append_last n xs x (omega arith)

  pub drop_all : (n : ℕ) (xs : List A) → length xs ≤ n → drop n xs ≡ []
  drop_all zero [] h = refl
  drop_all zero (x ∷ xs) h = absurd (omega arith)
  drop_all (suc n) [] h = refl
  drop_all (suc n) (x ∷ xs) h = drop_all n xs (omega arith)

  pub take-drop : (n : ℕ) (xs : List A) → take n xs ++ drop n xs ≡ xs
  take-drop zero xs = refl
  take-drop (suc n) [] = refl
  take-drop (suc n) (x ∷ xs) = ap (λ ys. x ∷ ys) (take-drop n xs)
