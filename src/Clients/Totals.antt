-- ===== src/Clients/Totals.antt =====
-- What client/client.cpp prints in the end.
use corlib.Base.{
  ℕ, ◌+◌, ◌%◌, ◌^◌, ◌<◌, ◌≡◌, refl, inl, inr, false, some, List, [], ◌∷◌, length, get_elem?, total,
  total-set, if◌then◌else◌, Bool-cases, arith,
}
use corlib.Clients.{Turn, fails, Load, client_turn, start_load, turns, Reach, here, next}

-- The rounds that make the process exit.
abbrev pub failing : Turn → ℕ
failing t = if fails t then 1 else 0

abbrev pub failing_left : Load → ℕ
failing_left l = total (total failing) l.threads

-- The rounds that are left.
abbrev pub left : Load → ℕ
left l = total length l.threads

pub record Inv (n f : ℕ) (l : Load) : Type 0 where
  pub failures : l.exited ≡ false → failing_left l ≡ f
  pub balance : l.exited ≡ false → (l.total_requests + left l) % 2 ^ 32 ≡ n % 2 ^ 32
  pub bounded : l.total_requests < 2 ^ 32

client_turn-Inv :
    (n m : ℕ) (l : Load) (i : ℕ) (t : Turn) (ts : List Turn)
    → l.exited ≡ false
    → get_elem? l.threads i ≡ some (t ∷ ts)
    → Inv n m l
    → Inv n m (client_turn l i t ts)
unfolding client_turn
client_turn-Inv n m l i t ts on e v = elim (Bool-cases (fails t)) [
  | inl f ↦
      rw (f, client_turn)
        (record { failures = λ x. absurd (cc); balance = λ x. absurd (cc); bounded = v.bounded })
  | inr f ↦
      rw (f, client_turn)
        (record {
          failures = λ x.
              let k = total-set (total failing) l.threads i (t ∷ ts) ts e in
              let none : failing t ≡ 0 = rw f refl in omega (arith, v.failures on, k, none);
          balance = λ x. omega (arith, v.balance on, total-set length l.threads i (t ∷ ts) ts e);
          bounded = omega arith;
        })
]

Reach-Inv :
    (ts : List (List Turn)) {l : Load}
    → Reach (start_load ts) l
    → Inv (total length ts) (total (total failing) ts) l
Reach-Inv ts here = record {
  failures = λ x. refl;
  balance = λ x. omega arith;
  bounded = omega arith;
}
Reach-Inv ts (next r (turns i t us on e)) = client_turn-Inv _ _ _ i t us on e (Reach-Inv ts r)

no_rounds : (ts : List (List Turn)) → total length ts ≡ 0 → total (total failing) ts ≡ 0
no_rounds [] h = refl
no_rounds ([] ∷ ts) h = omega (arith, no_rounds ts (omega (arith, h)))
no_rounds ((t ∷ us) ∷ ts) h = absurd (omega (arith, h))

-- However the threads interleave: where all have come to their ends and the process was not made to exit
-- by a failing send or recv, none of their rounds failed, and total_requests is the number of them on
-- 32 bits, those in which no byte came included.
pub total_requests_lem :
    (ts : List (List Turn)) {l : Load}
    → Reach (start_load ts) l
    → l.exited ≡ false
    → left l ≡ 0
    → (total (total failing) ts ≡ 0) × (l.total_requests ≡ total length ts % 2 ^ 32)
total_requests_lem ts {l} r on over =
    let v = Reach-Inv ts r in
    let quiet = no_rounds l.threads over in
    (omega (arith, v.failures on, quiet), omega (arith, v.balance on, v.bounded, over))
