-- ===== src/Sync/Exclusion.antt =====
-- What class CASLock of corlib/mutex.h guarantees to threads that take it by scoped locks.
use corlib.Base.{
  ℕ, zero, suc, ◌+◌, ◌≤◌, ◌<◌, ◌≡◌, ◌≢◌, refl, inl, inr, Bool, true, false, some, List, [], ◌∷◌,
  All, All-set, All-get_elem?, get_elem?, total, total-set, le-total, le-total_two, total-pos,
  arith, if◌then◌else◌, length, Bool-cases,
}
use corlib.Sync.Scoped.{MutexCall, acquire, release, Alternates}
use corlib.Sync.CasLock.{CasLock, Client, Inv, IsScoped, Run, advance, entered, step, start, next}

abbrev bit : Bool → ℕ
bit b = if b then 1 else 0

advance-Kept :
    (flag inside : Bool) (script : List MutexCall)
    → Alternates inside script false
    → bit inside ≤ bit flag
    → let r = advance flag (record { script = script; inside = inside }) in
      IsScoped r.1 × (entered r.1 + bit flag ≡ bit inside + bit r.0)
unfolding advance
advance-Kept flag inside [] h k = (h, refl)
advance-Kept true inside (acquire ∷ cs) h k = (h, refl)
advance-Kept false inside (acquire ∷ cs) h k = (h.1, rw h.0 refl)
advance-Kept true inside (release ∷ cs) h k = (h.1, rw h.0 refl)
advance-Kept false inside (release ∷ cs) h k = absurd (ground arith)

step-Inv :
    (l : CasLock) (i : ℕ) (c : Client) → get_elem? l.clients i ≡ some c → Inv l → Inv (step l i c)
step-Inv l i c e v =
    let one = le-total entered l.clients i e in
    let k =
      advance-Kept l.flag c.inside c.script (All-get_elem? IsScoped l.clients i v.scoped e)
        (omega (arith, one, v.held)) in
    record {
      scoped = All-set IsScoped l.clients i v.scoped k.0;
      held = omega (arith, total-set entered l.clients i c (advance l.flag c).1 e, k.1, v.held);
    }

Run-Inv : {l m : CasLock} → Run l m → Inv l → Inv m
Run-Inv start v = v
Run-Inv (next {m} i c r e) v = step-Inv m i c e (Run-Inv r v)

-- At the start the flag is clear, every thread is outside, and its calls alternate.
pub record IsFresh (l : CasLock) : Type 0 where
  pub clear : l.flag ≡ false
  pub scoped : All IsScoped l.clients
  pub outside : total entered l.clients ≡ 0

IsFresh-Inv : (l : CasLock) → IsFresh l → Inv l
IsFresh-Inv l h = record { scoped = h.scoped; held = rw h.clear h.outside }

-- Threads whose calls alternate, as those of scoped locks do, take the lock one at a time: from a clear
-- flag with every thread outside, however their steps interleave, while a thread is between lock() and
-- unlock() the flag is set and every other thread is outside.
pub Run-exclusive :
    {l m : CasLock} (i j : ℕ) (c d : Client)
    → IsFresh l
    → Run l m
    → get_elem? m.clients i ≡ some c
    → get_elem? m.clients j ≡ some d
    → i ≢ j
    → c.inside ≡ true
    → (m.flag ≡ true) × (d.inside ≡ false)
Run-exclusive {l} {m} i j c d h r here there ne in_c =
    let two = le-total_two entered m.clients i j here there ne in
    let held = (Run-Inv r (IsFresh-Inv l h)).held in (ground arith, ground arith)

-- The calls that the threads have still to make.
abbrev pub remaining : CasLock → ℕ
remaining l = total (λ c. length c.script) l.clients

-- A clear flag lets any thread go on, and a set one the thread that is inside.
advance-free :
    (c : Client) → 0 < length c.script → suc (length (advance false c).1.script) ≡ length c.script
unfolding advance
advance-free c h = go c.script c.inside h
  where
    go :
        (cs : List MutexCall) (b : Bool)
        → 0 < length cs
        → suc (length (advance false (record { script = cs; inside = b })).1.script) ≡ length cs
    go [] b h = absurd (omega arith)
    go (acquire ∷ cs) b h = refl
    go (release ∷ cs) b h = refl

advance-inside :
    (c : Client)
    → IsScoped c
    → c.inside ≡ true
    → suc (length (advance true c).1.script) ≡ length c.script
unfolding advance
advance-inside c h e = go c.script c.inside e h
  where
    go :
        (cs : List MutexCall) (b : Bool)
        → b ≡ true
        → Alternates b cs false
        → suc (length (advance true (record { script = cs; inside = b })).1.script) ≡ length cs
    go [] b e h = cc
    go (acquire ∷ cs) b e h = cc
    go (release ∷ cs) b e h = refl

-- While the flag is set, some thread is inside, and has a call to make.
holder :
    (l : CasLock)
    → Inv l
    → l.flag ≡ true
    → (i : ℕ) × (c : Client) × (get_elem? l.clients i ≡ some c)
      × (suc (length (advance true c).1.script) ≡ length c.script)
holder l v e =
    let (i, c, here, p) = total-pos entered l.clients (rw v.held (rw e (omega arith))) in
    let inside : c.inside ≡ true = elim (Bool-cases c.inside) [
      | inl y ↦ y
      | inr n ↦ absurd (ground arith)
    ] in
    (i, c, here, advance-inside c (All-get_elem? IsScoped l.clients i v.scoped here) inside)

-- Some thread can make a call that its loop does not repeat.
progress :
    (l : CasLock)
    → Inv l
    → 0 < remaining l
    → (i : ℕ) × (c : Client) × (get_elem? l.clients i ≡ some c)
      × (suc (length (advance l.flag c).1.script) ≡ length c.script)
progress l v h = elim (Bool-cases l.flag) [
  | inl e ↦ let (i, c, here, p) = holder l v e in (i, c, here, rw e p)
  | inr e ↦
      let (i, c, here, p) = total-pos (λ c. length c.script) l.clients h in
      (i, c, here, rw e (advance-free c p))
]

no_calls-clear : (l : CasLock) → Inv l → remaining l ≡ 0 → l.flag ≡ false
no_calls-clear l v h = elim (Bool-cases l.flag) [
  | inl e ↦
      let (i, c, here, p) = holder l v e in
      absurd (omega (arith, p, h, le-total (λ c. length c.script) l.clients i here))
  | inr e ↦ e
]

Run-append : {l m n : CasLock} → Run l m → Run m n → Run l n
Run-append r start = r
Run-append r (next i c s e) = next i c (Run-append r s) e

finish_on :
    (fuel : ℕ) (l : CasLock)
    → Inv l
    → remaining l ≡ fuel
    → (m : CasLock) × Run l m × (remaining m ≡ 0) × (m.flag ≡ false)
finish_on zero l v h = (l, start, h, no_calls-clear l v h)
finish_on (suc n) l v h =
    let (i, c, here, p) = progress l v (omega arith) in
    let (m, r, done, clear) = finish_on n (step l i c) (step-Inv l i c here v) (
      omega
        (arith, p, h, total-set (λ c. length c.script) l.clients i c (advance l.flag c).1 here)) in
    (m, Run-append (next i c start here) r, done, clear)

-- Threads whose calls alternate never block each other for good: from every state that they reach, some
-- further steps let every thread make all its calls, and leave the flag clear.
pub Run-finishes :
    {l m : CasLock}
    → IsFresh l
    → Run l m
    → (n : CasLock) × Run m n × (remaining n ≡ 0) × (n.flag ≡ false)
Run-finishes {l} {m} h r = finish_on (remaining m) m (Run-Inv r (IsFresh-Inv l h)) refl
