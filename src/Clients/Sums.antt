-- ===== src/Clients/Sums.antt =====
-- What the parent of client/client2.cpp adds up.
use corlib.Base.{
  ℕ, true, ◌&&◌, if◌then◌else◌, suc, ◌+◌, ◌%◌, ◌^◌, ◌<◌, ◌≡◌, refl, inl, inr, ◌⊎◌, ap, some, List,
  [], ◌∷◌, ◌++◌, map, length, length-append, get_elem?, set, total, total-set, total-append,
  le-total, Bool-cases, arith,
}
use corlib.Clients.{Turn, fails, count_request}
use corlib.Clients.Totals.{failing}
use corlib.Clients.Processes.{
  Script, Child, connecting, working, written, broken, Parent, forked, set_up, child_turn,
  add_requests, works, sets_up, makes_turn, writes, reads_count, reads_end, Reach, here, next,
}

-- The calls of a child that fail: one in its set-up, and those of its rounds.
abbrev pub set_up_fails : Script → ℕ
set_up_fails s = if s.opened && s.parsed && s.connected then 0 else 1

abbrev pub troubles : Script → ℕ
troubles s = set_up_fails s + total failing s.turns

abbrev pub rounds_in : Script → ℕ
rounds_in s = length s.turns

-- The rounds of a child, made or not, that are not in the pipe yet, and those that fail.
abbrev pub rounds_of : Child → ℕ
rounds_of c = elim c [
  | connecting s ↦ length s.turns
  | working ts n ↦ n + length ts
  | written ↦ 0
  | broken ↦ 0
]

abbrev pub failures_of : Child → ℕ
failures_of c = elim c [
  | connecting s ↦ troubles s
  | working ts n ↦ total failing ts
  | written ↦ 0
  | broken ↦ 1
]

abbrev pub id_of : ℕ → ℕ
id_of n = n

-- With `size` children that have `rounds` rounds to make.
pub record Inv (size rounds : ℕ) (p : Parent) : Type 0 where
  pub sound : total failures_of p.children ≡ 0
  pub counts : p.reads + length p.pipe + total works p.children ≡ size + p.short_reads
  pub late : (p.short_reads ≡ 0) ⊎ (length p.pipe + total works p.children ≡ 0)
  pub bounded : p.total_requests < 2 ^ 32
  pub balance :
      p.short_reads ≡ 0
      → (p.total_requests + total id_of p.pipe + total rounds_of p.children) % 2 ^ 32
        ≡ rounds % 2 ^ 32

sets_up-Inv :
    (size rounds : ℕ) (p : Parent) (i : ℕ) (s : Script)
    → get_elem? p.children i ≡ some (connecting s)
    → Inv size rounds p
    → Inv size rounds (record p { children = set p.children i (set_up s) })
unfolding set_up
sets_up-Inv size rounds p i s e v =
    let fine = le-total failures_of p.children i e in
    let quiet : set_up_fails s ≡ 0 = omega (arith, fine, v.sound) in
    let o : s.opened ≡ true = ground (arith, quiet) in
    let q : s.parsed ≡ true = ground (arith, quiet) in
    let k : s.connected ≡ true = ground (arith, quiet) in
    let old = connecting s in
    let new = working s.turns 0 in
    let a = total-set failures_of p.children i old new e in
    let b = total-set works p.children i old new e in
    let c = total-set rounds_of p.children i old new e in
    rw (o, q, k, set_up)
      (record {
        sound = omega (arith, a, v.sound);
        counts = omega (arith, b, v.counts);
        late = rw⁻¹ (same_works p i s b) v.late;
        bounded = v.bounded;
        balance = λ z. omega (arith, c, v.balance z);
      })
  where
    same_works :
        (p : Parent) (i : ℕ) (s : Script)
        → total works (set p.children i (working s.turns 0)) + 1 ≡ total works p.children + 1
        → total works p.children ≡ total works (set p.children i (working s.turns 0))
    same_works p i s h = omega (arith, h)

turns-Inv :
    (size rounds : ℕ) (p : Parent) (i : ℕ) (t : Turn) (ts : List Turn) (n : ℕ)
    → get_elem? p.children i ≡ some (working (t ∷ ts) n)
    → Inv size rounds p
    → Inv size rounds (record p { children = set p.children i (child_turn t ts n) })
unfolding child_turn
turns-Inv size rounds p i t ts n e v =
    let none = le-total failures_of p.children i e in
    elim (Bool-cases (fails t)) [
      | inl f ↦ absurd (ground (arith, f, none, v.sound))
      | inr f ↦
          let old = working (t ∷ ts) n in
          let new = working ts (count_request n) in
          let a = total-set failures_of p.children i old new e in
          let b = total-set works p.children i old new e in
          let c = total-set rounds_of p.children i old new e in
          let q : failing t ≡ 0 = rw f refl in
          rw (f, child_turn)
            (record {
              sound = omega (arith, a, v.sound, q);
              counts = omega (arith, b, v.counts);
              late = rw⁻¹ (same_works b) v.late;
              bounded = v.bounded;
              balance = λ z. omega (arith, c, v.balance z);
            })
    ]
  where
    same_works :
        total works (set p.children i (working ts (count_request n))) + 1
          ≡ total works p.children + 1
        → total works p.children ≡ total works (set p.children i (working ts (count_request n)))
    same_works h = omega (arith, h)

writes-Inv :
    (size rounds : ℕ) (p : Parent) (i n : ℕ)
    → get_elem? p.children i ≡ some (working [] n)
    → Inv size rounds p
    → Inv size rounds (record p { children = set p.children i written; pipe = p.pipe ++ n ∷ [] })
writes-Inv size rounds p i n e v =
    let a = total-set failures_of p.children i (working [] n) written e in
    let b = total-set works p.children i (working [] n) written e in
    let c = total-set rounds_of p.children i (working [] n) written e in
    let one = le-total works p.children i e in
    let long = length-append p.pipe (n ∷ []) in
    let more = total-append id_of p.pipe (n ∷ []) in
    record {
      sound = omega (arith, a, v.sound);
      counts = omega (arith, b, long, v.counts);
      late = elim v.late [ inl z ↦ inl z | inr z ↦ absurd (omega (arith, z, one)) ];
      bounded = v.bounded;
      balance = λ z. omega (arith, c, more, v.balance z);
    }

reads_count-Inv :
    (size rounds : ℕ) (p : Parent) (n : ℕ) (rest : List ℕ)
    → p.pipe ≡ n ∷ rest
    → Inv size rounds p
    → Inv size rounds (record (add_requests p n) { pipe = rest })
reads_count-Inv size rounds p n rest e v =
    let long = ap length e in
    let sum = ap (total id_of) e in
    record {
      sound = v.sound;
      counts = omega (arith, long, v.counts);
      late = elim v.late [ inl z ↦ inl z | inr z ↦ absurd (omega (arith, z, long)) ];
      bounded = omega arith;
      balance = λ z. omega (arith, sum, v.balance z);
    }

reads_end-Inv :
    (size rounds : ℕ) (p : Parent) (garbage : ℕ)
    → p.pipe ≡ []
    → total works p.children ≡ 0
    → Inv size rounds p
    → Inv size rounds (record (add_requests p garbage) { short_reads = suc p.short_reads })
reads_end-Inv size rounds p garbage e w v =
    let none = ap length e in
    record {
      sound = v.sound;
      counts = omega (arith, v.counts);
      late = inr (omega (arith, none, w));
      bounded = omega arith;
      balance = λ z. absurd (omega (arith, z));
    }

forked-total :
    (f : Child → ℕ) (g : Script → ℕ) (scripts : List Script)
    → ((s : Script) → f (connecting s) ≡ g s)
    → total f (map connecting scripts) ≡ total g scripts
forked-total f g [] h = refl
forked-total f g (s ∷ scripts) h = omega (arith, h s, forked-total f g scripts h)

total-one : (scripts : List Script) → total (λ s. 1) scripts ≡ length scripts
total-one [] = refl
total-one (s ∷ scripts) = omega (arith, total-one scripts)

forked-Inv :
    (scripts : List Script)
    → total troubles scripts ≡ 0
    → Inv (length scripts) (total rounds_in scripts) (forked scripts)
forked-Inv scripts quiet =
    let a = forked-total works (λ s. 1) scripts (λ s. refl) in
    let b = forked-total rounds_of rounds_in scripts (λ s. refl) in
    let c = forked-total failures_of troubles scripts (λ s. refl) in
    record {
      sound = omega (arith, c, quiet);
      counts = omega (arith, a, total-one scripts);
      late = inl refl;
      bounded = omega arith;
      balance = λ z. omega (arith, b);
    }

Reach-Inv :
    (scripts : List Script) {p : Parent}
    → total troubles scripts ≡ 0
    → Reach (forked scripts) p
    → Inv (length scripts) (total rounds_in scripts) p
Reach-Inv scripts quiet here = forked-Inv scripts quiet
Reach-Inv scripts quiet (next r (sets_up i s e)) =
    sets_up-Inv _ _ _ i s e (Reach-Inv scripts quiet r)
Reach-Inv scripts quiet (next r (makes_turn i t ts n e)) =
    turns-Inv _ _ _ i t ts n e (Reach-Inv scripts quiet r)
Reach-Inv scripts quiet (next r (writes i n e)) = writes-Inv _ _ _ i n e (Reach-Inv scripts quiet r)
Reach-Inv scripts quiet (next r (reads_count n rest e)) =
    reads_count-Inv _ _ _ n rest e (Reach-Inv scripts quiet r)
Reach-Inv scripts quiet (next r (reads_end g e w)) =
    reads_end-Inv _ _ _ g e w (Reach-Inv scripts quiet r)

nothing_left : (xs : List ℕ) → length xs ≡ 0 → total id_of xs ≡ 0
nothing_left [] h = refl
nothing_left (x ∷ xs) h = absurd (omega (arith, h))

no_rounds : (cs : List Child) → total works cs ≡ 0 → total rounds_of cs ≡ 0
no_rounds [] h = refl
no_rounds (connecting s ∷ cs) h = absurd (omega (arith, h))
no_rounds (working ts n ∷ cs) h = absurd (omega (arith, h))
no_rounds (written ∷ cs) h = omega (arith, no_rounds cs (omega (arith, h)))
no_rounds (broken ∷ cs) h = omega (arith, no_rounds cs (omega (arith, h)))

-- Where every child's socket, inet_pton and connect succeed and no send and no recv of any child fails: when the parent has read as many times as there are
-- children, every child had written its count before, no read has found nothing, and total_requests is
-- the number of all rounds, on 32 bits, in whatever order the children make their rounds and write.
pub total_requests-reads :
    (scripts : List Script) {p : Parent}
    → total troubles scripts ≡ 0
    → Reach (forked scripts) p
    → p.reads ≡ length scripts
    → (p.short_reads ≡ 0)
      × (total works p.children ≡ 0)
      × (p.total_requests ≡ total rounds_in scripts % 2 ^ 32)
total_requests-reads scripts {p} quiet r all =
    let v = Reach-Inv scripts quiet r in
    let none : p.short_reads ≡ 0 = elim v.late [
      | inl z ↦ z
      | inr z ↦ omega (arith, z, v.counts, all)
    ] in
    let idle : total works p.children ≡ 0 = omega (arith, none, v.counts, all) in
    let drained : length p.pipe ≡ 0 = omega (arith, none, v.counts, all) in
    let sum = nothing_left p.pipe drained in
    let over = no_rounds p.children idle in
    (none, idle, omega (arith, v.balance none, v.bounded, sum, over))
