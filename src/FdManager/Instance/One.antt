-- ===== src/FdManager/Instance/One.antt =====
-- What the threads that use Singleton<FdManager> of corlib/fd_manager.h get.
use corlib.Base.{
  ℕ, suc, ◌+◌, ◌≡◌, ◌≢◌, refl, sym, subst, ap, inl, inr, ◌∙◌, Bool, true, false, Option, none, some,
  [], ◌∷◌, is_some, All, All-map, arith, ◌==◌, ==_iff, if◌then◌else◌, Bool-cases, Option-cases,
}
use corlib.FdManager.Instance.{
  Pc, outside, at_get, at_destroy, at_test, at_new, at_return, at_delete, Single, initial, move,
  lock, unlock, perform, Step, calls_get, calls_destroy, advances, Reach, start, next, is_inside,
}

-- What holds of one thread.
pub record IsFit (s : Single) (i : ℕ) : Type 0 where
  pub held : is_inside (s.pc i) ≡ true → s.owner ≡ some i
  pub absent : s.pc i ≡ at_new → s.instance ≡ none
  pub present : s.pc i ≡ at_return → is_some s.instance ≡ true

pub record Inv (s : Single) : Type 0 where
  pub threads : (i : ℕ) → IsFit s i
  pub alike : All (λ a. a ≡ s.instance) s.returned
  pub some_back : (is_some s.instance ≡ false) → s.returned ≡ []
  pub balance : s.made ≡ s.deleted + (if is_some s.instance then 1 else 0)

-- A thread that moves while the others stand, where the object stays.
move-Inv : (s : Single) (i : ℕ) (p : Pc) → is_inside p ≡ false → Inv s → Inv (move s i p)
move-Inv s i p h v = record {
  threads = λ j. elim (Bool-cases (i == j)) [
    | inl e ↦ record {
      held = rw e (λ a. absurd (cc));
      absent = rw e (λ a. absurd (let b = ap is_inside a in cc));
      present = rw e (λ a. absurd (let b = ap is_inside a in cc));
    }
    | inr e ↦ record {
      held = rw e (v.threads j).held;
      absent = rw e (v.threads j).absent;
      present = rw e (v.threads j).present;
    }
  ];
  alike = v.alike;
  some_back = v.some_back;
  balance = v.balance;
}

outsider : (s : Single) (j : ℕ) → is_inside (s.pc j) ≡ false → IsFit s j
outsider s j h = record {
  held = λ a. absurd (cc);
  absent = λ a. absurd (let b = ap is_inside a in cc);
  present = λ a. absurd (let b = ap is_inside a in cc);
}

-- While a thread has the mutex no other is inside.
others-outside :
    (s : Single) (i j : ℕ) → Inv s → s.owner ≡ some i → i ≢ j → is_inside (s.pc j) ≡ false
others-outside s i j v o ne = elim (Bool-cases (is_inside (s.pc j))) [
  | inl y ↦ let q = (v.threads j).held y in absurd (ne (cc (o, q)))
  | inr n ↦ n
]

-- The threads after a statement of the thread `i` that has the mutex, or has just taken it.
after-IsFit :
    (s s' : Single) (i : ℕ) (p : Pc)
    → ((j : ℕ) → i ≢ j → is_inside (s.pc j) ≡ false)
    → s'.pc ≡ (move s i p).pc
    → IsFit s' i
    → (j : ℕ) → IsFit s' j
after-IsFit s s' i p alone e fit j = elim (Bool-cases (i == j)) [
  | inl same ↦ subst (IsFit s') ((==_iff i j).0 same) fit
  | inr other ↦ outsider s' j (rw (e, other) (alone j (λ q. let r = (==_iff i j).1 q in cc)))
]

moved_self : (s : Single) (i : ℕ) (p : Pc) → (move s i p).pc i ≡ p
moved_self s i p = rw ((==_iff i i).1 refl) refl

lock-Inv :
    (s : Single) (i : ℕ) (p : Pc)
    → is_inside p ≡ true
    → p ≢ at_new
    → p ≢ at_return
    → Inv s
    → Inv (lock s i p)
lock-Inv s i p y n r v = elim (Option-cases s.owner) [
  | inr (k, e) ↦
      subst Inv (sym (ap (λ o. if is_some o then s else record (move s i p) { owner = some i }) e))
        v
  | inl e ↦
      let s' = record (move s i p) { owner = some i } in
      let alone : (j : ℕ) → i ≢ j → is_inside (s.pc j) ≡ false = λ j ne.
        elim (Bool-cases (is_inside (s.pc j))) [
          | inl a ↦ let q = (v.threads j).held a in absurd (cc)
          | inr a ↦ a
        ] in
      subst Inv (sym (ap (λ o. if is_some o then s else s') e)) (record {
        threads = after-IsFit s s' i p alone refl (record {
          held = λ a. refl;
          absent = λ a. absurd (n (sym (moved_self s i p) ∙ a));
          present = λ a. absurd (r (sym (moved_self s i p) ∙ a));
        });
        alike = v.alike;
        some_back = v.some_back;
        balance = v.balance;
      })
]

is_some-none : (o : Option ℕ) → is_some o ≡ false → o ≡ none
is_some-none none e = refl
is_some-none (some a) e = cc

test-Inv :
    (s : Single) (i : ℕ) (b : Bool)
    → is_some s.instance ≡ b
    → s.owner ≡ some i
    → Inv s
    → Inv (move s i (if b then at_return else at_new))
test-Inv s i true e o v = record {
  threads =
      after-IsFit s (move s i at_return) i at_return (λ j. others-outside s i j v o) refl
        (record {
          held = λ a. o;
          absent = λ a. absurd (let b = sym (moved_self s i at_return) ∙ a in cc);
          present = λ a. e;
        });
  alike = v.alike;
  some_back = v.some_back;
  balance = v.balance;
}
test-Inv s i false e o v = record {
  threads =
      after-IsFit s (move s i at_new) i at_new (λ j. others-outside s i j v o) refl
        (record {
          held = λ a. o;
          absent = λ a. is_some-none s.instance e;
          present = λ a. absurd (let b = sym (moved_self s i at_new) ∙ a in cc);
        });
  alike = v.alike;
  some_back = v.some_back;
  balance = v.balance;
}

perform-Inv : (s : Single) (i : ℕ) (p : Pc) → s.pc i ≡ p → Inv s → Inv (perform s i p)
unfolding perform
perform-Inv s i outside e v = v
perform-Inv s i at_get e v = lock-Inv s i at_test refl (λ q. cc) (λ q. cc) v
perform-Inv s i at_destroy e v = lock-Inv s i at_delete refl (λ q. cc) (λ q. cc) v
perform-Inv s i at_test e v =
    test-Inv s i (is_some s.instance) refl ((v.threads i).held (rw e refl)) v
perform-Inv s i at_new e v =
    let o = (v.threads i).held (rw e refl) in
    let was = (v.threads i).absent e in
    record {
      threads =
          after-IsFit s (record (move s i at_return) { instance = some s.made; made = suc s.made })
            i at_return (λ j. others-outside s i j v o) refl
            (record {
              held = λ a. o;
              absent = λ a. absurd (let b = sym (moved_self s i at_return) ∙ a in cc);
              present = λ a. refl;
            });
      alike = rw (v.some_back (rw was refl)) tt;
      some_back = λ q. absurd (cc);
      balance = let k = v.balance in ground (arith, k, was);
    }
perform-Inv s i at_return e v =
    let o = (v.threads i).held (rw e refl) in
    let was = (v.threads i).present e in
    record {
      threads =
          after-IsFit s (record (unlock s i) { returned = s.instance ∷ s.returned }) i outside
            (λ j. others-outside s i j v o) refl (outsider _ i (rw ((==_iff i i).1 refl) refl));
      alike = (refl, v.alike);
      some_back = λ q. absurd (cc);
      balance = v.balance;
    }
perform-Inv s i at_delete e v =
    let o = (v.threads i).held (rw e refl) in
    record {
      threads =
          after-IsFit s
            (record (unlock s i) {
              instance = none;
              returned = [];
              deleted = if is_some s.instance then suc s.deleted else s.deleted;
            })
            i outside (λ j. others-outside s i j v o) refl
            (outsider _ i (rw ((==_iff i i).1 refl) refl));
      alike = tt;
      some_back = λ q. refl;
      balance = let k = v.balance in ground (arith, k);
    }

initial-Inv : Inv initial
initial-Inv = record {
  threads = λ i. outsider initial i refl;
  alike = tt;
  some_back = λ q. refl;
  balance = refl;
}

Step-Inv : {s t : Single} → Step s t → Inv s → Inv t
Step-Inv {s} (calls_get i e) v = move-Inv s i at_get refl v
Step-Inv {s} (calls_destroy i e) v = move-Inv s i at_destroy refl v
Step-Inv {s} (advances i) v = perform-Inv s i (s.pc i) refl v

Reach-Inv : {t : Single} → Reach initial t → Inv t
Reach-Inv start = initial-Inv
Reach-Inv (next r q) = Step-Inv q (Reach-Inv r)

-- However the threads that call GetInstance and DestroyInstance interleave: all that GetInstance has
-- returned since the object was last destroyed is the one object that `instance` points to, and of all
-- objects made that one, if there is one, is the only one that has not been deleted.
pub Reach-one :
    {t : Single}
    → Reach initial t
    → All (λ a. (a ≡ t.instance) × (is_some a ≡ true)) t.returned
      × (t.made ≡ t.deleted + (if is_some t.instance then 1 else 0))
Reach-one {t} r =
    let v = Reach-Inv r in
    (
      elim (Bool-cases (is_some t.instance)) [
        | inl e ↦
            All-map (λ a. a ≡ t.instance) (λ a. (a ≡ t.instance) × (is_some a ≡ true)) t.returned
              (λ a p. (p, ap is_some p ∙ e)) v.alike
        | inr e ↦ rw (v.some_back e) tt
      ],
      v.balance,
    )
