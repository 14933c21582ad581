-- ===== src/EpollServer/Tests.antt =====
-- A run of epoll/main.cpp on a kernel where descriptor 3 listens and connections come as 7, one at a time.
use corlib.Base.{
  Distinct, ℕ, ◌≡◌, ◌≢◌, ◌≤◌, refl, subst, inl, inr, Bool, true, false, ◌||◌, Option, none, some,
  List, [], ◌∷◌, All, length, ◌==◌, ==_iff, if◌then◌else◌, Bool-cases, arith,
}
use corlib.EpollServer.{Sockets, accept_one, respond, handle, handle_all, round, rounds}
use corlib.EpollServer.Serving.{IsServing, RoundsUsed, rounds_lem}

-- Which descriptors are open, and which are watched.
abbrev Table : Type 0
Table = (ℕ → Bool) × (ℕ → Bool)

abbrev assign : (ℕ → Bool) → ℕ → Bool → ℕ → Bool
assign f c b = λ j. if j == c then b else f j

abbrev accepts : Table → ℕ → Table × Option ℕ
accepts k l = if k.0 7 then (k, none) else ((assign k.0 7 true, k.1), some 7)

abbrev closes : Table → ℕ → Table
closes k c = (assign k.0 c false, assign k.1 c false)

abbrev ready : Table → Option (List ℕ)
ready k = if k.1 3 then (if k.1 7 then some (3 ∷ 7 ∷ []) else some (3 ∷ [])) else some []

accepts-none : (k : Table) (l j : ℕ) → (accepts k l).1 ≡ none → (accepts k l).0.0 j ≡ k.0 j
accepts-none k l j e = elim (Bool-cases (k.0 7)) [
  | inl o ↦ rw o refl
  | inr o ↦ absurd (let x = rw o at e in cc)
]

accepts-some :
    (k : Table) (l c : ℕ)
    → (accepts k l).1 ≡ some c
    → (k.0 c ≡ false) × ((accepts k l).0.0 c ≡ true)
accepts-some k l c e = ground (arith, e)

accepts-other :
    (k : Table) (l c j : ℕ) → (accepts k l).1 ≡ some c → j ≢ c → (accepts k l).0.0 j ≡ k.0 j
accepts-other k l c j e ne = ground (arith, e, ne)

accepts-watched : (k : Table) (l j : ℕ) → (accepts k l).0.1 j ≡ k.1 j
accepts-watched k l j = ground arith

assign_self : (f : ℕ → Bool) (c : ℕ) (b : Bool) → assign f c b c ≡ b
assign_self f c b = ground arith

assign_other : (f : ℕ → Bool) (c j : ℕ) (b : Bool) → j ≢ c → assign f c b j ≡ f j
assign_other f c j b ne = ground arith

abbrev IsReport : Table → List ℕ → Type 0
IsReport k fds = All (λ fd. k.1 fd ≡ true) fds × Distinct fds × (length fds ≤ 10)

ready-reports : (k : Table) (fds : List ℕ) → ready k ≡ some fds → IsReport k fds
ready-reports k fds e = elim (Bool-cases (k.1 3)) [
  | inr no_listen ↦
      let p : [] ≡ fds = (let x = rw no_listen at e in cc) in
      subst (IsReport k) p (tt, tt, omega arith)
  | inl listens ↦ elim (Bool-cases (k.1 7)) [
    | inl both ↦
        let p : 3 ∷ 7 ∷ [] ≡ fds = (let x = rw (listens, both) at e in cc) in
        subst (IsReport k) p
          ((listens, (both, tt)), (((λ q. absurd (cc)), tt), (tt, tt)), omega arith)
    | inr one ↦
        let p : 3 ∷ [] ≡ fds = (let x = rw (listens, one) at e in cc) in
        subst (IsReport k) p ((listens, tt), (tt, tt), omega arith)
  ]
]

abbrev tables : Sockets
tables = record {
  Kernel = Table;
  open_in = λ k. k.0;
  watched = λ k. k.1;
  accept = accepts;
  add = λ k c. ((k.0, assign k.1 c true), true);
  read = λ k c. (k, true);
  write = λ k c. k;
  close = closes;
  wait = λ k. (k, ready k);
  accept-none = accepts-none;
  accept-some = accepts-some;
  accept-other = accepts-other;
  accept-watched = accepts-watched;
  add-open = λ k c j. refl;
  add-watched = λ k c e. assign_self k.1 c true;
  add-other = λ k c j ne. assign_other k.1 c j true ne;
  read-same = λ k c j. (refl, refl);
  write-same = λ k c j. (refl, refl);
  close-self = λ k c. (assign_self k.0 c false, assign_self k.1 c false);
  close-other = λ k c j ne. (assign_other k.0 c j false ne, assign_other k.1 c j false ne);
  wait-same = λ k j. (refl, refl);
  wait-reports = ready-reports;
}

-- Descriptors 0 and 3 are open at the start.
abbrev early : ℕ → Bool
early j = j == 0 || j == 3

abbrev at_start : Table
at_start = (early, λ j. j == 3)

at_start-IsServing : IsServing tables 3 early at_start
at_start-IsServing = record {
  listening = refl;
  early_listen = refl;
  early_open = λ j e. e;
  early_alone = λ j e w. (==_iff j 3).0 w;
  watched_open = λ j w. rw ((==_iff j 3).0 w) refl;
  open_watched = λ j o e. absurd (cc);
}

rounds_lem_example :
    IsServing tables 3 early (rounds tables 3 2 at_start).0 × RoundsUsed tables 3 early 2 at_start
unfolding rounds round handle_all handle accept_one respond
rounds_lem_example = rounds_lem tables 3 early 2 at_start at_start-IsServing refl
