-- ===== src/FdManager/Tests.antt =====
-- Runs of corlib/fd_manager.cpp on a small kernel: descriptors 0, 1 and 2 are files, all others are
-- sockets, and a kernel state is the status flags of every descriptor.
use corlib.Base.{
  ℕ, ◌≡◌, refl, All, ◌+◌, is_some, true, false, Option, none, some, ltb, ◌==◌, if◌then◌else◌, arith,
  get_elem?, get_elem?-replicate, inl, inr, subst, zero, suc, List, [], ◌∷◌, replicate,
}
use corlib.Base.Outcome.{done}
use corlib.Base.Flags.{has_nonblock}
use corlib.FdManager.{
  lookup, so_rcvtimeo, Files, FdCtx, FdManager, blank, empty, create, no_timeout,
}
use corlib.FdManager.Table.{IsValid, CtxIsValid}
use corlib.FdManager.Instance
use corlib.FdManager.Instance.One.{Reach-one}
use corlib.FdManager.Instance.{Single, initial, at_get, move, perform, advance, calls_get, advances}
use corlib.FdManager.Calls.{create_overwrites, with_timeout}
use corlib.FdManager.Map.{Call, gets, dels, Agree, perform_all_map}

pub getfl-setfl_flags :
    (k : ℕ → ℕ) (fd flags : ℕ)
    → has_nonblock (if fd == fd then flags else k fd) ≡ has_nonblock flags
getfl-setfl_flags k fd flags = grind arith

abbrev pub flag_files : Files
flag_files = record {
  Kernel = ℕ → ℕ;
  fstat = λ k fd. if ltb fd 3 then some false else some true;
  getfl = λ k fd. k fd;
  setfl = λ k fd flags j. if fd == j then flags else k j;
  getfl-setfl = getfl-setfl_flags;
  fstat-setfl = λ k fd flags j. refl;
}

abbrev pub blocking : ℕ → ℕ
blocking fd = 2

-- A context with a timeout, which the second of two threads replaces.
abbrev changed : FdCtx
changed = record (blank 0) { is_init = true; recv_timeout = 1500 }

abbrev one_file : FdManager
one_file = record { datas = some changed ∷ replicate 63 none }

one_file-entries :
    (fd : ℕ) (c : FdCtx) → get_elem? one_file.datas fd ≡ some (some c) → CtxIsValid fd c
one_file-entries zero c e =
    let p : changed ≡ c = cc in
    subst (CtxIsValid 0) p
      (record { same_fd = refl; system = refl; known = λ q. refl; not_closed = refl })
one_file-entries (suc fd) c e = elim (get_elem?-replicate {A = Option FdCtx} 63 none fd) [
  | inl p ↦ absurd (cc)
  | inr p ↦ absurd (cc)
]

one_file-IsValid : IsValid one_file
one_file-IsValid = record { room = omega arith; entries = one_file-entries }

create_overwrites_example :
    (k₁ : ℕ → ℕ) × (m₁ : FdManager) × (c : FdCtx) × (create flag_files blocking one_file 7
      ≡ done (k₁, m₁, c))
    × (lookup m₁ 7 true ≡ some (some c))
    × (k₂ : ℕ → ℕ) × (m₂ : FdManager) × (d : FdCtx) × (create flag_files blocking
          (with_timeout m₁ 7 c so_rcvtimeo 1500)
          7
        ≡ done (k₂, m₂, d))
    × (lookup m₂ 7 true ≡ some (some d))
    × (d.recv_timeout ≡ no_timeout)
    × (d.send_timeout ≡ no_timeout)
    × (d.user_nonblock ≡ false)
unfolding lookup
create_overwrites_example =
    create_overwrites flag_files blocking blocking one_file 7 so_rcvtimeo 1500 one_file-IsValid refl

-- A socket is entered, asked for, deleted and asked for again.
abbrev calls : List Call
calls = gets 70 true ∷ gets 70 false ∷ dels 70 ∷ gets 70 false ∷ []

perform_all_map_example : Agree flag_files calls (blocking, empty) (blocking, λ fd. none)
perform_all_map_example = perform_all_map flag_files calls blocking

-- The threads of the list go on one after the other.
abbrev run : Single → List ℕ → Single
run s [] = s
run s (i ∷ is) = run (advance s i) is

run-Reach : (a s : Single) (is : List ℕ) → Instance.Reach a s → Instance.Reach a (run s is)
run-Reach a s [] r = r
run-Reach a s (i ∷ is) r = run-Reach a (advance s i) is (Instance.next r (advances i))

-- Thread 1 calls GetInstance while thread 0 has the mutex.
abbrev both_called : Single
both_called = move (move initial 0 at_get) 1 at_get

abbrev turns : List ℕ
turns = 0 ∷ 1 ∷ 0 ∷ 0 ∷ 1 ∷ 0 ∷ 1 ∷ 1 ∷ 1 ∷ []

turns-Reach : Instance.Reach initial (run both_called turns)
turns-Reach =
    run-Reach initial both_called turns
      (Instance.next (Instance.next Instance.start (calls_get 0 refl)) (calls_get 1 refl))

-- Both get the object 0.
two_answers : (run both_called turns).returned ≡ some 0 ∷ some 0 ∷ []
unfolding perform
two_answers = refl

Reach-one_example :
    let t = run both_called turns in
    All (λ a. (a ≡ t.instance) × (is_some a ≡ true)) t.returned
    × (t.made ≡ t.deleted + (if is_some t.instance then 1 else 0))
Reach-one_example = Reach-one turns-Reach
