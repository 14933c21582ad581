-- ===== src/FdManager/Instance.antt =====
-- Singleton<FdManager> of corlib/fd_manager.h: threads that call GetInstance and DestroyInstance, as
-- interleaved steps. What std::mutex does is that one thread has it at a time.
pub mod One
use corlib.Base.{
  ℕ, suc, ◌+◌, ◌≡◌, ◌≢◌, refl, sym, subst, ap, inl, inr, ◌∙◌, Bool, true, false, Option, none, some,
  List, [], ◌∷◌, is_some, All, All-map, arith, ◌==◌, ==_iff, if◌then◌else◌, Bool-cases,
  Option-cases,
}

-- Where a thread stands: outside, at the lock of one of the two functions, or, with the lock, before
-- the statement named.
pub data Pc : Type 0 where
  outside at_get at_destroy : Pc
  at_test at_new at_return at_delete : Pc

-- `instance`; the thread that has `mutex`; the number of objects that have been made, which are
-- numbered in turn, and of those deleted; what GetInstance has returned since DestroyInstance ran
-- last; and the threads.
pub record Single : Type 0 where
  pub instance : Option ℕ
  pub owner : Option ℕ
  pub made : ℕ
  pub deleted : ℕ
  pub returned : List (Option ℕ)
  pub pc : ℕ → Pc

-- Before any call.
abbrev pub initial : Single
initial = record {
  instance = none;
  owner = none;
  made = 0;
  deleted = 0;
  returned = [];
  pc = λ i. outside;
}

abbrev pub move : Single → ℕ → Pc → Single
move s i p = record s { pc = λ j. if i == j then p else s.pc j }

-- std::lock_guard: the thread goes on where the mutex is free.
abbrev pub lock : Single → ℕ → Pc → Single
lock s i p = if is_some s.owner then s else record (move s i p) { owner = some i }

abbrev pub unlock : Single → ℕ → Single
unlock s i = record (move s i outside) { owner = none }

-- The statement before which thread `i` stands in GetInstance or DestroyInstance.
unfoldable pub perform : Single → ℕ → Pc → Single
perform s i outside = s
perform s i at_get = lock s i at_test
perform s i at_destroy = lock s i at_delete
perform s i at_test = move s i (if is_some s.instance then at_return else at_new)
perform s i at_new = record (move s i at_return) { instance = some s.made; made = suc s.made }
perform s i at_return = record (unlock s i) { returned = s.instance ∷ s.returned }
perform s i at_delete = record (unlock s i) {
  deleted = if is_some s.instance then suc s.deleted else s.deleted;
  instance = none;
  returned = [];
}

abbrev pub advance : Single → ℕ → Single
advance s i = perform s i (s.pc i)

-- A thread that is outside calls one of the two functions, or a thread goes on.
pub data Step (s : Single) : Single → Type 0 where
  calls_get : (i : ℕ) → s.pc i ≡ outside → Step s (move s i at_get)
  calls_destroy : (i : ℕ) → s.pc i ≡ outside → Step s (move s i at_destroy)
  advances : (i : ℕ) → Step s (advance s i)

pub data Reach (s : Single) : Single → Type 0 where
  start : Reach s s
  next : {t u : Single} → Reach s t → Step t u → Reach s u

abbrev pub is_inside : Pc → Bool
is_inside p = elim p [ outside ↦ false | at_get ↦ false | at_destroy ↦ false | _ ↦ true ]
