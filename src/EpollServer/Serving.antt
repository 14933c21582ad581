-- ===== src/EpollServer/Serving.antt =====
-- What the server of epoll/main.cpp keeps: besides the descriptors that it starts with, it has open exactly
-- those that it waits for.
mod Steps
pub use Steps.*
use corlib.Base.{
  Distinct, ℕ, zero, suc, ◌≡◌, ◌≢◌, ◌⊎◌, inl, inr, sym, ◌∙◌, subst, Bool, true, false, List, [],
  ◌∷◌, All, All-map, ◌==◌, ==_iff, Bool-cases, Option-cases, WhenSome,
}
use native.Mathlib.Decide.{ℕ_discrete}
use corlib.EpollServer.{Sockets, accept_one, respond, handle, handle_all, round, rounds}

module _ (sockets : Sockets) (listen_fd : ℕ) (early : ℕ → Bool) where
  open sockets use {Kernel, open_in, watched, accept, add, read, write, close, wait}

  abbrev pub handle_one : Kernel → ℕ → Kernel × Bool
  handle_one k fd = handle sockets listen_fd k fd

  -- An event that is handled on an open descriptor, which is closed by it unless it listens.
  abbrev pub IsUsed : Kernel → ℕ → Type 0
  IsUsed k fd =
      (open_in k fd ≡ true) × ((fd ≡ listen_fd) ⊎ (open_in (handle_one k fd).0 fd ≡ false))

  respond-closes : (k : Kernel) (fd : ℕ) → open_in (respond sockets listen_fd k fd) fd ≡ false
  unfolding respond
  respond-closes k fd = elim (Bool-cases (read k fd).1) [
    | inl e ↦ rw (e, respond) (sockets.close-self (write (read k fd).0 fd) fd).0
    | inr e ↦ rw (e, respond) (sockets.close-self (read k fd).0 fd).0
  ]

  handle-IsServing :
      (k : Kernel) (fd : ℕ)
      → IsServing sockets listen_fd early k
      → watched k fd ≡ true
      → (handle_one k fd).1 ≡ true
      → IsServing sockets listen_fd early (handle_one k fd).0
        × IsUsed k fd
        × ((j : ℕ) → j ≢ fd → watched k j ≡ true → watched (handle_one k fd).0 j ≡ true)
  unfolding handle
  handle-IsServing k fd v w go = elim (Bool-cases (fd == listen_fd)) [
    | inl e ↦
        let r = accept_one-IsServing sockets listen_fd early k v (rw (e, handle) at go) in
        rw (e, handle)
          (r.0, (v.watched_open fd w, inl ((==_iff fd listen_fd).0 e)), λ j ne x. r.1 j x)
    | inr e ↦
        let ne : fd ≢ listen_fd = λ q. let p = (==_iff fd listen_fd).1 q in cc in
        let r = respond-IsServing sockets listen_fd early k fd v w ne in
        rw (e, handle) (r.0, (v.watched_open fd w, inr (respond-closes k fd)), r.1)
  ]

  -- The events of a batch, each in the state that the ones before it leave.
  abbrev pub AllUsed : Kernel → List ℕ → Type 0
  AllUsed k [] = Unit
  AllUsed k (fd ∷ fds) = IsUsed k fd × AllUsed (handle_one k fd).0 fds

  All-kept :
      (k k' : Kernel) (c : ℕ) (fds : List ℕ)
      → ((j : ℕ) → j ≢ c → watched k j ≡ true → watched k' j ≡ true)
      → All (λ y. y ≢ c) fds
      → All (λ fd. watched k fd ≡ true) fds
      → All (λ fd. watched k' fd ≡ true) fds
  All-kept k k' c [] stay d w = tt
  All-kept k k' c (fd ∷ fds) stay d w = (stay fd d.0 w.0, All-kept k k' c fds stay d.1 w.1)

  handle_all-IsServing :
      (k : Kernel) (fds : List ℕ)
      → IsServing sockets listen_fd early k
      → All (λ fd. watched k fd ≡ true) fds
      → Distinct fds
      → (handle_all sockets listen_fd k fds).1 ≡ true
      → IsServing sockets listen_fd early (handle_all sockets listen_fd k fds).0 × AllUsed k fds
  unfolding handle_all
  handle_all-IsServing k [] v w d go = (v, tt)
  handle_all-IsServing k (fd ∷ fds) v w d go = elim (Bool-cases (handle_one k fd).1) [
    | inl e ↦
        let (v', used, stay) = handle-IsServing k fd v w.0 e in
        let w' = All-kept k (handle_one k fd).0 fd fds stay d.0 w.1 in
        let r = handle_all-IsServing (handle_one k fd).0 fds v' w' d.1 (rw (e, handle_all) at go) in
        rw (e, handle_all) (r.0, (used, r.1))
    | inr e ↦ absurd (let x = rw (e, handle_all) at go in cc)
  ]

  -- The batches of `n` rounds.
  abbrev pub RoundsUsed : ℕ → Kernel → Type 0
  RoundsUsed zero k = Unit
  RoundsUsed (suc n) k =
      WhenSome (AllUsed (wait k).0) (wait k).1 × RoundsUsed n (round sockets listen_fd k).0

  round-IsServing :
      (k : Kernel)
      → IsServing sockets listen_fd early k
      → (round sockets listen_fd k).1 ≡ true
      → IsServing sockets listen_fd early (round sockets listen_fd k).0
        × WhenSome (AllUsed (wait k).0) (wait k).1
  unfolding round
  round-IsServing k v go = elim (Option-cases (wait k).1) [
    | inl e ↦ absurd (let x = rw (e, round) at go in cc)
    | inr (fds, e) ↦
        let (w, d, _) = sockets.wait-reports k fds e in
        let s = sockets.wait-same k in
        let w' =
          All-map (λ fd. watched k fd ≡ true) (λ fd. watched (wait k).0 fd ≡ true) fds
            (λ fd x. (s fd).1 ∙ x) w in
        rw (e, round)
          (handle_all-IsServing (wait k).0 fds (Same-IsServing sockets listen_fd early k _ s v) w' d
            (rw (e, round) at go))
  ]

  -- Let a server start with its listening socket watched, among other open descriptors that it does not
  -- watch, and run `n` rounds without returning. Then the descriptors that are open besides those of
  -- the start are exactly the ones that it waits for, and it still listens: no connection is lost and
  -- none that was closed is waited for. Every event was handled on an open descriptor, and every
  -- connection that was read was closed by the same event.
  pub rounds_lem :
      (n : ℕ) (k : Kernel)
      → IsServing sockets listen_fd early k
      → (rounds sockets listen_fd n k).1 ≡ true
      → IsServing sockets listen_fd early (rounds sockets listen_fd n k).0 × RoundsUsed n k
  unfolding rounds
  rounds_lem zero k v go = (v, tt)
  rounds_lem (suc n) k v go = elim (Bool-cases (round sockets listen_fd k).1) [
    | inl e ↦
        let r = round-IsServing k v e in
        let rest = rounds_lem n (round sockets listen_fd k).0 r.0 (rw (e, rounds) at go) in
        rw (e, rounds) (rest.0, (r.1, rest.1))
    | inr e ↦ absurd (let x = rw (e, rounds) at go in cc)
  ]
