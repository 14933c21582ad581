-- ===== src/EpollServer.antt =====
-- epoll/main.cpp: a server on plain epoll that answers each connection once, against which the library
-- is measured. The kernel is the parameter `Sockets`.
pub mod Serving
pub mod Tests
use corlib.Base.{
  ℕ, zero, suc, ◌≤◌, ◌≡◌, ◌≢◌, Bool, true, false, Option, none, some, List, [], ◌∷◌, All, Distinct,
  length, ◌==◌, if◌then◌else◌,
}

-- The calls of the kernel that the server makes, and what they do to descriptors and interest list.
pub record Sockets : Type 1 where
  pub Kernel : Type 0
  -- Whether the descriptor is open in this process, and whether it is in the interest list.
  pub open_in : Kernel → ℕ → Bool
  pub watched : Kernel → ℕ → Bool
  -- accept, with the new descriptor; epoll_ctl with EPOLL_CTL_ADD and EPOLLIN, and whether it succeeds;
  -- read, and whether it returns a positive number; write; close; epoll_wait, with the descriptors that
  -- it reports.
  pub accept : Kernel → ℕ → Kernel × Option ℕ
  pub add : Kernel → ℕ → Kernel × Bool
  pub read : Kernel → ℕ → Kernel × Bool
  pub write : Kernel → ℕ → Kernel
  pub close : Kernel → ℕ → Kernel
  pub wait : Kernel → Kernel × Option (List ℕ)
  -- accept returns a descriptor that was not open.
  pub accept-none :
      (k : Kernel) (l j : ℕ) → (accept k l).1 ≡ none → open_in (accept k l).0 j ≡ open_in k j
  pub accept-some :
      (k : Kernel) (l c : ℕ)
      → (accept k l).1 ≡ some c
      → (open_in k c ≡ false) × (open_in (accept k l).0 c ≡ true)
  pub accept-other :
      (k : Kernel) (l c j : ℕ)
      → (accept k l).1 ≡ some c
      → j ≢ c
      → open_in (accept k l).0 j ≡ open_in k j
  pub accept-watched : (k : Kernel) (l j : ℕ) → watched (accept k l).0 j ≡ watched k j
  pub add-open : (k : Kernel) (c j : ℕ) → open_in (add k c).0 j ≡ open_in k j
  pub add-watched : (k : Kernel) (c : ℕ) → (add k c).1 ≡ true → watched (add k c).0 c ≡ true
  pub add-other : (k : Kernel) (c j : ℕ) → j ≢ c → watched (add k c).0 j ≡ watched k j
  pub read-same :
      (k : Kernel) (c j : ℕ)
      → (open_in (read k c).0 j ≡ open_in k j) × (watched (read k c).0 j ≡ watched k j)
  pub write-same :
      (k : Kernel) (c j : ℕ)
      → (open_in (write k c) j ≡ open_in k j) × (watched (write k c) j ≡ watched k j)
  -- What is closed leaves the interest list.
  pub close-self :
      (k : Kernel) (c : ℕ) → (open_in (close k c) c ≡ false) × (watched (close k c) c ≡ false)
  pub close-other :
      (k : Kernel) (c j : ℕ)
      → j ≢ c
      → (open_in (close k c) j ≡ open_in k j) × (watched (close k c) j ≡ watched k j)
  -- epoll_wait reports descriptors of the interest list, each once, and at most MAX_EVENTS.
  pub wait-same :
      (k : Kernel) (j : ℕ)
      → (open_in (wait k).0 j ≡ open_in k j) × (watched (wait k).0 j ≡ watched k j)
  pub wait-reports :
      (k : Kernel) (fds : List ℕ)
      → (wait k).1 ≡ some fds
      → All (λ fd. watched k fd ≡ true) fds × Distinct fds × (length fds ≤ 10)

module _ (sockets : Sockets) (listen_fd : ℕ) where
  open sockets use {Kernel, accept, add, read, write, close, wait}

  -- A connection to accept: the flag is false where main returns.
  unfoldable pub accept_one : Kernel → Kernel × Bool
  accept_one k =
      let (k', r) = accept k listen_fd in
      elim r [ none ↦ (k', true) | some conn_fd ↦ add k' conn_fd ]

  -- Data to read.
  unfoldable pub respond : Kernel → ℕ → Kernel
  respond k fd = let (k', got) = read k fd in if got then close (write k' fd) fd else close k' fd

  -- One event of the array.
  unfoldable pub handle : Kernel → ℕ → Kernel × Bool
  unfolding accept_one respond
  handle k fd = if fd == listen_fd then accept_one k else (respond k fd, true)

  unfoldable pub handle_all : Kernel → List ℕ → Kernel × Bool
  handle_all k [] = (k, true)
  handle_all k (fd ∷ fds) =
      let r = handle k fd in elim r.1 [ true ↦ handle_all r.0 fds | false ↦ r ]

  -- A round of the outer loop.
  unfoldable pub round : Kernel → Kernel × Bool
  round k = let (k', r) = wait k in elim r [ none ↦ (k', false) | some fds ↦ handle_all k' fds ]

  -- `n` rounds, or as many as there are before main returns.
  unfoldable pub rounds : ℕ → Kernel → Kernel × Bool
  rounds zero k = (k, true)
  rounds (suc n) k = let r = round k in elim r.1 [ true ↦ rounds n r.0 | false ↦ r ]
