-- ===== src/Clients.antt =====
-- client/client.cpp: the load generator, whose threads send and receive for a minute and count their
-- rounds in one atomic int. What send and recv answer are arguments, as is the number of rounds in which
-- the clock still allows another. The sockets that the threads connect are left out.
pub mod Totals
pub mod Processes
pub mod Sums
pub mod Tests
use corlib.Base.{
  ℕ, ◌+◌, ◌%◌, ◌^◌, ◌≡◌, Bool, true, false, some, List, [], ◌∷◌, get_elem?, set, if◌then◌else◌,
}

-- A round of the loop of client_task: send fails, recv fails, or `n` bytes come, 0 where the server has
-- closed the connection.
pub data Turn : Type 0 where
  send_fails recv_fails : Turn
  receives : ℕ → Turn

-- error() is called, which exits the process.
abbrev pub fails : Turn → Bool
fails t = elim t [ send_fails ↦ true | recv_fails ↦ true | receives n ↦ false ]

-- The rounds that each thread has still to make, `total_requests` on 32 bits, and whether the process
-- has been made to exit.
pub record Load : Type 0 where
  pub threads : List (List Turn)
  pub total_requests : ℕ
  pub exited : Bool

-- `total_requests++`.
abbrev pub count_request : ℕ → ℕ
count_request n = (n + 1) % 2 ^ 32

-- The next round, `t`, of thread `i`.
unfoldable pub client_turn : Load → ℕ → Turn → List Turn → Load
client_turn l i t ts =
    if fails t
    then record l { exited = true }
    else record l { threads = set l.threads i ts; total_requests = count_request l.total_requests }

-- Before the threads of main start.
abbrev pub start_load : List (List Turn) → Load
start_load threads = record { threads = threads; total_requests = 0; exited = false }

pub data Step (l : Load) : Load → Type 0 where
  turns :
      (i : ℕ) (t : Turn) (ts : List Turn)
      → l.exited ≡ false
      → get_elem? l.threads i ≡ some (t ∷ ts)
      → Step l (client_turn l i t ts)

pub data Reach (l : Load) : Load → Type 0 where
  here : Reach l l
  next : {m n : Load} → Reach l m → Step m n → Reach l n
